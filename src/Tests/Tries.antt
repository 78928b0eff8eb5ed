-- ===== src/Tests/Tries.antt =====
-- Tries, states and allocations at concrete inputs (src/ethereum_test_types/trie.py,
-- src/ethereum_test_types/account_types.py).
use execution_spec_tests_gno.Base.{
  ◌%◌, ◌<◌, ◌≡◌, refl, sym, ap, Bool-cases, inl, inr, false, true, none, some, List, [], ◌∷◌,
  length, replicate, All, ok, arith,
}
use execution_spec_tests_gno.Base.Bytes.{Bytes, IsBytes, bytes_eq, bytes_eq-true}
use execution_spec_tests_gno.Base.ByteDict.{ByteDict}
use execution_spec_tests_gno.Base.ByteDict
use execution_spec_tests_gno.Trie.{
  Extended, bytes, number, sequence, leaf, nibble_list_to_compact, bytes_to_nibble_list,
  patricialize_step, patricialize, prefix_loop, common_prefix_length, check_digits, subnodes_of,
  branch_value, branch_at, encode_internal_node,
}
use execution_spec_tests_gno.Trie.Nibbles.{read_compact, nibble_list_to_compact-roundtrip}
use execution_spec_tests_gno.Trie.Radix.{Tree, find, commit}
use execution_spec_tests_gno.Trie.Order.{SameEntries}
use execution_spec_tests_gno.Trie.Root.Order.{NoCollision, root-same}
use execution_spec_tests_gno.Trie.Root.{
  Node, account, u256, nothing, Trie, trie_set, trie_get, encode_node, root, root_of, key_of,
}
use execution_spec_tests_gno.Trie.Root.Set
use execution_spec_tests_gno.Trie.Root.Prepare.{Encodes, StandsApart, encoded_at}
use execution_spec_tests_gno.Trie.Root.Commits.{root-commits}
use execution_spec_tests_gno.State.{State, set_storage}
use execution_spec_tests_gno.State.SetStorage.{
  IsValid, storage_at, set_storage-IsValid, storage_at-set_storage,
}
use execution_spec_tests_gno.State.Roots.{IsHashing}

-- A stand-in for the hash: the first byte, and zeros.
abbrev pub digest : Bytes → Bytes
digest [] = replicate 32 0
digest (b ∷ bs) = b % 256 ∷ replicate 31 0

-- A stand-in for RLP.
abbrev pub encode : Extended → Bytes
encode (bytes b) = 0x80 ∷ b
encode (number n) = 0x81 ∷ n ∷ []
encode (sequence xs) = 0xc0 ∷ []

digest-long : (b : Bytes) → length (digest b) ≡ 32
digest-long [] = refl
digest-long (b ∷ bs) = refl

digest-IsBytes : (b : Bytes) → IsBytes (digest b)
digest-IsBytes [] = omega arith
digest-IsBytes (b ∷ bs) = omega arith

encode-filled : (x : Extended) → 0 < length (encode x)
encode-filled (bytes b) = omega arith
encode-filled (number n) = omega arith
encode-filled (sequence xs) = omega arith

pub stand_ins-IsHashing : IsHashing digest encode
stand_ins-IsHashing = record {
  long = digest-long;
  digests = digest-IsBytes;
  filled = encode-filled;
}

nibble_list_to_compact-roundtrip_example :
    (read_compact (nibble_list_to_compact (1 ∷ 2 ∷ 3 ∷ []) true) ≡ (1 ∷ 2 ∷ 3 ∷ [], true))
    × IsBytes (nibble_list_to_compact (1 ∷ 2 ∷ 3 ∷ []) true)
nibble_list_to_compact-roundtrip_example =
    nibble_list_to_compact-roundtrip (1 ∷ 2 ∷ 3 ∷ []) true (omega arith)

compact-test : nibble_list_to_compact (1 ∷ 2 ∷ 3 ∷ []) true ≡ 0x31 ∷ 0x23 ∷ []
unfolding nibble_list_to_compact
compact-test = refl

-- Two orders of three keys, of which two share a digit more.
same_node-test :
    patricialize digest encode 4
      ((1 ∷ 2 ∷ 3 ∷ [], 7 ∷ []) ∷ (1 ∷ 2 ∷ 4 ∷ [], 8 ∷ []) ∷ (1 ∷ 5 ∷ [], 9 ∷ []) ∷ [])
      0
    ≡ patricialize digest encode 4
        ((1 ∷ 5 ∷ [], 9 ∷ []) ∷ (1 ∷ 2 ∷ 4 ∷ [], 8 ∷ []) ∷ (1 ∷ 2 ∷ 3 ∷ [], 7 ∷ []) ∷ [])
        0
unfolding patricialize patricialize_step prefix_loop common_prefix_length check_digits subnodes_of
    branch_value branch_at encode_internal_node
same_node-test = refl

-- One key is a leaf, and two that share a digit are behind an extension.
leaf-test :
    patricialize digest encode 2 ((1 ∷ 2 ∷ [], 7 ∷ []) ∷ []) 0
    ≡ ok (some (leaf (1 ∷ 2 ∷ []) (bytes (7 ∷ []))))
unfolding patricialize patricialize_step
leaf-test = refl

abbrev two_slots : Trie
two_slots = record {
  secured = true;
  default = u256 0;
  entries = (5 ∷ [], u256 1) ∷ (6 ∷ [], u256 2) ∷ [];
}

two_slots-IsValid : Set.IsValid two_slots
two_slots-IsValid = record { unique = (refl, (refl, tt)); no_default = (refl, (refl, tt)) }

two_slots-Encode : All (Encodes digest encode none) two_slots.entries
unfolding encode_node
two_slots-Encode = ((0x81 ∷ 1 ∷ [], refl, refl), ((0x81 ∷ 2 ∷ [], refl, refl), tt))

abbrev swapped_slots : ByteDict Node
swapped_slots = (6 ∷ [], u256 2) ∷ (5 ∷ [], u256 1) ∷ []

swapped_slots-Same : SameEntries two_slots.entries swapped_slots
swapped_slots-Same k = elim (Bool-cases (bytes_eq (5 ∷ []) k)) [
  | inl five ↦
      let other : bytes_eq (6 ∷ []) k ≡ false =
        ap (bytes_eq (6 ∷ [])) (sym (bytes_eq-true (5 ∷ []) k five)) in
      rw (five, other) refl
  | inr other ↦ rw other refl
]

no_collision : NoCollision digest encode digest-IsBytes none true two_slots.entries
unfolding bytes_to_nibble_list
no_collision = ((refl, (refl, tt)), ((refl, (refl, tt)), tt))

root-same_example :
    (hash : Bytes) × (root digest encode two_slots none ≡ ok hash)
    × (root digest encode (record two_slots { entries = swapped_slots }) none ≡ ok hash)
root-same_example =
    root-same digest encode digest-long digest-IsBytes none true (u256 0) two_slots.entries
      swapped_slots (refl, (refl, tt)) (refl, (refl, tt)) (omega arith, (omega arith, tt))
      two_slots-Encode no_collision swapped_slots-Same

-- A key that the trie has, and one that it has not.
abbrev two_keys : List Bytes
two_keys = (5 ∷ []) ∷ (9 ∷ []) ∷ []

two_keys-StandApart : All (StandsApart digest encode true two_slots.entries) two_keys
unfolding bytes_to_nibble_list
two_keys-StandApart = ((refl, (refl, tt)), ((refl, (refl, tt)), tt))

root-commits_example :
    (t : Tree) × (hash : Bytes) × (root digest encode two_slots none ≡ ok hash)
    × (root_of digest encode (commit digest encode t) ≡ ok hash)
    × (length hash ≡ 32)
    × All
        (λ k.
          find t (key_of digest encode true k)
          ≡ encoded_at digest encode none k (ByteDict.lookup k two_slots.entries) none)
        two_keys
root-commits_example =
    root-commits digest encode digest-long digest-IsBytes none two_slots two_slots-IsValid.unique
      (omega arith) two_slots-Encode two_keys two_keys-StandApart

-- An account at the address 1 with the slot 5.
abbrev one_account : State
one_account = record {
  main_trie = record {
    secured = true;
    default = nothing;
    entries = (1 ∷ [], account (record { nonce = 1; balance = 0; code = [] })) ∷ [];
  };
  storage_tries = (1 ∷ [], two_slots) ∷ [];
  snapshots = 0;
}

one_account-IsValid : IsValid one_account
one_account-IsValid = record {
  main_valid = record { unique = (refl, tt); no_default = (refl, tt) };
  main_secured = refl;
  main_default = refl;
  unique = (refl, tt);
  storages =
      ((record { valid = two_slots-IsValid; secured = refl; zero_default = refl }, refl), tt);
  alone = refl;
}

-- One slot is set to 0, which deletes it.
abbrev slot_deleted : State
slot_deleted = record one_account {
  storage_tries =
      (1 ∷ [], record { secured = true; default = u256 0; entries = (6 ∷ [], u256 2) ∷ [] }) ∷ [];
}

slot_deleted-set_storage : set_storage one_account (1 ∷ []) (5 ∷ []) 0 ≡ ok slot_deleted
unfolding set_storage trie_get trie_set
slot_deleted-set_storage = refl

set_storage-IsValid_example : IsValid slot_deleted
set_storage-IsValid_example =
    set_storage-IsValid one_account (1 ∷ []) (5 ∷ []) 0 one_account-IsValid slot_deleted-set_storage

storage_at-set_storage_example : storage_at slot_deleted (1 ∷ []) (5 ∷ []) ≡ u256 0
storage_at-set_storage_example =
    storage_at-set_storage one_account (1 ∷ []) (5 ∷ []) (1 ∷ []) (5 ∷ []) 0 one_account-IsValid
      slot_deleted-set_storage
