-- ===== src/Alloc/Build.antt =====
-- The state that an allocation becomes (src/ethereum_test_types/account_types.py, `Alloc.state_root`).
use execution_spec_tests_gno.Base.{
  ℕ, ◌^◌, ◌<◌, ◌≡◌, refl, ap, sym, ◌∙◌, Bool, true, false, ◌&&◌, Option, none, some, [], ◌∷◌,
  lt→ltb, ◌==◌, ==_iff, if◌then◌else◌, All, ok, Bool-cases, inl, inr, Option-cases,
}
use execution_spec_tests_gno.Base.Bytes.{
  Bytes, IsBytes, bytes_eq, to_be, to_bytes_auto, to_be-IsBytes, bytes_eq-to_be, bytes_eq_refl,
}
use execution_spec_tests_gno.Base.Dict.{Dict, lookup, IsUnique, not_contained}
use execution_spec_tests_gno.Base.ByteDict.{
  All-insert, All-erase, All-lookup, All-erase-insert, ByteDict,
}
use execution_spec_tests_gno.Base.ByteDict
use execution_spec_tests_gno.Trie.Root.{Node, u256, nothing, node_eq, Trie, trie_set, trie_get}
use execution_spec_tests_gno.State.{State, set_storage, put_trie, trie_or_empty, is_empty}
use execution_spec_tests_gno.State.SetStorage.{
  IsValid, storage_at, set_storage-IsValid, storage_at-set_storage,
}
use execution_spec_tests_gno.State.Roots.{IsSlot, IsSound}
use execution_spec_tests_gno.Alloc.{add_storage}

pub record IsGood (state : State) : Type 0 where
  pub valid : IsValid state
  pub sound : IsSound state

pub All-trie_set :
    (P : Bytes × Node → Type 0) (trie : Trie) (k : Bytes) (v : Node)
    → P (k, v)
    → All P trie.entries
    → All P (trie_set trie k v).entries
unfolding trie_set
All-trie_set P trie k v here all = elim (Bool-cases (node_eq v trie.default)) [
  | inl same ↦ elim (Bool-cases (ByteDict.contains k trie.entries)) [
    | inl there ↦ rw (same, there) (All-erase P k trie.entries all)
    | inr absent ↦ rw (same, absent) all
  ]
  | inr other ↦ rw other (All-insert P k v trie.entries here all)
]

-- Whether the main trie has an account at an address.
abbrev pub Has : State → Bytes → Type 0
Has state address = node_eq (trie_get state.main_trie address) nothing ≡ false

-- One slot is set: what the state has then.
record Sets (state : State) (address key : Bytes) (value : ℕ) (state' : State) : Type 0 where
  good : IsGood state'
  same_main : state'.main_trie ≡ state.main_trie
  reads :
      (a k : Bytes)
      → storage_at state' a k
        ≡ (if bytes_eq address a && bytes_eq key k then u256 value else storage_at state a k)

All-put_trie :
    (P : Bytes × Trie → Type 0) (address : Bytes) (trie : Trie) (tries : ByteDict Trie)
    → P (address, trie)
    → All P tries
    → All P (put_trie address trie tries)
All-put_trie P address trie tries here all =
    let inserted = All-insert P address trie tries here all in
    elim (Bool-cases (is_empty trie.entries)) [
      | inl e ↦ rw e (All-erase P address (ByteDict.insert address trie tries) inserted)
      | inr e ↦ rw e inserted
    ]

slots_at :
    (state : State) (address : Bytes)
    → IsSound state
    → All IsSlot (trie_or_empty (ByteDict.lookup address state.storage_tries)).entries
slots_at state address sound = elim (Option-cases (ByteDict.lookup address state.storage_tries)) [
  | inl e ↦ rw e tt
  | inr (trie, e) ↦
      rw e (All-lookup (λ x. All IsSlot x.1.entries) address state.storage_tries trie sound.slots e)
]

set_storage-Sets :
    (state : State) (address key : Bytes) (value : ℕ)
    → IsGood state
    → IsBytes key
    → Has state address
    → (state' : State) × (set_storage state address key value ≡ ok state')
      × Sets state address key value state'
unfolding set_storage
set_storage-Sets state address key value good bytes has =
    let old = trie_or_empty (ByteDict.lookup address state.storage_tries) in
    let trie = trie_set old key (u256 value) in
    let state' : State = record state {
      storage_tries = put_trie address trie state.storage_tries;
    } in
    let returns : set_storage state address key value ≡ ok state' = rw has refl in
    let slot : IsSlot (key, u256 value) = record { key = bytes; value = (value, refl) } in
    (
      state',
      returns,
      record {
        good = record {
          valid = set_storage-IsValid state address key value good.valid returns;
          sound = record {
            accounts = good.sound.accounts;
            slots =
                All-put_trie (λ x. All IsSlot x.1.entries) address trie state.storage_tries
                  (All-trie_set IsSlot old key (u256 value) slot
                    (slots_at state address good.sound))
                  good.sound.slots;
          };
        };
        same_main = refl;
        reads = λ a k. storage_at-set_storage state address key a k value good.valid returns;
      },
    )

-- The slots of an allocation are words.
abbrev pub AreWords : Dict ℕ → Type 0
AreWords = All (λ e. (e.0 < 2 ^ 256) × (e.1 < 2 ^ 256))

-- A slot that a storage sets, or else what was there.
abbrev pub slot_or : Node → Option ℕ → Node
slot_or old none = old
slot_or old (some value) = u256 value

-- A storage is added: what the state has then.
pub record Adds (state : State) (address : Bytes) (d : Dict ℕ) (state' : State) : Type 0 where
  pub good : IsGood state'
  pub same_main : state'.main_trie ≡ state.main_trie
  pub here :
      (n : ℕ)
      → n < 2 ^ 256
      → storage_at state' address (to_be 32 n)
        ≡ slot_or (storage_at state address (to_be 32 n)) (lookup n d)
  pub elsewhere :
      (a k : Bytes) → bytes_eq address a ≡ false → storage_at state' a k ≡ storage_at state a k

slot_then :
    (b : Bool) (value : ℕ) (old : Node) (rest : Option ℕ)
    → (b ≡ true → rest ≡ none)
    → slot_or (if b then u256 value else old) rest ≡ slot_or old (if b then some value else rest)
slot_then true value old rest h = ap (slot_or (u256 value)) (h refl)
slot_then false value old rest h = refl

pub add_storage-Adds :
    (state : State) (address : Bytes) (d : Dict ℕ)
    → IsGood state
    → Has state address
    → IsUnique d
    → AreWords d
    → (state' : State) × (add_storage state address d ≡ ok state') × Adds state address d state'
unfolding add_storage to_bytes_auto
add_storage-Adds state address [] good has u words = (
  state,
  refl,
  record { good = good; same_main = refl; here = λ n h. refl; elsewhere = λ a k h. refl },
)
add_storage-Adds state address ((key, value) ∷ d) good has (fresh, u) ((hk, hv), words) =
    let (next, sets_eq, sets) =
      set_storage-Sets state address (to_be 32 key) value good (to_be-IsBytes 32 key) has in
    let has' : Has next address =
      ap (λ t. node_eq (trie_get t address) nothing) sets.same_main ∙ has in
    let (last, adds_eq, adds) = add_storage-Adds next address d sets.good has' u words in
    (
      last,
      rw (lt→ltb key (2 ^ 256) hk, lt→ltb value (2 ^ 256) hv, sets_eq) adds_eq,
      record {
        good = adds.good;
        same_main = adds.same_main ∙ sets.same_main;
        here = λ n h.
            adds.here n h
            ∙ ap (λ v. slot_or v (lookup n d))
                (sets.reads address (to_be 32 n)
                  ∙ ap
                      (λ b.
                        if b && bytes_eq (to_be 32 key) (to_be 32 n)
                        then u256 value
                        else storage_at state address (to_be 32 n))
                      (bytes_eq_refl address)
                  ∙ ap (λ b. if b then u256 value else storage_at state address (to_be 32 n))
                      (bytes_eq-to_be 32 key n hk h))
            ∙ slot_then (key == n) value (storage_at state address (to_be 32 n)) (lookup n d)
                (λ same.
                  ap (λ x. lookup x d) (sym ((==_iff key n).0 same)) ∙ not_contained key d fresh);
        elsewhere = λ a k h.
            adds.elsewhere a k h
            ∙ sets.reads a k
            ∙ ap (λ b. if b && bytes_eq (to_be 32 key) k then u256 value else storage_at state a k)
                h;
      },
    )
