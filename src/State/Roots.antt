-- ===== src/State/Roots.antt =====
-- That a state has a root (src/ethereum_test_types/account_types.py).
use execution_spec_tests_gno.Base.{
  ℕ, ◌<◌, ◌≡◌, refl, sym, subst, false, none, some, [], ◌∷◌, ==_iff, length, All, arith, ok,
  Option-cases, inl, inr,
}
use execution_spec_tests_gno.Base.Bytes.{Bytes, IsBytes, bytes_eq}
use execution_spec_tests_gno.Base.ByteDict.{ByteDict, lookup, All-lookup}
use execution_spec_tests_gno.Trie.{Extended, number}
use execution_spec_tests_gno.Trie.Root.{
  FrontierAccount, Node, account, u256, encode_account, encode_node,
}
use execution_spec_tests_gno.Trie.Root.Prepare.{Encodes, KeysAreBytes}
use execution_spec_tests_gno.Trie.Root.Commits.{root-commits}
use execution_spec_tests_gno.State.{State, storage_root, state_root, empty_trie_root, is_empty}
use execution_spec_tests_gno.State.SetStorage.{IsValid, IsStorage}

-- An entry of the main trie: an address of 20 bytes and an account.
pub record IsAccount (e : Bytes × Node) : Type 0 where
  pub address : IsBytes e.0 × (length e.0 ≡ 20)
  pub value : (a : FrontierAccount) × (e.1 ≡ account a)

-- An entry of a storage trie.
pub record IsSlot (e : Bytes × Node) : Type 0 where
  pub key : IsBytes e.0
  pub value : (n : ℕ) × (e.1 ≡ u256 n)

-- The tries hold accounts and slots.
pub record IsSound (state : State) : Type 0 where
  pub accounts : All IsAccount state.main_trie.entries
  pub slots : All (λ e. All IsSlot e.1.entries) state.storage_tries

not_empty : (b : Bytes) → 0 < length b → bytes_eq b [] ≡ false
not_empty [] h = absurd (omega arith)
not_empty (x ∷ b) h = refl

IsSlot-KeysAreBytes : (d : ByteDict Node) → All IsSlot d → KeysAreBytes d
IsSlot-KeysAreBytes [] all = tt
IsSlot-KeysAreBytes (e ∷ d) (h, all) = (h.key, IsSlot-KeysAreBytes d all)

IsAccount-KeysAreBytes : (d : ByteDict Node) → All IsAccount d → KeysAreBytes d
IsAccount-KeysAreBytes [] all = tt
IsAccount-KeysAreBytes (e ∷ d) (h, all) = (h.address.0, IsAccount-KeysAreBytes d all)

module _ (keccak256 : Bytes → Bytes) (rlp_encode : Extended → Bytes) where
  -- What the two functions of other packages do: 32 bytes, and at least one byte.
  pub record IsHashing : Type 0 where
    pub long : (b : Bytes) → length (keccak256 b) ≡ 32
    pub digests : (b : Bytes) → IsBytes (keccak256 b)
    pub filled : (x : Extended) → 0 < length (rlp_encode x)

  module _ (hashing : IsHashing) where
    slots-Encode : (d : ByteDict Node) → All IsSlot d → All (Encodes keccak256 rlp_encode none) d
    unfolding encode_node
    slots-Encode [] all = tt
    slots-Encode ((k, v) ∷ d) (h, all) =
        let (n, e) = h.value in
        (
          subst (λ x. Encodes keccak256 rlp_encode none (k, x)) (sym e)
              (
                rlp_encode (number n),
                refl,
                not_empty (rlp_encode (number n)) (hashing.filled (number n)),
              ),
          slots-Encode d all,
        )

    storage_root-returns :
        (state : State) (address : Bytes)
        → IsValid state
        → IsSound state
        → (hash : Bytes) × (storage_root keccak256 rlp_encode state address ≡ ok hash)
    unfolding storage_root
    storage_root-returns state address valid sound =
        elim (Option-cases (lookup address state.storage_tries)) [
          | inl e ↦ (empty_trie_root, rw ((==_iff _ 0).1 valid.alone, e) refl)
          | inr (trie, e) ↦
              let slots =
                All-lookup (λ x. All IsSlot x.1.entries) address state.storage_tries trie
                  sound.slots e in
              let storage =
                (All-lookup (λ x. IsStorage x.1 × (is_empty x.1.entries ≡ false)) address
                  state.storage_tries trie valid.storages e).0 in
              let (_, hash, roots, _, _, _) =
                root-commits keccak256 rlp_encode hashing.long hashing.digests none trie
                  storage.valid.unique (IsSlot-KeysAreBytes trie.entries slots)
                  (slots-Encode trie.entries slots) [] tt in
              (hash, rw ((==_iff _ 0).1 valid.alone, e) roots)
        ]

    accounts-Encode :
        (state : State)
        → IsValid state
        → IsSound state
        → (d : ByteDict Node) → All IsAccount d
        → All (Encodes keccak256 rlp_encode (some (storage_root keccak256 rlp_encode state))) d
    unfolding encode_node encode_account
    accounts-Encode state valid sound [] all = tt
    accounts-Encode state valid sound ((k, v) ∷ d) (h, all) =
        let (a, e) = h.value in
        let (storage_hash, found) = storage_root-returns state k valid sound in
        let encoded = encode_account keccak256 rlp_encode a storage_hash in
        (
          subst
              (λ x.
                Encodes keccak256 rlp_encode (some (storage_root keccak256 rlp_encode state))
                  (k, x))
              (sym e)
              (
                encoded,
                rw ((==_iff _ 20).1 h.address.1, found) refl,
                not_empty encoded (hashing.filled _),
              ),
          accounts-Encode state valid sound d all,
        )

    -- A valid state of accounts at addresses of 20 bytes, with storages of 256-bit values, has a root of 32
    -- bytes, for a hash of 32 bytes and an encoding that is never empty.
    pub state_root-returns :
        (state : State)
        → IsValid state
        → IsSound state
        → (hash : Bytes) × (state_root keccak256 rlp_encode state ≡ ok hash) × (length hash ≡ 32)
    unfolding state_root
    state_root-returns state valid sound =
        let (_, hash, roots, _, size, _) =
          root-commits keccak256 rlp_encode hashing.long hashing.digests
            (some (storage_root keccak256 rlp_encode state)) state.main_trie valid.main_valid.unique
            (IsAccount-KeysAreBytes state.main_trie.entries sound.accounts)
            (accounts-Encode state valid sound state.main_trie.entries sound.accounts) [] tt in
        (hash, rw ((==_iff _ 0).1 valid.alone) roots, size)
