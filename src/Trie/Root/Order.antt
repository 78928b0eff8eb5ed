-- ===== src/Trie/Root/Order.antt =====
-- The root of a trie does not depend on the order of its entries (src/ethereum_test_types/trie.py).
use execution_spec_tests_gno.Base.{
  ℕ, suc, ◌≤◌, ◌≡◌, refl, sym, ap, ◌∙◌, subst, Bool, true, false, max, Option, none, some, [], ◌∷◌,
  if◌then◌else◌, length, All, arith, Bool-cases, inl, inr, ◌⊎◌, Result, ok, require,
  assertion_error, not, >>=-eq-ok, ok-injective,
}
use execution_spec_tests_gno.Base.Bytes.{Bytes, IsBytes, bytes_eq, bytes_eq-true, bytes_eq_refl}
use execution_spec_tests_gno.Base.ByteDict.{
  ByteDict, lookup, contains, insert, is_some, IsUnique, All-lookup, lookup-insert,
}
use execution_spec_tests_gno.Trie.{Extended, patricialize}
use execution_spec_tests_gno.Trie.Order.{
  SameEntries, Keys, key-of_contained, Keys-of_same, contains_first, contains_later,
}
use execution_spec_tests_gno.Trie.Order.Same.{patricialize-same}
use execution_spec_tests_gno.Trie.Root.{
  Node, encode_value, key_of, prepare_loop, prepare_trie, root, longest_key,
}
use execution_spec_tests_gno.Trie.Root.Prepare.{
  IsEntry-longest, KeysAreBytes, StandsApart, Encodes, encoded_at, prepare_loop-IsPrepared,
  lookup-prepare_loop, prepare_loop-returns,
}
use execution_spec_tests_gno.Trie.Root.Commits.{root_of-returns}

longest_le : (d : ByteDict Bytes) (n : ℕ) → Keys (λ k. length k ≤ n) d → longest_key d ≤ n
longest_le [] n h = omega arith
longest_le ((k, v) ∷ d) n (here, h) = omega (arith, longest_le d n h)

Keys-weaken :
    (d : ByteDict Bytes) (m n : ℕ) → m ≤ n → Keys (λ k. length k ≤ m) d → Keys (λ k. length k ≤ n) d
Keys-weaken [] m n le h = tt
Keys-weaken ((k, v) ∷ d) m n le (here, h) = (omega arith, Keys-weaken d m n le h)

Keys-longest : (d : ByteDict Bytes) → Keys (λ k. length k ≤ longest_key d) d
Keys-longest [] = tt
Keys-longest ((k, v) ∷ d) = (
  omega arith,
  Keys-weaken d (longest_key d) (max (length k) (longest_key d)) (omega arith) (Keys-longest d),
)

longest-same : (d d' : ByteDict Bytes) → SameEntries d d' → longest_key d ≡ longest_key d'
longest-same d d' same =
    let up =
      longest_le d' (longest_key d)
        (Keys-of_same (λ k. length k ≤ longest_key d) d d' same (Keys-longest d)) in
    let down =
      longest_le d (longest_key d') (
        Keys-of_same (λ k. length k ≤ longest_key d') d' d (λ k. sym (same k)) (Keys-longest d')) in
    omega arith

-- What holds of all entries of a dict holds of the same entries in another order.
entries_covered :
    {V : Type 0} (P : Bytes × V → Type 0) (d d' : ByteDict V)
    → IsUnique d'
    → ((k : Bytes) (v : V) → lookup k d' ≡ some v → lookup k d ≡ some v)
    → All P d
    → All P d'
entries_covered P d [] u covers all = tt
entries_covered P d ((j, w) ∷ d') (fresh, u) covers all = (
  All-lookup P j d w all (covers j w (rw (bytes_eq_refl j) refl)),
  entries_covered P d d' u
      (λ k v h. covers k v (elim (Bool-cases (bytes_eq j k)) [
        | inl same ↦
            cc (ap is_some (sym h) ∙ ap (λ x. contains x d') (sym (bytes_eq-true j k same)) ∙ fresh)
        | inr other ↦ rw other h
      ]))
      all,
)

module _ (keccak256 : Bytes → Bytes) (rlp_encode : Extended → Bytes)
    (digests : (b : Bytes) → IsBytes (keccak256 b))
    (get_storage_root : Option (Bytes → Result Bytes)) (secured : Bool) where
  abbrev key : Bytes → Bytes
  key k = key_of keccak256 rlp_encode secured k

  -- No two keys of the trie have the same hash.
  abbrev pub NoCollision : ByteDict Node → Type 0
  NoCollision entries = Keys (StandsApart keccak256 rlp_encode secured entries) entries

  lookup-absent :
      (K : Bytes) (entries : ByteDict Node) (mapped obj : ByteDict Bytes)
      → prepare_loop keccak256 rlp_encode get_storage_root secured entries mapped ≡ ok obj
      → Keys (λ k. bytes_eq (key k) K ≡ false) entries
      → lookup K obj ≡ lookup K mapped
  unfolding prepare_loop
  lookup-absent K [] mapped obj h other = ap (lookup K) (sym (ok-injective h))
  lookup-absent K ((j, v) ∷ entries) mapped obj h (here, other) =
      let (encoded, e, h1) =
        >>=-eq-ok (encode_value keccak256 rlp_encode get_storage_root j v) _ h in
      let (_, nonempty, h2) =
        >>=-eq-ok (require (not (bytes_eq encoded [])) assertion_error) _ h1 in
      lookup-absent K entries (insert (key j) encoded mapped) obj h2 other
      ∙ lookup-insert (key j) K encoded mapped
      ∙ ap (λ b. if b then some encoded else lookup K mapped) here

  key_or_none :
      (K : Bytes) (entries : ByteDict Node)
      → ((k : Bytes) × (contains k entries ≡ true) × (key k ≡ K))
        ⊎ Keys (λ k. bytes_eq (key k) K ≡ false) entries
  key_or_none K [] = inr tt
  key_or_none K ((j, v) ∷ entries) = elim (Bool-cases (bytes_eq (key j) K)) [
    | inl same ↦ inl (j, contains_first j v entries, bytes_eq-true (key j) K same)
    | inr other ↦ elim (key_or_none K entries) [
      | inl (k, there, same) ↦ inl (k, contains_later k j v entries there, same)
      | inr none_there ↦ inr (other, none_there)
    ]
  ]

  prepared-Same :
      (entries entries' : ByteDict Node) (obj obj' : ByteDict Bytes)
      → prepare_loop keccak256 rlp_encode get_storage_root secured entries [] ≡ ok obj
      → prepare_loop keccak256 rlp_encode get_storage_root secured entries' [] ≡ ok obj'
      → IsUnique entries
      → IsUnique entries'
      → NoCollision entries
      → SameEntries entries entries'
      → SameEntries obj obj'
  prepared-Same entries entries' obj obj' h h' u u' apart same K = elim (key_or_none K entries) [
    | inl (k, there, eq) ↦
        let alone =
          key-of_contained (StandsApart keccak256 rlp_encode secured entries) k entries apart
            there in
        let alone' =
          Keys-of_same (λ j. bytes_eq (key j) (key k) ≡ bytes_eq j k) entries entries' same alone in
        let here =
          lookup-prepare_loop keccak256 rlp_encode digests get_storage_root secured k entries [] obj
            h u alone in
        let here' =
          lookup-prepare_loop keccak256 rlp_encode digests get_storage_root secured k entries' []
            obj' h' u' alone' in
        subst (λ x. lookup x obj ≡ lookup x obj') eq
          (here
            ∙ ap (λ o. encoded_at keccak256 rlp_encode get_storage_root k o none) (same k)
            ∙ sym here')
    | inr other ↦
        lookup-absent K entries [] obj h other
        ∙ sym (
            lookup-absent K entries' [] obj' h'
              (Keys-of_same (λ k. bytes_eq (key k) K ≡ false) entries entries' same other))
  ]

-- Two tries with the same values at the same keys, put in any order, have a root, and it is the same. The keys
-- are bytes, no two of one trie with the same hash; the values have encodings that are not empty, and
-- the hash function gives 32 bytes.
pub root-same :
    (keccak256 : Bytes → Bytes) (rlp_encode : Extended → Bytes)
    → ((b : Bytes) → length (keccak256 b) ≡ 32)
    → (digests : (b : Bytes) → IsBytes (keccak256 b))
    → (get_storage_root : Option (Bytes → Result Bytes)) (secured : Bool) (default : Node)
    → (entries entries' : ByteDict Node) → IsUnique entries
    → IsUnique entries'
    → KeysAreBytes entries
    → All (Encodes keccak256 rlp_encode get_storage_root) entries
    → NoCollision keccak256 rlp_encode digests get_storage_root secured entries
    → SameEntries entries entries'
    → (hash : Bytes) × (root keccak256 rlp_encode
          (record { secured = secured; default = default; entries = entries })
          get_storage_root
        ≡ ok hash)
      × (root keccak256 rlp_encode
            (record { secured = secured; default = default; entries = entries' })
            get_storage_root
          ≡ ok hash)
unfolding root prepare_trie
root-same keccak256 rlp_encode long digests get_storage_root secured default entries entries' u u'
      keys encodes apart same =
    let keys' = Keys-of_same IsBytes entries entries' same keys in
    let encodes' =
      entries_covered (Encodes keccak256 rlp_encode get_storage_root) entries entries' u'
        (λ k v h. same k ∙ h) encodes in
    let (obj, h) =
      prepare_loop-returns keccak256 rlp_encode digests get_storage_root secured entries []
        encodes in
    let (obj', h') =
      prepare_loop-returns keccak256 rlp_encode digests get_storage_root secured entries' []
        encodes' in
    let (unique, prepared) =
      prepare_loop-IsPrepared keccak256 rlp_encode digests get_storage_root secured entries [] obj h
        keys tt tt in
    let (unique', prepared') =
      prepare_loop-IsPrepared keccak256 rlp_encode digests get_storage_root secured entries' [] obj'
        h' keys' tt tt in
    let together =
      prepared-Same keccak256 rlp_encode digests get_storage_root secured entries entries' obj obj'
        h h' u u' apart same in
    let equal = longest-same obj obj' together in
    let (node, builds, builds') =
      patricialize-same keccak256 rlp_encode (suc (longest_key obj)) (longest_key obj) obj obj'
        unique unique' (IsEntry-longest obj (longest_key obj) (omega arith) prepared)
        (IsEntry-longest obj' (longest_key obj) (omega arith) prepared') (omega arith) together in
    let (hash, hashes, size) = root_of-returns keccak256 rlp_encode long node in
    let deep = ap (λ n. patricialize keccak256 rlp_encode (suc n) obj' 0) (sym equal) ∙ builds' in
    (hash, rw (h, builds) hashes, rw (h', deep) hashes)
