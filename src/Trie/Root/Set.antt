-- ===== src/Trie/Root/Set.antt =====
-- Setting and getting the values of a trie (src/ethereum_test_types/trie.py).
use execution_spec_tests_gno.Base.{
  ◌≡◌, refl, ap, sym, ◌∙◌, true, false, some, ==_iff, &&-eq-true, if◌then◌else◌, All, Bool-cases,
  inl, inr,
}
use execution_spec_tests_gno.Base.Bytes.{Bytes, bytes_eq, bytes_eq-true}
use execution_spec_tests_gno.Base.ByteDict.{
  lookup, contains, erase, All-insert, All-erase, IsUnique, lookup-insert, not_contained,
  lookup-erase_ne, lookup-erase_self, insert-IsUnique, erase-IsUnique,
}
use execution_spec_tests_gno.Trie.Root.{
  Node, account, raw, uint, u256, nothing, node_eq, Trie, trie_set, trie_get, or_default,
}

node_eq-true : (a b : Node) → node_eq a b ≡ true → a ≡ b
node_eq-true (account a) (account b) h =
    let (nonces, rest) = &&-eq-true _ _ h in
    let (balances, codes) = &&-eq-true _ _ rest in
    let n = (==_iff _ _).0 nonces in
    let m = (==_iff _ _).0 balances in
    let c = bytes_eq-true _ _ codes in
    λ i. account (record { nonce = n i; balance = m i; code = c i })
node_eq-true (raw a) (raw b) h = ap raw (bytes_eq-true a b h)
node_eq-true (uint a) (uint b) h = ap uint ((==_iff a b).0 h)
node_eq-true (u256 a) (u256 b) h = ap u256 ((==_iff a b).0 h)
node_eq-true nothing nothing h = refl
node_eq-true _ _ h = cc

-- A trie has each key once, and does not hold its default.
pub record IsValid (trie : Trie) : Type 0 where
  pub unique : IsUnique trie.entries
  pub no_default : All (λ e. node_eq e.1 trie.default ≡ false) trie.entries

-- Setting a value keeps a trie valid.
pub trie_set-IsValid :
    (trie : Trie) (k : Bytes) (v : Node) → IsValid trie → IsValid (trie_set trie k v)
unfolding trie_set
trie_set-IsValid trie k v valid = elim (Bool-cases (node_eq v trie.default)) [
  | inl same ↦ elim (Bool-cases (contains k trie.entries)) [
    | inl there ↦
        rw (same, there)
          (record {
            unique = erase-IsUnique k trie.entries valid.unique;
            no_default =
                All-erase (λ e. node_eq e.1 trie.default ≡ false) k trie.entries valid.no_default;
          })
    | inr absent ↦ rw (same, absent) valid
  ]
  | inr other ↦ rw other (record {
    unique = insert-IsUnique k v trie.entries valid.unique;
    no_default =
        All-insert (λ e. node_eq e.1 trie.default ≡ false) k v trie.entries other valid.no_default;
  })
]

-- Getting a key after setting one: the value that was set, the default included, at that key, and what
-- was there at every other.
pub trie_get-trie_set :
    (trie : Trie) (k j : Bytes) (v : Node)
    → IsValid trie
    → trie_get (trie_set trie k v) j ≡ (if bytes_eq k j then v else trie_get trie j)
unfolding trie_set trie_get
trie_get-trie_set trie k j v valid = elim (Bool-cases (node_eq v trie.default)) [
  | inl same ↦
      let v_default = node_eq-true v trie.default same in
      elim (Bool-cases (contains k trie.entries)) [
        | inl there ↦ elim (Bool-cases (bytes_eq k j)) [
          | inl e ↦
              let gone =
                ap (λ x. lookup x (erase k trie.entries)) (sym (bytes_eq-true k j e))
                ∙ lookup-erase_self k trie.entries valid.unique in
              rw (same, there, e) (ap (or_default trie.default) gone ∙ sym v_default)
          | inr n ↦
              rw (same, there, n)
                (ap (or_default trie.default) (lookup-erase_ne k j trie.entries n))
        ]
        | inr absent ↦ elim (Bool-cases (bytes_eq k j)) [
          | inl e ↦
              let none_there =
                ap (λ x. lookup x trie.entries) (sym (bytes_eq-true k j e))
                ∙ not_contained k trie.entries absent in
              rw (same, absent, e) (ap (or_default trie.default) none_there ∙ sym v_default)
          | inr n ↦ rw (same, absent, n) refl
        ]
      ]
  | inr other ↦ elim (Bool-cases (bytes_eq k j)) [
    | inl e ↦
        rw (other, e)
          (ap (or_default trie.default) (
            lookup-insert k j v trie.entries
            ∙ ap (λ b. if b then some v else lookup j trie.entries) e))
    | inr n ↦
        rw (other, n)
          (ap (or_default trie.default) (
            lookup-insert k j v trie.entries
            ∙ ap (λ b. if b then some v else lookup j trie.entries) n))
  ]
]
