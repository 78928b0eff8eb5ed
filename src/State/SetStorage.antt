-- ===== src/State/SetStorage.antt =====
-- What `set_account` and `set_storage` keep and change (src/ethereum_test_types/account_types.py).
use execution_spec_tests_gno.Base.{
  ℕ, ◌≡◌, refl, ap, sym, ◌∙◌, subst, Bool, true, false, ◌&&◌, none, some, [], ◌∷◌, if◌then◌else◌,
  All, not, ok, assertion_error, Bool-cases, inl, inr, >>=-eq-ok, require, ok-injective, arith,
  Option-cases,
}
use execution_spec_tests_gno.Base.Bytes.{Bytes, bytes_eq, bytes_eq-true}
use execution_spec_tests_gno.Base.ByteDict.{
  ByteDict, lookup, insert, erase, IsUnique, insert-IsUnique, erase-IsUnique, All-insert,
  All-lookup, All-erase-insert, lookup-insert, lookup-erase_self, lookup-erase_ne,
}
use execution_spec_tests_gno.Trie.Root.{
  Node, u256, nothing, node_eq, Trie, trie_set, trie_get, or_default,
}
use execution_spec_tests_gno.Trie.Root.Set.{trie_set-IsValid, trie_get-trie_set}
use execution_spec_tests_gno.Trie.Root.Set
use execution_spec_tests_gno.State.{
  State, set_storage, put_trie, trie_or_empty, empty_storage_trie, is_empty,
}

-- A storage trie of a state: valid, secured, with the default 0, and not empty.
pub record IsStorage (trie : Trie) : Type 0 where
  pub valid : Set.IsValid trie
  pub secured : trie.secured ≡ true
  pub zero_default : trie.default ≡ u256 0

pub record IsValid (state : State) : Type 0 where
  pub main_valid : Set.IsValid state.main_trie
  pub main_secured : state.main_trie.secured ≡ true
  pub main_default : state.main_trie.default ≡ nothing
  pub unique : IsUnique state.storage_tries
  pub storages : All (λ e. IsStorage e.1 × (is_empty e.1.entries ≡ false)) state.storage_tries
  pub alone : state.snapshots ≡ 0

pub trie_set_default :
    (trie : Trie) (k : Bytes) (v : Node) → (trie_set trie k v).default ≡ trie.default
unfolding trie_set
trie_set_default trie k v = ground arith

pub trie_set_secured :
    (trie : Trie) (k : Bytes) (v : Node) → (trie_set trie k v).secured ≡ trie.secured
unfolding trie_set
trie_set_secured trie k v = ground arith

nothing_in : (d : ByteDict Node) (key : Bytes) → is_empty d ≡ true → lookup key d ≡ none
nothing_in [] key e = refl
nothing_in (x ∷ d) key e = cc

trie_set-IsStorage :
    (trie : Trie) (k : Bytes) (n : ℕ) → IsStorage trie → IsStorage (trie_set trie k (u256 n))
trie_set-IsStorage trie k n h = record {
  valid = trie_set-IsValid trie k (u256 n) h.valid;
  secured = trie_set_secured trie k (u256 n) ∙ h.secured;
  zero_default = trie_set_default trie k (u256 n) ∙ h.zero_default;
}

empty-IsStorage : IsStorage empty_storage_trie
empty-IsStorage = record {
  valid = record { unique = tt; no_default = tt };
  secured = refl;
  zero_default = refl;
}

trie_or_empty-IsStorage :
    (state : State) (address : Bytes)
    → IsValid state
    → IsStorage (trie_or_empty (lookup address state.storage_tries))
trie_or_empty-IsStorage state address valid =
    elim (Option-cases (lookup address state.storage_tries)) [
      | inl e ↦ rw e empty-IsStorage
      | inr (trie, e) ↦
          rw e
            (All-lookup (λ e. IsStorage e.1 × (is_empty e.1.entries ≡ false)) address
              state.storage_tries trie valid.storages e).0
    ]

put_trie-All :
    (address : Bytes) (trie : Trie) (tries : ByteDict Trie)
    → IsStorage trie
    → All (λ e. IsStorage e.1 × (is_empty e.1.entries ≡ false)) tries
    → All (λ e. IsStorage e.1 × (is_empty e.1.entries ≡ false)) (put_trie address trie tries)
put_trie-All address trie tries h all = elim (Bool-cases (is_empty trie.entries)) [
  | inl e ↦ rw e (
      All-erase-insert (λ e. IsStorage e.1 × (is_empty e.1.entries ≡ false)) address trie tries all)
  | inr e ↦ rw e (
      All-insert (λ e. IsStorage e.1 × (is_empty e.1.entries ≡ false)) address trie tries (h, e)
        all)
]

put_trie-IsUnique :
    (address : Bytes) (trie : Trie) (tries : ByteDict Trie)
    → IsUnique tries
    → IsUnique (put_trie address trie tries)
put_trie-IsUnique address trie tries u = elim (Bool-cases (is_empty trie.entries)) [
  | inl e ↦
      rw e
        (erase-IsUnique address (insert address trie tries) (insert-IsUnique address trie tries u))
  | inr e ↦ rw e (insert-IsUnique address trie tries u)
]

-- Where `set_storage` returns, a valid state stays valid: no storage trie is empty or holds a zero.
pub set_storage-IsValid :
    (state : State) (address key : Bytes) (value : ℕ) {state' : State}
    → IsValid state
    → set_storage state address key value ≡ ok state'
    → IsValid state'
unfolding set_storage
set_storage-IsValid state address key value valid h =
    let (_, _, h1) =
      >>=-eq-ok (require (not (node_eq (trie_get state.main_trie address) nothing)) assertion_error)
        _ h in
    let trie = trie_set (trie_or_empty (lookup address state.storage_tries)) key (u256 value) in
    subst IsValid (ok-injective h1) (record {
      main_valid = valid.main_valid;
      main_secured = valid.main_secured;
      main_default = valid.main_default;
      unique = put_trie-IsUnique address trie state.storage_tries valid.unique;
      storages =
          put_trie-All address trie state.storage_tries
            (trie_set-IsStorage _ key value (trie_or_empty-IsStorage state address valid))
            valid.storages;
      alone = valid.alone;
    })

-- The value at a key of an account's storage.
abbrev pub storage_at : State → Bytes → Bytes → Node
storage_at state address key = trie_get (trie_or_empty (lookup address state.storage_tries)) key

get_from_empty :
    (trie : Trie) (key : Bytes)
    → IsStorage trie
    → is_empty trie.entries ≡ true
    → trie_get trie key ≡ u256 0
unfolding trie_get
get_from_empty trie key h e =
    ap (or_default trie.default) (nothing_in trie.entries key e) ∙ h.zero_default

get-put_trie :
    (address a key : Bytes) (trie : Trie) (tries : ByteDict Trie)
    → IsStorage trie
    → IsUnique tries
    → trie_get (trie_or_empty (lookup a (put_trie address trie tries))) key ≡ (
        if bytes_eq address a
        then trie_get trie key
        else trie_get (trie_or_empty (lookup a tries)) key)
get-put_trie address a key trie tries h u = elim (Bool-cases (is_empty trie.entries)) [
  | inl e ↦ elim (Bool-cases (bytes_eq address a)) [
    | inl same ↦
        let gone =
          ap (λ x. lookup x (erase address (insert address trie tries)))
            (sym (bytes_eq-true address a same))
          ∙ lookup-erase_self address (insert address trie tries)
              (insert-IsUnique address trie tries u) in
        rw (e, same)
          (ap (λ o. trie_get (trie_or_empty o) key) gone
            ∙ get_from_empty empty_storage_trie key empty-IsStorage refl
            ∙ sym (get_from_empty trie key h e))
    | inr other ↦
        let kept =
          lookup-erase_ne address a (insert address trie tries) other
          ∙ lookup-insert address a trie tries
          ∙ ap (λ b. if b then some trie else lookup a tries) other in
        rw (e, other) (ap (λ o. trie_get (trie_or_empty o) key) kept)
  ]
  | inr e ↦ elim (Bool-cases (bytes_eq address a)) [
    | inl same ↦
        rw (e, same)
          (ap (λ o. trie_get (trie_or_empty o) key)
            (lookup-insert address a trie tries
              ∙ ap (λ b. if b then some trie else lookup a tries) same))
    | inr other ↦
        rw (e, other)
          (ap (λ o. trie_get (trie_or_empty o) key)
            (lookup-insert address a trie tries
              ∙ ap (λ b. if b then some trie else lookup a tries) other))
  ]
]

combine :
    (b c : Bool) (got v old other : Node)
    → got ≡ (if c then v else old)
    → (b ≡ true → old ≡ other)
    → (if b then got else other) ≡ (if b && c then v else other)
combine true true got v old other e h = e
combine true false got v old other e h = e ∙ h refl
combine false c got v old other e h = refl

-- Where `set_storage` returns in a valid state, the value reads back, 0 included; the other keys of the
-- account and the storages of the other accounts read as before.
pub storage_at-set_storage :
    (state : State) (address key a k : Bytes) (value : ℕ) {state' : State}
    → IsValid state
    → set_storage state address key value ≡ ok state'
    → storage_at state' a k
      ≡ (if bytes_eq address a && bytes_eq key k then u256 value else storage_at state a k)
unfolding set_storage
storage_at-set_storage state address key a k value valid h =
    let (_, _, h1) =
      >>=-eq-ok (require (not (node_eq (trie_get state.main_trie address) nothing)) assertion_error)
        _ h in
    let old = trie_or_empty (lookup address state.storage_tries) in
    let storage = trie_or_empty-IsStorage state address valid in
    let new = trie_set old key (u256 value) in
    ap (λ s. storage_at s a k) (sym (ok-injective h1))
    ∙ get-put_trie address a k new state.storage_tries (trie_set-IsStorage old key value storage)
        valid.unique
    ∙ combine (bytes_eq address a) (bytes_eq key k) (trie_get new k) (u256 value) (trie_get old k)
        (storage_at state a k) (trie_get-trie_set old key k (u256 value) storage.valid)
        (λ same. ap (λ x. storage_at state x k) (bytes_eq-true address a same))
