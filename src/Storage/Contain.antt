-- ===== src/Storage/Contain.antt =====
-- When the checks of a storage for the entries of another pass
-- (src/ethereum_test_base_types/composite_types.py, `contains`, `must_contain`), for every order in
-- which Python may iterate over the keys.
use execution_spec_tests_gno.Base.{
  ℕ, ◌≡◌, refl, sym, ◌∙◌, ap, ◌↔◌, ◌⊎◌, inl, inr, Bool, true, none, some, List, [], ◌∷◌, ◌==◌,
  every, arith, Bool-cases, Option-cases, ==_iff, &&-eq-true,
}
use mathlib.Core.Path.{subst}
use execution_spec_tests_gno.Base.Dict.{Dict, has, lookup, contains}
use execution_spec_tests_gno.Storage.{
  Storage, passed, value_at, contains_all, must_contain, contain_key,
}
use execution_spec_tests_gno.Storage.Compare.{
  Enumerates, check_keys-passed, check_keys-all, has_self, has-cons,
}

contains_of_key :
    (address : ℕ) (s t : Storage) (k v : ℕ)
    → contain_key address s t k ≡ passed
    → lookup k t.root ≡ some v
    → value_at s k ≡ v
contains_of_key address s t k v f e = ground arith

key_of_contains :
    (address : ℕ) (s t : Storage) (k : ℕ)
    → ((v : ℕ) → lookup k t.root ≡ some v → value_at s k ≡ v)
    → contains k t.root ≡ true
    → contain_key address s t k ≡ passed
key_of_contains address s t k h e = elim (Option-cases (lookup k t.root)) [
  | inl absent ↦ ground arith
  | inr (v, found) ↦ let same = h v found in ground arith
]

-- A fact on the values that are there, as one on all keys.
none_or_value :
    (d : Dict ℕ) (value : ℕ → ℕ)
    → ((k v : ℕ) → lookup k d ≡ some v → value k ≡ v)
    → (k : ℕ) → (lookup k d ≡ none) ⊎ (lookup k d ≡ some (value k))
none_or_value d value h k = elim (Option-cases (lookup k d)) [
  | inl absent ↦ inl absent
  | inr (v, found) ↦ inr (found ∙ ap some (sym (h k v found)))
]

value_of_none_or :
    (d : Dict ℕ) (value : ℕ → ℕ)
    → ((k : ℕ) → (lookup k d ≡ none) ⊎ (lookup k d ≡ some (value k)))
    → (k v : ℕ) → lookup k d ≡ some v
    → value k ≡ v
value_of_none_or d value agree k v e = elim (agree k) [ inl absent ↦ cc | inr same ↦ cc ]

module _ (ks : List ℕ) (address : ℕ) (s t : Storage) where
  must_contain-passed :
      Enumerates ks (λ k. contains k t.root)
      → (must_contain ks address s t ≡ passed)
        ↔ ((k v : ℕ) → lookup k t.root ≡ some v → value_at s k ≡ v)
  unfolding must_contain
  must_contain-passed hk = (
    λ h k v e.
        contains_of_key address s t k v (check_keys-passed _ ks h k ((hk k).1 (ground arith))) e,
    λ h.
        check_keys-all (contain_key address s t) ks
          (λ k m. key_of_contains address s t k (λ v. h k v) ((hk k).0 m)),
  )

  -- In whatever order the keys of the other storage are visited, the check passes if and only if
  -- each of them has the same value in this storage, where a missing key is zero.
  must_contain_iff :
      Enumerates ks (λ k. contains k t.root)
      → (must_contain ks address s t ≡ passed)
        ↔ ((k : ℕ) → (lookup k t.root ≡ none) ⊎ (lookup k t.root ≡ some (value_at s k)))
  must_contain_iff hk =
      let same = must_contain-passed hk in
      (
        λ h. none_or_value t.root (value_at s) (same.0 h),
        λ agree. same.1 (value_of_none_or t.root (value_at s) agree),
      )

every-has :
    (p : ℕ → Bool) (ks : List ℕ) → every p ks ≡ true → (k : ℕ) → has k ks ≡ true → p k ≡ true
every-has p [] h k m = cc
every-has p (j ∷ ks) h k m = elim (Bool-cases (j == k)) [
  | inl same ↦ subst (λ i. p i ≡ true) ((==_iff j k).0 same) (&&-eq-true _ _ h).0
  | inr other ↦ every-has p ks (&&-eq-true _ _ h).1 k (ground arith)
]

has-every :
    (p : ℕ → Bool) (ks : List ℕ) → ((k : ℕ) → has k ks ≡ true → p k ≡ true) → every p ks ≡ true
has-every p [] h = refl
has-every p (j ∷ ks) h =
    let here = h j (has_self j ks) in
    let rest = has-every p ks (λ k m. h k (has-cons k j ks m)) in rw here rest

contains_all-eq-true :
    (ks : List ℕ) (s t : Storage)
    → Enumerates ks (λ k. contains k t.root)
    → (contains_all ks s t ≡ true)
      ↔ ((k v : ℕ) → lookup k t.root ≡ some v → lookup k s.root ≡ some v)
unfolding contains_all
contains_all-eq-true ks s t hk = (
  λ h k v e. let key = every-has _ ks h k ((hk k).1 (ground arith)) in ground arith,
  λ h. has-every _ ks (λ k m. elim (Option-cases (lookup k t.root)) [
    | inl absent ↦ let there = (hk k).0 m in ground arith
    | inr (v, found) ↦ let same = h k v found in ground arith
  ]),
)

-- The Boolean test is stricter than the check: it holds if and only if each key of the other storage
-- is in this one with the same value.
contains_all_iff :
    (ks : List ℕ) (s t : Storage)
    → Enumerates ks (λ k. contains k t.root)
    → (contains_all ks s t ≡ true)
      ↔ ((k : ℕ) → (lookup k t.root ≡ none) ⊎ (lookup k t.root ≡ lookup k s.root))
contains_all_iff ks s t hk =
    let same = contains_all-eq-true ks s t hk in
    (
      λ h k. elim (Option-cases (lookup k t.root)) [
        | inl absent ↦ inl absent
        | inr (v, found) ↦ inr (found ∙ sym (same.0 h k v found))
      ],
      λ agree. same.1 (λ k v e. elim (agree k) [ inl absent ↦ cc | inr here ↦ sym here ∙ e ]),
    )
