-- ===== src/Storage/Compare.antt =====
-- When the check of a storage against another passes (src/ethereum_test_base_types/composite_types.py,
-- `must_be_equal`), for every order in which Python may iterate over the keys.
use execution_spec_tests_gno.Base.{
  ℕ, ◌≡◌, refl, ◌↔◌, ◌⊎◌, inl, inr, Bool, true, false, not, ◌&&◌, ◌||◌, some, List, [], ◌∷◌, ◌==◌,
  arith, Bool-cases, ==_iff,
}
use mathlib.Core.Path.{subst}
use execution_spec_tests_gno.Base.Dict.{has, lookup, contains}
use execution_spec_tests_gno.Storage.{
  Storage, Verdict, passed, missing_key, key_value_mismatch, value_at, get_or, check_keys,
  must_be_equal, common_key, single_key, and_then,
}

-- The list holds exactly the keys that pass the test.
abbrev pub Enumerates : List ℕ → (ℕ → Bool) → Type 0
Enumerates ks p = (k : ℕ) → (has k ks ≡ true) ↔ (p k ≡ true)

pub has-cons : (k j : ℕ) (ks : List ℕ) → has k ks ≡ true → has k (j ∷ ks) ≡ true
has-cons k j ks h = ground arith

pub has_self : (k : ℕ) (ks : List ℕ) → has k (k ∷ ks) ≡ true
has_self k ks = ground arith

pub check_keys-passed :
    (check : ℕ → Verdict) (ks : List ℕ)
    → check_keys check ks ≡ passed
    → (k : ℕ) → has k ks ≡ true
    → check k ≡ passed
check_keys-passed check [] h k m = cc
check_keys-passed check (j ∷ ks) h k m =
    split (check j) (check_keys check ks) refl h (check_keys-passed check ks)
  where
    split :
        (v w : Verdict)
        → check j ≡ v
        → (elim v [ passed ↦ w | other ↦ other ]) ≡ passed
        → (w ≡ passed → (i : ℕ) → has i ks ≡ true → check i ≡ passed)
        → check k ≡ passed
    split passed w e h' ih = elim (Bool-cases (j == k)) [
      | inl same ↦ subst (λ i. check i ≡ passed) ((==_iff j k).0 same) e
      | inr other ↦ ih h' k (ground arith)
    ]
    split (missing_key n) w e h' ih = cc
    split (key_value_mismatch _ _ _ _ _) w e h' ih = cc

pub check_keys-all :
    (check : ℕ → Verdict) (ks : List ℕ)
    → ((k : ℕ) → has k ks ≡ true → check k ≡ passed)
    → check_keys check ks ≡ passed
check_keys-all check [] h = refl
check_keys-all check (j ∷ ks) h =
    let here = h j (has_self j ks) in
    let rest = check_keys-all check ks (λ k m. h k (has-cons k j ks m)) in
    rw (here, check_keys) rest

both_passed : (v w : Verdict) → and_then v w ≡ passed → (v ≡ passed) × (w ≡ passed)
both_passed passed w h = (refl, h)
both_passed (missing_key n) w h = cc
both_passed (key_value_mismatch _ _ _ _ _) w h = cc

-- A key whose value is left open: `set_expect_any` marked it, and the first storage does not have it.
abbrev pub IsAny : Storage → ℕ → Type 0
IsAny s k = (contains k s.root ≡ false) × (get_or false (lookup k s.any_map) ≡ true)

-- The keys that both storages have, and those that one of them has.
abbrev pub in_both : Storage → Storage → ℕ → Bool
in_both s t k = contains k s.root && contains k t.root

abbrev pub in_one : Storage → Storage → ℕ → Bool
in_one s t k =
    (contains k s.root && not (contains k t.root)) || (contains k t.root && not (contains k s.root))

-- What passing says of one key, and back.
agree_of_key :
    (address : ℕ) (s t : Storage) (k : ℕ)
    → (in_both s t k ≡ true → common_key address s t k ≡ passed)
    → (in_one s t k ≡ true → single_key address s t k ≡ passed)
    → (value_at s k ≡ value_at t k) ⊎ IsAny s k
agree_of_key address s t k f g = ground arith

common_of_agree :
    (address : ℕ) (s t : Storage) (k : ℕ)
    → (value_at s k ≡ value_at t k) ⊎ IsAny s k
    → in_both s t k ≡ true
    → common_key address s t k ≡ passed
common_of_agree address s t k h e = ground arith

single_of_agree :
    (address : ℕ) (s t : Storage) (k : ℕ)
    → (value_at s k ≡ value_at t k) ⊎ IsAny s k
    → in_one s t k ≡ true
    → single_key address s t k ≡ passed
single_of_agree address s t k h e = ground arith

module _ (common single : List ℕ) (address : ℕ) (s t : Storage) where
  -- In whatever order the keys are visited, the check passes if and only if at every key the two
  -- storages have the same value, a missing key being zero, but for a key that the first storage
  -- does not have and that `set_expect_any` marked. A marked key that the first storage has is
  -- compared as any other.
  pub must_be_equal_iff :
      Enumerates common (in_both s t)
      → Enumerates single (in_one s t)
      → (must_be_equal common single address s (some t) ≡ passed)
        ↔ ((k : ℕ) → (value_at s k ≡ value_at t k) ⊎ IsAny s k)
  unfolding must_be_equal
  must_be_equal_iff hc hs = (
    λ h k.
        let on_both = common_key address s t in
        let on_one = single_key address s t in
        let (first, second) =
          both_passed (check_keys on_both common) (check_keys on_one single) h in
        agree_of_key address s t k (λ e. check_keys-passed on_both common first k ((hc k).1 e))
          (λ e. check_keys-passed on_one single second k ((hs k).1 e)),
    λ agree.
        let first =
          check_keys-all (common_key address s t) common
            (λ k m. common_of_agree address s t k (agree k) ((hc k).0 m)) in
        let second =
          check_keys-all (single_key address s t) single
            (λ k m. single_of_agree address s t k (agree k) ((hs k).0 m)) in
        rw (first, second) refl,
  )
