-- ===== src/Tests/Storages.antt =====
-- Storages and accounts at concrete inputs (src/ethereum_test_base_types/composite_types.py).
use execution_spec_tests_gno.Base.{ℕ, ◌≡◌, ◌↔◌, ◌⊎◌, refl, none, some, [], ◌∷◌, arith}
use execution_spec_tests_gno.Base.Dict.{contains}
use execution_spec_tests_gno.Storage.{
  Storage, new, value_at, passed, must_be_equal, key_value_mismatch, set_expect_any,
}
use execution_spec_tests_gno.Storage.Compare.{Enumerates, IsAny, in_both, in_one, must_be_equal_iff}
use execution_spec_tests_gno.Account.{Account, check_alloc, matches}
use execution_spec_tests_gno.Account.Check.{Agrees, check_alloc_iff}

abbrev wanted : Storage
wanted = new ((1, 5) ∷ (2, 0) ∷ [])

abbrev found : Storage
found = new ((1, 5) ∷ [])

common-Enumerates : Enumerates (1 ∷ []) (in_both wanted found)
common-Enumerates k = ground arith

single-Enumerates : Enumerates (2 ∷ []) (in_one wanted found)
single-Enumerates k = ground arith

found-Enumerates : Enumerates (1 ∷ []) (λ k. contains k found.root)
found-Enumerates k = ground arith

must_be_equal_iff_example :
    (must_be_equal (1 ∷ []) (2 ∷ []) 7 wanted (some found) ≡ passed)
    ↔ ((k : ℕ) → (value_at wanted k ≡ value_at found k) ⊎ IsAny wanted k)
must_be_equal_iff_example =
    must_be_equal_iff (1 ∷ []) (2 ∷ []) 7 wanted found common-Enumerates single-Enumerates

must_be_equal-test : must_be_equal (1 ∷ []) (2 ∷ []) 7 wanted (some found) ≡ passed
unfolding must_be_equal
must_be_equal-test = refl

-- A key that is marked is still compared if the storage has it.
must_be_equal-any_test :
    (must_be_equal [] (3 ∷ []) 7 (set_expect_any (new []) 3) (some (new ((3, 9) ∷ []))) ≡ passed)
    × (must_be_equal (1 ∷ []) (2 ∷ []) 7 (set_expect_any wanted 1) (some (new ((1, 6) ∷ [])))
        ≡ key_value_mismatch 7 1 5 6 "")
unfolding must_be_equal set_expect_any
must_be_equal-any_test = (refl, refl)

wanted-Enumerates : Enumerates (1 ∷ 2 ∷ []) (λ k. contains k wanted.root)
wanted-Enumerates k = ground arith

abbrev expected_account : Account
expected_account = record { nonce = some 1; balance = none; code = none; storage = some wanted }

abbrev actual_account : Account
actual_account = record { nonce = some 1; balance = some 3; code = none; storage = some found }

check_alloc-test : check_alloc (1 ∷ []) (2 ∷ []) 7 expected_account actual_account ≡ matches
unfolding check_alloc must_be_equal
check_alloc-test = refl

check_alloc_iff_example :
    (check_alloc (1 ∷ []) (2 ∷ []) 7 expected_account actual_account ≡ matches)
    ↔ Agrees expected_account actual_account
check_alloc_iff_example =
    check_alloc_iff (1 ∷ []) (2 ∷ []) 7 expected_account actual_account
      (common-Enumerates, single-Enumerates)
