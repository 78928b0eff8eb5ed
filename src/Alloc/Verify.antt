-- ===== src/Alloc/Verify.antt =====
-- When a post state is accepted (src/ethereum_test_types/account_types.py, `verify_post_alloc`).
use execution_spec_tests_gno.Base.{◌≡◌, ◌↔◌, refl, ap, Option, none, some, [], ◌∷◌, All, ℕ}
use execution_spec_tests_gno.Base.Dict.{lookup}
use execution_spec_tests_gno.Account.{
  Account, Outcome, matches, nonce_mismatch, balance_mismatch, code_mismatch, storage_mismatch,
  storage_of,
}
use execution_spec_tests_gno.Account.Check.{Agrees, Visits, check_alloc_iff}
use execution_spec_tests_gno.Alloc.{
  Alloc, PostOutcome, verified, unexpected_account, missing_account, assertion, mismatch,
  of_outcome, Order, verify_account, and_then, verify_post_alloc,
}

-- An account that is not expected is absent, and one that is expected is there and agrees.
abbrev pub AgreesAt : Option Account → Option (Option Account) → Type 0
AgreesAt none (some (some got)) = ⊥
AgreesAt none _ = Unit
AgreesAt (some a) (some (some got)) = Agrees a got
AgreesAt (some a) _ = ⊥

-- The order visits the keys of the two storages at an address.
abbrev pub VisitsAt : Order → ℕ → Option Account → Option (Option Account) → Type 0
VisitsAt order address (some a) (some (some got)) =
    Visits (order address).0 (order address).1 a.storage (storage_of got)
VisitsAt order address _ _ = Unit

of_outcome-verified : (o : Outcome) → of_outcome o ≡ verified → o ≡ matches
of_outcome-verified matches h = refl
of_outcome-verified (nonce_mismatch _ _ _) h = cc
of_outcome-verified (balance_mismatch _ _ _) h = cc
of_outcome-verified (code_mismatch _ _ _) h = cc
of_outcome-verified (storage_mismatch _) h = cc

and_then-verified :
    (o p : PostOutcome) → (and_then o p ≡ verified) ↔ ((o ≡ verified) × (p ≡ verified))
and_then-verified verified p = (λ h. (refl, h), λ h. h.1)
and_then-verified (unexpected_account _) p = (λ h. cc, λ h. h.0)
and_then-verified (missing_account _) p = (λ h. cc, λ h. h.0)
and_then-verified assertion p = (λ h. cc, λ h. h.0)
and_then-verified (mismatch _) p = (λ h. cc, λ h. h.0)

verify_account_iff :
    (order : Order) (address : ℕ) (a : Option Account) (got : Option (Option Account))
    → VisitsAt order address a got
    → (verify_account order address a got ≡ verified) ↔ AgreesAt a got
unfolding verify_account
verify_account_iff order address none none v = (λ _. tt, λ _. refl)
verify_account_iff order address none (some none) v = (λ _. tt, λ _. refl)
verify_account_iff order address none (some (some got)) v = (λ h. cc, λ h. absurd h)
verify_account_iff order address (some a) none v = (λ h. cc, λ h. absurd h)
verify_account_iff order address (some a) (some none) v = (λ h. cc, λ h. absurd h)
verify_account_iff order address (some a) (some (some got)) v =
    let same = check_alloc_iff (order address).0 (order address).1 address a got v in
    (λ h. same.0 (of_outcome-verified _ h), λ h. ap of_outcome (same.1 h))

-- In whatever order the keys of storages are visited, a post state passes if and only if each address that
-- the expected allocation maps to no account has none in the post state, and each that it maps to an
-- account has one, which agrees with the fields that are expected.
pub verify_post_alloc_iff :
    (order : Order) (alloc got : Alloc)
    → All (λ e. VisitsAt order e.0 e.1 (lookup e.0 got)) alloc
    → (verify_post_alloc order alloc got ≡ verified)
      ↔ All (λ e. AgreesAt e.1 (lookup e.0 got)) alloc
unfolding verify_post_alloc
verify_post_alloc_iff order [] got visits = (λ _. tt, λ _. refl)
verify_post_alloc_iff order ((address, a) ∷ alloc) got (here, visits) =
    let both =
      and_then-verified (verify_account order address a (lookup address got))
        (verify_post_alloc order alloc got) in
    let first = verify_account_iff order address a (lookup address got) here in
    let rest = verify_post_alloc_iff order alloc got visits in
    (λ h. let (x, y) = both.0 h in (first.0 x, rest.0 y), λ h. both.1 (first.1 h.0, rest.1 h.1))
