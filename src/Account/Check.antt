-- ===== src/Account/Check.antt =====
-- When `check_alloc` accepts an account (composite_types.py).
use execution_spec_tests_gno.Base.{ℕ, ◌≡◌, refl, ◌↔◌, ◌⊎◌, Option, none, some, List, arith}
use execution_spec_tests_gno.Base.Bytes.{bytes_eq-true, bytes_eq_refl, Bytes}
use execution_spec_tests_gno.Storage.{
  Storage, Verdict, passed, missing_key, key_value_mismatch, value_at,
}
use execution_spec_tests_gno.Storage.Compare.{Enumerates, IsAny, in_both, in_one, must_be_equal_iff}
use execution_spec_tests_gno.Account.{
  Account, Outcome, matches, nonce_mismatch, balance_mismatch, code_mismatch, storage_mismatch,
  nonce_of, balance_of, code_of, storage_of, check_alloc, and_then, check_nonce, check_balance,
  check_code, check_storage, of_verdict,
}

-- What the check demands of each field that the expected account sets.
abbrev pub AgreesOn {ℓ} : {A : Type ℓ} → (A → Type 0) → Option A → Type 0
AgreesOn P none = Unit
AgreesOn P (some want) = P want

pub record Agrees (expected account : Account) : Type 0 where
  pub nonce_agrees : AgreesOn (λ want. want ≡ nonce_of account) expected.nonce
  pub balance_agrees : AgreesOn (λ want. want ≡ balance_of account) expected.balance
  pub code_agrees : AgreesOn (λ want. want ≡ code_of account) expected.code
  pub storage_agrees :
      AgreesOn
        (λ want. (k : ℕ) → (value_at want k ≡ value_at (storage_of account) k) ⊎ IsAny want k)
        expected.storage

both_match : (o p : Outcome) → and_then o p ≡ matches → (o ≡ matches) × (p ≡ matches)
both_match matches p h = (refl, h)
both_match (nonce_mismatch _ _ _) p h = cc
both_match (balance_mismatch _ _ _) p h = cc
both_match (code_mismatch _ _ _) p h = cc
both_match (storage_mismatch _) p h = cc

of_verdict-matches : (v : Verdict) → of_verdict v ≡ matches → v ≡ passed
of_verdict-matches passed h = refl
of_verdict-matches (missing_key _) h = cc
of_verdict-matches (key_value_mismatch _ _ _ _ _) h = cc

-- The keys of the two storages, as the check visits them.
abbrev pub Visits : List ℕ → List ℕ → Option Storage → Storage → Type 0
Visits common single none t = Unit
Visits common single (some s) t = Enumerates common (in_both s t) × Enumerates single (in_one s t)

nonce_iff :
    (address : ℕ) (want : Option ℕ) (account : Account)
    → (check_nonce address want account ≡ matches) ↔ AgreesOn (λ n. n ≡ nonce_of account) want
nonce_iff address none account = (λ _. tt, λ _. refl)
nonce_iff address (some n) account = ground arith

balance_iff :
    (address : ℕ) (want : Option ℕ) (account : Account)
    → (check_balance address want account ≡ matches) ↔ AgreesOn (λ n. n ≡ balance_of account) want
balance_iff address none account = (λ _. tt, λ _. refl)
balance_iff address (some n) account = ground arith

code_iff :
    (address : ℕ) (want : Option Bytes) (account : Account)
    → (check_code address want account ≡ matches) ↔ AgreesOn (λ c. c ≡ code_of account) want
code_iff address none account = (λ _. tt, λ _. refl)
code_iff address (some c) account = (
  λ h. bytes_eq-true c (code_of account) (ground arith),
  λ e. rw e (rw (bytes_eq_refl (code_of account)) refl),
)

storage_iff :
    (common single : List ℕ) (address : ℕ) (want : Option Storage) (account : Account)
    → Visits common single want (storage_of account)
    → (check_storage common single address want account ≡ matches)
      ↔ AgreesOn (λ s. (k : ℕ) → (value_at s k ≡ value_at (storage_of account) k) ⊎ IsAny s k) want
storage_iff common single address none account visits = (λ _. tt, λ _. refl)
storage_iff common single address (some s) account visits =
    let same = must_be_equal_iff common single address s (storage_of account) visits.0 visits.1 in
    (λ h. same.0 (of_verdict-matches _ h), λ agree. rw (same.1 agree) refl)

-- The check accepts an account if and only if each field that the expected account sets is the same
-- in the account; storages are compared by value with a missing key as zero, but for the keys whose
-- value was left open.
pub check_alloc_iff :
    (common single : List ℕ) (address : ℕ) (expected account : Account)
    → Visits common single expected.storage (storage_of account)
    → (check_alloc common single address expected account ≡ matches) ↔ Agrees expected account
unfolding check_alloc
check_alloc_iff common single address expected account visits =
    let n = nonce_iff address expected.nonce account in
    let b = balance_iff address expected.balance account in
    let c = code_iff address expected.code account in
    let s = storage_iff common single address expected.storage account visits in
    (
      λ h.
          let (hn, h1) = both_match _ _ h in
          let (hb, h2) = both_match _ _ h1 in
          let (hc, hs) = both_match _ _ h2 in
          record {
            nonce_agrees = n.0 hn;
            balance_agrees = b.0 hb;
            code_agrees = c.0 hc;
            storage_agrees = s.0 hs;
          },
      λ a. rw (n.1 a.nonce_agrees, b.1 a.balance_agrees, c.1 a.code_agrees) (s.1 a.storage_agrees),
    )
