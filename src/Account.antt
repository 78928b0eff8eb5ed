-- ===== src/Account.antt =====
-- Accounts of a test and the check of an expected account against the account of the post state:
-- src/ethereum_test_base_types/composite_types.py, class `Account`. A field that is not in
-- `model_fields_set` is `none`, and reads as its default.
pub mod Check
use execution_spec_tests_gno.Base.{
  ℕ, Bool, true, false, not, ◌&&◌, ◌||◌, Option, none, some, List, [], ◌∷◌, ◌==◌, if◌then◌else◌,
}
use execution_spec_tests_gno.Base.Bytes.{Bytes, bytes_eq}
use execution_spec_tests_gno.Storage.{Storage, Verdict, passed, must_be_equal, new, get_or, is_true}

pub record Account : Type 0 where
  pub nonce : Option ℕ
  pub balance : Option ℕ
  pub code : Option Bytes
  pub storage : Option Storage

abbrev pub nonce_of : Account → ℕ
nonce_of a = get_or 0 a.nonce

abbrev pub balance_of : Account → ℕ
balance_of a = get_or 0 a.balance

abbrev pub code_of : Account → Bytes
code_of a = get_or [] a.code

abbrev pub storage_of : Account → Storage
storage_of a = get_or (new []) a.storage

-- The outcome of `check_alloc`: nothing, or the exception that it raises.
pub data Outcome : Type 0 where
  matches : Outcome
  nonce_mismatch : (address want got : ℕ) → Outcome
  balance_mismatch : (address want got : ℕ) → Outcome
  code_mismatch : (address : ℕ) (want got : Bytes) → Outcome
  storage_mismatch : Verdict → Outcome

abbrev of_verdict : Verdict → Outcome
of_verdict passed = matches
of_verdict v = storage_mismatch v

abbrev check_nonce : ℕ → Option ℕ → Account → Outcome
check_nonce address none account = matches
check_nonce address (some want) account =
    if want == nonce_of account then matches else nonce_mismatch address want (nonce_of account)

abbrev check_balance : ℕ → Option ℕ → Account → Outcome
check_balance address none account = matches
check_balance address (some want) account =
    if want == balance_of account
    then matches
    else balance_mismatch address want (balance_of account)

abbrev check_code : ℕ → Option Bytes → Account → Outcome
check_code address none account = matches
check_code address (some want) account =
    if bytes_eq want (code_of account)
    then matches
    else code_mismatch address want (code_of account)

abbrev check_storage : List ℕ → List ℕ → ℕ → Option Storage → Account → Outcome
check_storage common single address none account = matches
check_storage common single address (some want) account =
    of_verdict (must_be_equal common single address want (some (storage_of account)))

abbrev and_then : Outcome → Outcome → Outcome
and_then matches o = o
and_then o _ = o

-- `check_alloc`: the first field that differs is reported. The two lists are the keys that the
-- storages have in common, and those of one storage only, in Python's order.
unfoldable pub check_alloc : List ℕ → List ℕ → ℕ → Account → Account → Outcome
check_alloc common single address expected account =
    and_then (check_nonce address expected.nonce account) (
      and_then (check_balance address expected.balance account) (
        and_then (check_code address expected.code account)
          (check_storage common single address expected.storage account)))

abbrev is_empty : Bytes → Bool
is_empty [] = true
is_empty (b ∷ bs) = false

-- `__bool__`: some part of the account is not empty.
unfoldable pub is_nonempty : Account → Bool
unfolding is_true
is_nonempty a =
    not (nonce_of a == 0)
    || (not (balance_of a == 0) || (not (is_empty (code_of a)) || is_true (storage_of a)))

abbrev later {ℓ} : {A : Type ℓ} → Option A → Option A → Option A
later first none = first
later first (some a) = some a

abbrev map_option {ℓ} : {A : Type ℓ} → (A → A) → Option A → Option A
map_option f none = none
map_option f (some a) = some (f a)

abbrev no_fields : Account
no_fields = record { nonce = none; balance = none; code = none; storage = none }

-- `model_dump` keeps the slots of a storage, and neither its hints nor its open values.
abbrev pub dump_storage : Storage → Storage
dump_storage s = new s.root

abbrev dump_fields : Account → Account
dump_fields a = record {
  nonce = a.nonce;
  balance = a.balance;
  code = a.code;
  storage = map_option dump_storage a.storage;
}

-- `merge`: the fields that the second account sets override those of the first.
unfoldable pub merge : Option Account → Option Account → Account
merge first second =
    let a = dump_fields (get_or no_fields first) in
    let b = dump_fields (get_or no_fields second) in
    record {
      nonce = later a.nonce b.nonce;
      balance = later a.balance b.balance;
      code = later a.code b.code;
      storage = later a.storage b.storage;
    }

-- `with_code`
unfoldable pub with_code : Bytes → Account
with_code c = record { nonce = some 1; balance = none; code = some c; storage = none }
