-- ===== src/Alloc.antt =====
-- Allocations of accounts: src/ethereum_test_types/account_types.py, class `Alloc`. An address is the
-- number that its 20 bytes stand for.
pub mod Merge
pub mod Verify
pub mod Build
pub mod Values
pub mod Root
use execution_spec_tests_gno.Base.{
  ℕ, ◌^◌, Bool, true, false, not, ◌&&◌, ◌||◌, Option, none, some, List, [], ◌∷◌, ltb, any, every,
  if◌then◌else◌, length, ◌==◌, Result, ok, raise, exception, overflow_error, ◌>>=◌, ◌>>◌, require,
}
use execution_spec_tests_gno.Base.Int.{pos}
use execution_spec_tests_gno.Base.Bytes.{Bytes, to_be, to_bytes_auto}
use execution_spec_tests_gno.Base.Dict.{Dict, lookup, contains, insert, erase, keys}
use execution_spec_tests_gno.Storage.{Storage, new}
use execution_spec_tests_gno.Account.{
  Account, Outcome, matches, nonce_of, balance_of, code_of, storage_of, check_alloc, is_nonempty,
  dump_storage,
}
use execution_spec_tests_gno.Account
use execution_spec_tests_gno.Trie.{Extended}
use execution_spec_tests_gno.Trie.Root.{FrontierAccount}
use execution_spec_tests_gno.State.{State, new_state, set_account, set_storage, state_root}

abbrev pub Alloc : Type 0
Alloc = Dict (Option Account)

-- `__getitem__`; a missing key raises a `KeyError`, here nothing.
abbrev pub get_item : Alloc → ℕ → Option (Option Account)
get_item alloc address = lookup address alloc

-- `__setitem__`
abbrev pub set_item : Alloc → ℕ → Option Account → Alloc
set_item alloc address a = insert address a alloc

-- `__delitem__`
abbrev pub del_item : Alloc → ℕ → Alloc
del_item alloc address = if contains address alloc then erase address alloc else alloc

-- `__contains__`
abbrev pub has_address : Alloc → ℕ → Bool
has_address alloc address = contains address alloc

abbrev is_falsy : Option Account → Bool
unfolding is_nonempty
is_falsy none = true
is_falsy (some a) = not (is_nonempty a)

-- `empty_accounts`
unfoldable pub empty_accounts : Alloc → List ℕ
unfolding is_falsy
empty_accounts [] = []
empty_accounts ((address, a) ∷ alloc) =
    let rest = empty_accounts alloc in if is_falsy a then address ∷ rest else rest

-- `model_dump`: every field of an account is set.
abbrev pub dump_account : Account → Account
dump_account a = record {
  nonce = some (nonce_of a);
  balance = some (balance_of a);
  code = some (code_of a);
  storage = some (dump_storage (storage_of a));
}

abbrev pub dump : Alloc → Alloc
dump [] = []
dump ((address, none) ∷ alloc) = (address, none) ∷ dump alloc
dump ((address, some a) ∷ alloc) = (address, some (dump_account a)) ∷ dump alloc

-- `merged.get(address, None)`
abbrev pub get_or_none : Option (Option Account) → Option Account
get_or_none none = none
get_or_none (some a) = a

-- The loop of `merge`.
unfoldable pub merge_loop : Alloc → Alloc → Alloc
unfolding Account.merge is_nonempty
merge_loop merged [] = merged
merge_loop merged ((address, other) ∷ rest) =
    let merged_account = Account.merge (get_or_none (lookup address merged)) other in
    merge_loop
      (if is_nonempty merged_account
        then insert address (some merged_account) merged
        else (if contains address merged then erase address merged else merged))
      rest

abbrev pub overlap : Alloc → Alloc → Bool
overlap a b = any (λ e. contains e.0 b) a

-- `merge`
unfoldable pub merge : Alloc → Alloc → Bool → Result Alloc
unfolding merge_loop
merge alloc_1 alloc_2 allow_key_collision = do
  require (not (overlap alloc_1 alloc_2 && not allow_key_collision)) exception
  ok (merge_loop (dump alloc_1) alloc_2)

-- The outcome of `verify_post_alloc`: nothing, or the exception that it raises.
pub data PostOutcome : Type 0 where
  verified : PostOutcome
  unexpected_account : ℕ → PostOutcome
  missing_account : ℕ → PostOutcome
  assertion : PostOutcome
  mismatch : Outcome → PostOutcome

abbrev pub of_outcome : Outcome → PostOutcome
of_outcome matches = verified
of_outcome o = mismatch o

-- The keys of two storages are visited in Python's order: those in common, and those of one.
abbrev pub Order : Type 0
Order = ℕ → List ℕ × List ℕ

-- The check of one address: what is expected, and what was found.
unfoldable pub verify_account : Order → ℕ → Option Account → Option (Option Account) → PostOutcome
unfolding check_alloc
verify_account order address none (some (some got)) = unexpected_account address
verify_account order address none got = verified
verify_account order address (some a) none = missing_account address
verify_account order address (some a) (some none) = assertion
verify_account order address (some a) (some (some got)) =
    of_outcome (check_alloc (order address).0 (order address).1 address a got)

abbrev pub and_then : PostOutcome → PostOutcome → PostOutcome
and_then verified o = o
and_then o _ = o

-- `verify_post_alloc`
unfoldable pub verify_post_alloc : Order → Alloc → Alloc → PostOutcome
unfolding verify_account
verify_post_alloc order [] got = verified
verify_post_alloc order ((address, a) ∷ alloc) got =
    and_then (verify_account order address a (lookup address got))
      (verify_post_alloc order alloc got)

-- `U256(n)`
abbrev pub u256_of : ℕ → Result ℕ
u256_of n = if ltb n (2 ^ 256) then ok n else raise overflow_error

-- `FrontierAddress(address)`
abbrev pub frontier_address : ℕ → Bytes
frontier_address address = to_be 20 address

-- The inner loop of `state_root`.
unfoldable pub add_storage : State → Bytes → Dict ℕ → Result State
unfolding set_storage to_bytes_auto
add_storage state address [] = ok state
add_storage state address ((key, value) ∷ rest) = do
  key_bytes ← to_bytes_auto 32 (pos key)
  word ← u256_of value
  next ← set_storage state address key_bytes word
  add_storage next address rest

-- The outer loop of `state_root`.
unfoldable pub add_accounts : State → Alloc → Result State
unfolding set_account add_storage
add_accounts state [] = ok state
add_accounts state ((address, none) ∷ rest) = add_accounts state rest
add_accounts state ((address, some a) ∷ rest) = do
  balance ← u256_of (balance_of a)
  let added : FrontierAccount = record { nonce = nonce_of a; balance = balance; code = code_of a }
  let with_account = set_account state (frontier_address address) (some added)
  next ← add_storage with_account (frontier_address address) (storage_of a).root
  add_accounts next rest

-- `state_root`
unfoldable pub alloc_root : (Bytes → Bytes) → (Extended → Bytes) → Alloc → Result Bytes
unfolding add_accounts state_root
alloc_root keccak256 rlp_encode alloc = do
  state ← add_accounts new_state alloc
  state_root keccak256 rlp_encode state
