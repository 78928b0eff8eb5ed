-- ===== src/Tests/Allocs.antt =====
-- Allocations at concrete inputs (src/ethereum_test_types/account_types.py).
use execution_spec_tests_gno.Base.{
  ℕ, ◌≡◌, ◌↔◌, refl, true, false, none, some, [], ◌∷◌, All, ok, length, arith,
}
use execution_spec_tests_gno.Base.Bytes.{Bytes, to_be}
use execution_spec_tests_gno.Base.Dict.{lookup}
use execution_spec_tests_gno.Storage.{new}
use execution_spec_tests_gno.Account.{Account}
use execution_spec_tests_gno.Trie.Root.{nothing, u256, trie_get}
use execution_spec_tests_gno.State.{State, state_root}
use execution_spec_tests_gno.State.SetStorage.{storage_at}
use execution_spec_tests_gno.Alloc.{
  Alloc, Order, verified, missing_account, verify_account, verify_post_alloc, merge, alloc_root,
}
use execution_spec_tests_gno.Alloc.Verify.{AgreesAt, verify_post_alloc_iff}
use execution_spec_tests_gno.Alloc.Merge.{Merged, merge-Merged}
use execution_spec_tests_gno.Alloc.Values.{node_or, word_or}
use execution_spec_tests_gno.Alloc.Root.{Fits, alloc_root-returns}
use execution_spec_tests_gno.Tests.Tries.{digest, encode, stand_ins-IsHashing}

abbrev rich : Account
rich = record { nonce = some 1; balance = some 5; code = none; storage = some (new ((3, 4) ∷ [])) }

abbrev poor : Account
poor = record { nonce = some 1; balance = some 5; code = none; storage = none }

-- An account, an address without one, and no others.
abbrev two_addresses : Alloc
two_addresses = (0x10, some rich) ∷ (0x20, none) ∷ []

two_addresses-Fit : All Fits two_addresses
two_addresses-Fit =
    ((omega arith, omega arith, (refl, tt), ((omega arith, omega arith), tt)), (omega arith, tt))

alloc_root-returns_example :
    (state : State) × (hash : Bytes) × (alloc_root digest encode two_addresses ≡ ok hash)
    × (state_root digest encode state ≡ ok hash)
    × (length hash ≡ 32)
    × All
        (λ (e : ℕ × ℕ).
          (trie_get state.main_trie (to_be 20 e.0) ≡ node_or nothing (lookup e.0 two_addresses))
          × (storage_at state (to_be 20 e.0) (to_be 32 e.1)
              ≡ word_or (u256 0) (lookup e.0 two_addresses) e.1))
        ((0x10, 3) ∷ (0x20, 0) ∷ [])
alloc_root-returns_example =
    alloc_root-returns digest encode stand_ins-IsHashing two_addresses (refl, (refl, tt))
      two_addresses-Fit ((0x10, 3) ∷ (0x20, 0) ∷ [])
      ((omega arith, omega arith), ((omega arith, omega arith), tt))

abbrev no_order : Order
no_order address = ([], [])

abbrev expected : Alloc
expected = (0x10, some poor) ∷ (0x20, none) ∷ []

verify_post_alloc_iff_example :
    (verify_post_alloc no_order expected two_addresses ≡ verified)
    ↔ All (λ e. AgreesAt e.1 (lookup e.0 two_addresses)) expected
verify_post_alloc_iff_example = verify_post_alloc_iff no_order expected two_addresses (tt, (tt, tt))

verify_post_alloc-test : verify_post_alloc no_order expected [] ≡ missing_account 0x10
unfolding verify_post_alloc verify_account
verify_post_alloc-test = refl

merge-Merged_example : Merged two_addresses expected true (merge two_addresses expected false)
merge-Merged_example =
    merge-Merged two_addresses expected false (refl, (refl, tt)) (refl, (refl, tt))
