-- ===== src/Alloc/Root.antt =====
-- The root of an allocation, and the state that it is the root of
-- (src/ethereum_test_types/account_types.py, `Alloc.state_root`).
use execution_spec_tests_gno.Base.{
  ℕ, ◌^◌, ◌<◌, ◌≡◌, refl, ap, ◌∙◌, subst, Option, none, some, List, [], ◌∷◌, lt→ltb, ◌==◌, ==_iff,
  if◌then◌else◌, length, All, All-map, ok,
}
use execution_spec_tests_gno.Base.Bytes.{
  Bytes, bytes_eq, to_be, to_be-IsBytes, length-to_be, bytes_eq-to_be, bytes_eq_refl,
}
use execution_spec_tests_gno.Base.Dict.{lookup, IsUnique}
use execution_spec_tests_gno.Account.{Account, balance_of, storage_of}
use execution_spec_tests_gno.Trie.{Extended}
use execution_spec_tests_gno.Trie.Root.{FrontierAccount, account, nothing, u256, node_eq, trie_get}
use execution_spec_tests_gno.Trie.Root.Set.{trie_set-IsValid, trie_get-trie_set}
use execution_spec_tests_gno.State.{State, new_state, set_account, state_root}
use execution_spec_tests_gno.State.SetStorage.{storage_at, trie_set_default, trie_set_secured}
use execution_spec_tests_gno.State.Roots.{IsAccount, IsHashing, state_root-returns}
use execution_spec_tests_gno.Alloc.{Alloc, add_accounts, alloc_root}
use execution_spec_tests_gno.Alloc.Values.{
  frontier_account, node_or, word_or, skip_node, skip_word, take_node, take_word, absent_at,
}
use execution_spec_tests_gno.Alloc.Build.{IsGood, All-trie_set, AreWords, slot_or, add_storage-Adds}

-- Addresses of 20 bytes, balances and slots that are words.
abbrev pub Fits : ℕ × Option Account → Type 0
Fits (address, none) = address < 2 ^ 160
Fits (address, some a) =
    (address < 2 ^ 160)
    × (balance_of a < 2 ^ 256)
    × IsUnique (storage_of a).root
    × AreWords (storage_of a).root

set_account-IsGood :
    (state : State) (address : ℕ) (a : FrontierAccount)
    → IsGood state
    → IsGood (set_account state (to_be 20 address) (some a))
unfolding set_account
set_account-IsGood state address a good = record {
  valid = record {
    main_valid =
        trie_set-IsValid state.main_trie (to_be 20 address) (account a) good.valid.main_valid;
    main_secured =
        trie_set_secured state.main_trie (to_be 20 address) (account a) ∙ good.valid.main_secured;
    main_default =
        trie_set_default state.main_trie (to_be 20 address) (account a) ∙ good.valid.main_default;
    unique = good.valid.unique;
    storages = good.valid.storages;
    alone = good.valid.alone;
  };
  sound = record {
    accounts =
        All-trie_set IsAccount state.main_trie (to_be 20 address) (account a)
          (record {
            address = (to_be-IsBytes 20 address, length-to_be 20 address);
            value = (a, refl);
          })
          good.sound.accounts;
    slots = good.sound.slots;
  };
}

get-set_account :
    (state : State) (address : ℕ) (a : FrontierAccount) (k : Bytes)
    → IsGood state
    → trie_get (set_account state (to_be 20 address) (some a)).main_trie k
      ≡ (if bytes_eq (to_be 20 address) k then account a else trie_get state.main_trie k)
unfolding set_account
get-set_account state address a k good =
    trie_get-trie_set state.main_trie (to_be 20 address) k (account a) good.valid.main_valid

same_storage :
    (state : State) (address : ℕ) (a : FrontierAccount) (x k : Bytes)
    → storage_at (set_account state (to_be 20 address) (some a)) x k ≡ storage_at state x k
unfolding set_account
same_storage state address a x k = refl

-- The allocation is added: what the state has then.
pub record Holds (state : State) (alloc : Alloc) (state' : State) : Type 0 where
  pub good : IsGood state'
  pub accounts :
      (address : ℕ)
      → address < 2 ^ 160
      → trie_get state'.main_trie (to_be 20 address)
        ≡ node_or (trie_get state.main_trie (to_be 20 address)) (lookup address alloc)
  pub words :
      (address n : ℕ)
      → address < 2 ^ 160
      → n < 2 ^ 256
      → storage_at state' (to_be 20 address) (to_be 32 n)
        ≡ word_or (storage_at state (to_be 20 address) (to_be 32 n)) (lookup address alloc) n

add_accounts-Holds :
    (state : State) (alloc : Alloc)
    → IsGood state
    → IsUnique alloc
    → All Fits alloc
    → (state' : State) × (add_accounts state alloc ≡ ok state') × Holds state alloc state'
unfolding add_accounts
add_accounts-Holds state [] good u fits = (
  state,
  refl,
  record { good = good; accounts = λ address h. refl; words = λ address n h k. refl },
)
add_accounts-Holds state ((address, none) ∷ alloc) good (fresh, u) (fit, fits) =
    let (last, returns, holds) = add_accounts-Holds state alloc good u fits in
    (
      last,
      returns,
      record {
        good = holds.good;
        accounts = λ x h.
            holds.accounts x h ∙ skip_node (address == x) _ _ (absent_at address x alloc fresh);
        words = λ x n h k.
            holds.words x n h k ∙ skip_word (address == x) _ _ n (absent_at address x alloc fresh);
      },
    )
add_accounts-Holds state ((address, some a) ∷ alloc) good (fresh, u)
      ((small, hb, unique, slots), fits) =
    let fa = frontier_account a in
    let first = set_account state (to_be 20 address) (some fa) in
    let get = λ (k : Bytes). get-set_account state address fa k good in
    let has =
      ap (λ v. node_eq v nothing)
        (get (to_be 20 address)
          ∙ ap (λ b. if b then account fa else trie_get state.main_trie (to_be 20 address))
              (bytes_eq_refl (to_be 20 address))) in
    let (next, adds_eq, adds) =
      add_storage-Adds first (to_be 20 address) (storage_of a).root
        (set_account-IsGood state address fa good) has unique slots in
    let (last, returns, holds) = add_accounts-Holds next alloc adds.good u fits in
    (
      last,
      rw (lt→ltb (balance_of a) (2 ^ 256) hb, adds_eq) returns,
      record {
        good = holds.good;
        accounts = λ x h.
            holds.accounts x h
            ∙ ap (λ v. node_or v (lookup x alloc))
                (ap (λ t. trie_get t (to_be 20 x)) adds.same_main
                  ∙ get (to_be 20 x)
                  ∙ ap (λ b. if b then account fa else trie_get state.main_trie (to_be 20 x))
                      (bytes_eq-to_be 20 address x small h))
            ∙ take_node (address == x) a (trie_get state.main_trie (to_be 20 x)) (lookup x alloc)
                (absent_at address x alloc fresh);
        words = λ x n h k.
            holds.words x n h k
            ∙ take_word (address == x) a (storage_at state (to_be 20 x) (to_be 32 n))
                (storage_at next (to_be 20 x) (to_be 32 n)) (lookup x alloc) n
                (absent_at address x alloc fresh)
                (λ same.
                  subst
                    (λ y.
                      storage_at next (to_be 20 y) (to_be 32 n)
                      ≡ slot_or (storage_at state (to_be 20 y) (to_be 32 n))
                          (lookup n (storage_of a).root))
                    ((==_iff address x).0 same)
                    (adds.here n k
                      ∙ ap (λ v. slot_or v (lookup n (storage_of a).root))
                          (same_storage state address fa (to_be 20 address) (to_be 32 n))))
                (λ other.
                  adds.elsewhere (to_be 20 x) (to_be 32 n)
                    (bytes_eq-to_be 20 address x small h ∙ other)
                  ∙ same_storage state address fa (to_be 20 x) (to_be 32 n));
      },
    )

new_state-IsGood : IsGood new_state
new_state-IsGood = record {
  valid = record {
    main_valid = record { unique = tt; no_default = tt };
    main_secured = refl;
    main_default = refl;
    unique = tt;
    storages = tt;
    alone = refl;
  };
  sound = record { accounts = tt; slots = tt };
}

-- The root of an allocation whose addresses, balances and slots are in range is returned, and has 32 bytes. It
-- is the root of a state that has, at any addresses and slots in range, the account that the allocation
-- has there, or none, and the value of the slot, or 0. The hash gives 32 bytes, and the encoding is never empty.
pub alloc_root-returns :
    (keccak256 : Bytes → Bytes) (rlp_encode : Extended → Bytes)
    → IsHashing keccak256 rlp_encode
    → (alloc : Alloc) → IsUnique alloc
    → All Fits alloc
    → (places : List (ℕ × ℕ)) → All (λ e. (e.0 < 2 ^ 160) × (e.1 < 2 ^ 256)) places
    → (state : State) × (hash : Bytes) × (alloc_root keccak256 rlp_encode alloc ≡ ok hash)
      × (state_root keccak256 rlp_encode state ≡ ok hash)
      × (length hash ≡ 32)
      × All
          (λ e.
            (trie_get state.main_trie (to_be 20 e.0) ≡ node_or nothing (lookup e.0 alloc))
            × (storage_at state (to_be 20 e.0) (to_be 32 e.1)
                ≡ word_or (u256 0) (lookup e.0 alloc) e.1))
          places
unfolding alloc_root trie_get
alloc_root-returns keccak256 rlp_encode hashing alloc u fits places small =
    let (state, builds, holds) = add_accounts-Holds new_state alloc new_state-IsGood u fits in
    let (hash, roots, size) =
      state_root-returns keccak256 rlp_encode hashing state holds.good.valid holds.good.sound in
    (
      state,
      hash,
      rw builds roots,
      roots,
      size,
      All-map _ _ (λ e h. (holds.accounts e.0 h.0, holds.words e.0 e.1 h.0 h.1)) places small,
    )
