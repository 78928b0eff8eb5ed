-- ===== src/State.antt =====
-- The state of accounts and storages, and its root (src/ethereum_test_types/account_types.py).
pub mod SetStorage
pub mod Roots
use execution_spec_tests_gno.Base.{
  ℕ, Bool, true, false, not, Option, none, some, List, [], ◌∷◌, ◌==◌, if◌then◌else◌, Result, ok,
  raise, assertion_error, value_error, ◌>>=◌, ◌>>◌, require,
}
use execution_spec_tests_gno.Base.Bytes.{Bytes}
use execution_spec_tests_gno.Base.ByteDict.{ByteDict, lookup, insert, erase}
use execution_spec_tests_gno.Trie.{Extended}
use execution_spec_tests_gno.Trie.Root.{
  FrontierAccount, Node, account, u256, nothing, node_eq, Trie, trie_set, trie_get, root,
}

-- `_snapshots` is empty in all of the code here; it is a number of snapshots.
pub record State : Type 0 where
  pub main_trie : Trie
  pub storage_tries : ByteDict Trie
  pub snapshots : ℕ

abbrev empty_main_trie : Trie
empty_main_trie = record { secured = true; default = nothing; entries = [] }

abbrev pub empty_storage_trie : Trie
empty_storage_trie = record { secured = true; default = u256 0; entries = [] }

-- `State()`
abbrev pub new_state : State
new_state = record { main_trie = empty_main_trie; storage_tries = []; snapshots = 0 }

abbrev node_of : Option FrontierAccount → Node
node_of none = nothing
node_of (some a) = account a

-- `set_account`
unfoldable pub set_account : State → Bytes → Option FrontierAccount → State
set_account state address a = record state {
  main_trie = trie_set state.main_trie address (node_of a);
}

abbrev pub trie_or_empty : Option Trie → Trie
trie_or_empty none = empty_storage_trie
trie_or_empty (some trie) = trie

abbrev pub is_empty : ByteDict Node → Bool
is_empty [] = true
is_empty (e ∷ d) = false

-- `state._storage_tries[address]` after the key is set: a trie that has become empty is deleted.
abbrev pub put_trie : Bytes → Trie → ByteDict Trie → ByteDict Trie
put_trie address trie tries =
    if is_empty trie.entries
    then erase address (insert address trie tries)
    else insert address trie tries

-- `set_storage`
unfoldable pub set_storage : State → Bytes → Bytes → ℕ → Result State
set_storage state address key value = do
  require (not (node_eq (trie_get state.main_trie address) nothing)) assertion_error
  let trie = trie_set (trie_or_empty (lookup address state.storage_tries)) key (u256 value)
  ok (record state { storage_tries = put_trie address trie state.storage_tries })

-- `EMPTY_TRIE_ROOT`
abbrev pub empty_trie_root : Bytes
empty_trie_root =
    0x56 ∷ 0xe8 ∷ 0x1f ∷ 0x17 ∷ 0x1b ∷ 0xcc ∷ 0x55 ∷ 0xa6 ∷ 0xff ∷ 0x83 ∷ 0x45 ∷ 0xe6 ∷ 0x92 ∷ 0xc0
    ∷ 0xf8 ∷ 0x6e ∷ 0x5b ∷ 0x48 ∷ 0xe0 ∷ 0x1b ∷ 0x99 ∷ 0x6c ∷ 0xad ∷ 0xc0 ∷ 0x01 ∷ 0x62 ∷ 0x2f
    ∷ 0xb5 ∷ 0xe3 ∷ 0x63 ∷ 0xb4 ∷ 0x21 ∷ []

abbrev no_snapshots : State → Bool
no_snapshots state = state.snapshots == 0

module _ (keccak256 : Bytes → Bytes) (rlp_encode : Extended → Bytes) where
  abbrev root_or_empty : Option Trie → Result Bytes
  unfolding root
  root_or_empty none = ok empty_trie_root
  root_or_empty (some trie) = root keccak256 rlp_encode trie none

  -- `storage_root`
  unfoldable pub storage_root : State → Bytes → Result Bytes
  unfolding root_or_empty
  storage_root state address = do
    require (no_snapshots state) assertion_error
    root_or_empty (lookup address state.storage_tries)

  -- `state_root`
  unfoldable pub state_root : State → Result Bytes
  unfolding storage_root
  state_root state = do
    require (no_snapshots state) assertion_error
    root keccak256 rlp_encode state.main_trie (some (storage_root state))
