-- ===== src/Trie/Root.antt =====
-- Tries with their values, and their roots (src/ethereum_test_types/trie.py).
pub mod Set
pub mod Prepare
pub mod Commits
pub mod Order
use execution_spec_tests_gno.Base.{
  ℕ, zero, suc, ◌+◌, max, Bool, true, false, ◌&&◌, Option, none, some, List, [], ◌∷◌, ◌++◌, ◌==◌,
  ltb, not, if◌then◌else◌, length, Result, ok, raise, assertion_error, value_error, ◌>>=◌, ◌>>◌,
  require,
}
use execution_spec_tests_gno.Base.Bytes.{Bytes, bytes_eq}
use execution_spec_tests_gno.Base.ByteDict.{ByteDict, lookup, contains, insert, erase, is_some}
use execution_spec_tests_gno.Trie.{
  Extended, bytes, number, sequence, nil, cons, InternalNode, encode_internal_node, patricialize,
  bytes_to_nibble_list,
}

pub record FrontierAccount : Type 0 where
  pub nonce : ℕ
  pub balance : ℕ
  pub code : Bytes

-- `Node`: what a trie holds.
pub data Node : Type 0 where
  account : FrontierAccount → Node
  raw : Bytes → Node
  uint : ℕ → Node
  u256 : ℕ → Node
  nothing : Node

-- `==`
abbrev pub node_eq : Node → Node → Bool
node_eq (account a) (account b) =
    a.nonce == b.nonce && (a.balance == b.balance && bytes_eq a.code b.code)
node_eq (raw a) (raw b) = bytes_eq a b
node_eq (uint a) (uint b) = a == b
node_eq (u256 a) (u256 b) = a == b
node_eq nothing nothing = true
node_eq _ _ = false

pub record Trie : Type 0 where
  pub secured : Bool
  pub default : Node
  pub entries : ByteDict Node

-- `trie_set`
unfoldable pub trie_set : Trie → Bytes → Node → Trie
trie_set trie key value =
    if node_eq value trie.default
    then (if contains key trie.entries
        then record trie { entries = erase key trie.entries }
        else trie)
    else record trie { entries = insert key value trie.entries }

abbrev pub or_default : Node → Option Node → Node
or_default default none = default
or_default default (some value) = value

-- `trie_get`
unfoldable pub trie_get : Trie → Bytes → Node
trie_get trie key = or_default trie.default (lookup key trie.entries)

-- `copy_trie`: the values are frozen, so the copy is the trie.
abbrev pub copy_trie : Trie → Trie
copy_trie trie = record { secured = trie.secured; default = trie.default; entries = trie.entries }

abbrev pub is_bytes : Extended → Result Bytes
is_bytes (bytes b) = ok b
is_bytes _ = raise assertion_error

-- `Bytes32(b)`
abbrev pub bytes32 : Bytes → Result Bytes
bytes32 b = if length b == 32 then ok b else raise value_error

-- The length of the longest key: the recursion is one deeper at most.
abbrev pub longest_key : ByteDict Bytes → ℕ
longest_key [] = 0
longest_key ((key, v) ∷ obj) = max (length key) (longest_key obj)

module _ (keccak256 : Bytes → Bytes) (rlp_encode : Extended → Bytes) where
  -- `encode_account`
  unfoldable pub encode_account : FrontierAccount → Bytes → Bytes
  encode_account raw_account_data storage_root = rlp_encode (
      sequence (
        cons (number raw_account_data.nonce) (
          cons (number raw_account_data.balance)
            (cons (bytes storage_root) (cons (bytes (keccak256 raw_account_data.code)) nil)))))

  -- `encode_node`
  unfoldable pub encode_node : Node → Option Bytes → Result Bytes
  unfolding encode_account
  encode_node (account a) none = raise assertion_error
  encode_node (account a) (some storage_root) = ok (encode_account a storage_root)
  encode_node (u256 n) storage_root = ok (rlp_encode (number n))
  encode_node (raw b) storage_root = ok b
  encode_node _ storage_root = raise assertion_error

  -- `get_storage_root` is there for tries of accounts; an address is 20 bytes.
  abbrev pub encode_value : Option (Bytes → Result Bytes) → Bytes → Node → Result Bytes
  unfolding encode_node
  encode_value none preimage (account a) = raise assertion_error
  encode_value (some get_storage_root) preimage (account a) =
      if length preimage == 20
      then (do
        storage_root ← get_storage_root preimage
        encode_node (account a) (some storage_root))
      else raise value_error
  encode_value get_storage_root preimage value = encode_node value none

  abbrev pub key_of : Bool → Bytes → Bytes
  unfolding bytes_to_nibble_list
  key_of secured preimage = bytes_to_nibble_list (if secured then keccak256 preimage else preimage)

  -- The loop of `_prepare_trie`.
  unfoldable pub prepare_loop :
      Option (Bytes → Result Bytes)
      → Bool
      → ByteDict Node
      → ByteDict Bytes
      → Result (ByteDict Bytes)
  unfolding key_of encode_value
  prepare_loop get_storage_root secured [] mapped = ok mapped
  prepare_loop get_storage_root secured ((preimage, value) ∷ rest) mapped = do
    encoded_value ← encode_value get_storage_root preimage value
    require (not (bytes_eq encoded_value [])) assertion_error
    prepare_loop get_storage_root secured rest
        (insert (key_of secured preimage) encoded_value mapped)

  -- `_prepare_trie`
  unfoldable pub prepare_trie : Trie → Option (Bytes → Result Bytes) → Result (ByteDict Bytes)
  unfolding prepare_loop
  prepare_trie trie get_storage_root = prepare_loop get_storage_root trie.secured trie.entries []

  -- The hash of a root node.
  unfoldable pub root_of : Option InternalNode → Result Bytes
  root_of node =
      let root_node = encode_internal_node keccak256 rlp_encode node in
      if ltb (length (rlp_encode root_node)) 32
      then ok (keccak256 (rlp_encode root_node))
      else (do hash ← is_bytes root_node; bytes32 hash)

  -- `root`
  unfoldable pub root : Trie → Option (Bytes → Result Bytes) → Result Bytes
  root trie get_storage_root = do
    obj ← prepare_trie trie get_storage_root
    node ← patricialize keccak256 rlp_encode (suc (longest_key obj)) obj 0
    root_of node
