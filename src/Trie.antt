-- ===== src/Trie.antt =====
-- The Merkle trie (src/ethereum_test_types/trie.py). The hash and the RLP encoder are those of other
-- packages, and parameters here.
pub mod Nibbles
pub mod Radix
pub mod Prefixes
pub mod Branches
pub mod Steps
pub mod Patricialize
pub mod Order
pub mod Root
use execution_spec_tests_gno.Base.{
  ℕ, zero, suc, ◌+◌, ◌*◌, ◌/◌, ◌%◌, min, Bool, true, false, ◌||◌, Option, none, some, List, [], ◌∷◌,
  ◌++◌, ◌==◌, ltb, if◌then◌else◌, length, get_elem?, filter, Result, ok, raise, assertion_error,
  index_error, recursion_error, ◌>>=◌, ◌>>◌, require,
}
use execution_spec_tests_gno.Base.Bytes.{Bytes}
use execution_spec_tests_gno.Base.ByteDict.{ByteDict}
use Prim.Native.Nat.{bit_and}

-- What RLP encodes: bytes, unsigned integers, and lists of what it encodes.
mutual
  pub data Extended : Type 0 where
    bytes : Bytes → Extended
    number : ℕ → Extended
    sequence : ExtendedList → Extended

  pub data ExtendedList : Type 0 where
    nil : ExtendedList
    cons : Extended → ExtendedList → ExtendedList

abbrev pub sequence_of : List Extended → ExtendedList
sequence_of [] = nil
sequence_of (x ∷ xs) = cons x (sequence_of xs)

-- `LeafNode`, `ExtensionNode`, `BranchNode`
pub data InternalNode : Type 0 where
  leaf : Bytes → Extended → InternalNode
  extension : Bytes → Extended → InternalNode
  branch : List Extended → Extended → InternalNode

-- `common_prefix_length`
unfoldable pub common_prefix_length : Bytes → Bytes → ℕ
common_prefix_length [] b = 0
common_prefix_length (x ∷ a) [] = 0
common_prefix_length (x ∷ a) (y ∷ b) = if x == y then suc (common_prefix_length a b) else 0

-- `16 * x[i] + x[i + 1]`, for every second index from the first of the list.
unfoldable pub pack_pairs : Bytes → Bytes
pack_pairs [] = []
pack_pairs (x ∷ []) = []
pack_pairs (x ∷ y ∷ rest) = (16 * x + y) ∷ pack_pairs rest

abbrev pub flag_of : Bool → ℕ
flag_of true = 2
flag_of false = 0

-- `nibble_list_to_compact`
unfoldable pub nibble_list_to_compact : Bytes → Bool → Bytes
unfolding pack_pairs
nibble_list_to_compact [] is_leaf = 16 * flag_of is_leaf ∷ []
nibble_list_to_compact (x ∷ rest) is_leaf =
    if length (x ∷ rest) % 2 == 0
    then 16 * flag_of is_leaf ∷ pack_pairs (x ∷ rest)
    else (16 * (flag_of is_leaf + 1) + x) ∷ pack_pairs rest

-- `bytes_to_nibble_list`
unfoldable pub bytes_to_nibble_list : Bytes → Bytes
bytes_to_nibble_list [] = []
bytes_to_nibble_list (b ∷ bs) = bit_and b 0xf0 / 16 ∷ bit_and b 0x0f ∷ bytes_to_nibble_list bs

-- `key[level:]`
abbrev pub drop : ℕ → Bytes → Bytes
drop zero b = b
drop (suc n) [] = []
drop (suc n) (x ∷ b) = drop n b

abbrev pub take : ℕ → Bytes → Bytes
take zero b = []
take (suc n) [] = []
take (suc n) (x ∷ b) = x ∷ take n b

-- The loop over the keys, which stops at 0.
unfoldable pub prefix_loop : Bytes → ℕ → ByteDict Bytes → ℕ → ℕ
unfolding common_prefix_length
prefix_loop substring level [] n = n
prefix_loop substring level ((key, v) ∷ obj) n =
    let shorter = min n (common_prefix_length substring (drop level key)) in
    let rest = prefix_loop substring level obj shorter in if shorter == 0 then 0 else rest

-- `branches[key[level]][key] = obj[key]`, for one of the branches.
abbrev pub put_branch : ℕ → Bytes × Bytes → Option ℕ → ByteDict Bytes → ByteDict Bytes
put_branch k e none rest = rest
put_branch k e (some digit) rest = if digit == k then e ∷ rest else rest

-- `branches[k]` after the loop: the keys are distinct, so each is put once.
unfoldable pub branch_at : ℕ → ℕ → ByteDict Bytes → ByteDict Bytes
branch_at level k [] = []
branch_at level k ((key, v) ∷ obj) =
    put_branch k (key, v) (get_elem? key level) (branch_at level k obj)

-- `value` after the loop.
unfoldable pub branch_value : ℕ → ByteDict Bytes → Bytes → Bytes
branch_value level [] value = value
branch_value level ((key, v) ∷ obj) value =
    branch_value level obj (if length key == level then v else value)

-- A digit of 16 or more is no index of the branches, and a key that is too short has no digit.
abbrev pub is_branch_index : Option ℕ → Bool
is_branch_index none = false
is_branch_index (some digit) = ltb digit 16

unfoldable pub check_digits : ℕ → ByteDict Bytes → Result (Unit {0})
check_digits level [] = ok tt
check_digits level ((key, v) ∷ obj) =
    require (length key == level || is_branch_index (get_elem? key level)) index_error
    >> check_digits level obj

-- `range(16)`
abbrev pub sixteen : List ℕ
sixteen = 0 ∷ 1 ∷ 2 ∷ 3 ∷ 4 ∷ 5 ∷ 6 ∷ 7 ∷ 8 ∷ 9 ∷ 10 ∷ 11 ∷ 12 ∷ 13 ∷ 14 ∷ 15 ∷ []

module _ (keccak256 : Bytes → Bytes) (rlp_encode : Extended → Bytes) where
  abbrev pub unencoded : Option InternalNode → Extended
  unfolding nibble_list_to_compact
  unencoded none = bytes []
  unencoded (some (leaf rest_of_key value)) =
      sequence (cons (bytes (nibble_list_to_compact rest_of_key true)) (cons value nil))
  unencoded (some (extension key_segment subnode)) =
      sequence (cons (bytes (nibble_list_to_compact key_segment false)) (cons subnode nil))
  unencoded (some (branch subnodes value)) = sequence (sequence_of (subnodes ++ value ∷ []))

  -- `encode_internal_node`
  unfoldable pub encode_internal_node : Option InternalNode → Extended
  unfolding unencoded
  encode_internal_node node =
      let encoded = rlp_encode (unencoded node) in
      if ltb (length encoded) 32 then unencoded node else bytes (keccak256 encoded)

  -- The subnodes of a branch, of the recursive call.
  unfoldable pub subnodes_of :
      (ByteDict Bytes → ℕ → Result (Option InternalNode))
      → ℕ
      → ByteDict Bytes
      → List ℕ
      → Result (List Extended)
  subnodes_of call level obj [] = ok []
  subnodes_of call level obj (k ∷ ks) = do
    node ← call (branch_at level k obj) (level + 1)
    rest ← subnodes_of call level obj ks
    ok (encode_internal_node node ∷ rest)

  -- The body of `patricialize`.
  unfoldable pub patricialize_step :
      (ByteDict Bytes → ℕ → Result (Option InternalNode))
      → ByteDict Bytes
      → ℕ
      → Result (Option InternalNode)
  patricialize_step call [] level = ok none
  patricialize_step call ((key, v) ∷ []) level = ok (some (leaf (drop level key) (bytes v)))
  patricialize_step call ((key, v) ∷ e ∷ es) level =
      let obj = (key, v) ∷ e ∷ es in
      let substring = drop level key in
      let prefix_length = prefix_loop substring level obj (length substring) in
      if ltb 0 prefix_length
      then (do
        node ← call obj (level + prefix_length)
        ok (some (extension (take prefix_length (drop level key)) (encode_internal_node node))))
      else (do
        check_digits level obj
        subnodes ← subnodes_of call level obj sixteen
        ok (some (branch subnodes (bytes (branch_value level obj [])))))

  -- `patricialize`, with the depth at which Python gives up as fuel.
  unfoldable pub patricialize : ℕ → ByteDict Bytes → ℕ → Result (Option InternalNode)
  patricialize zero obj level = raise recursion_error
  patricialize (suc depth) obj level = patricialize_step (patricialize depth) obj level
