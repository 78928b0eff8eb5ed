-- ===== src/Trie/Radix.antt =====
-- Radix trees: what a Merkle trie commits to (src/ethereum_test_types/trie.py).
use execution_spec_tests_gno.Base.{
  ℕ, Option, none, some, [], ◌∷◌, ◌++◌, ◌==◌, if◌then◌else◌, map, ◌≤◌, ◌<◌, ◌≡◌, length, All,
}
use execution_spec_tests_gno.Base.Bytes.{Bytes, bytes_eq}
use execution_spec_tests_gno.Base.ByteDict.{ByteDict}
use execution_spec_tests_gno.Trie.{
  Extended, bytes, InternalNode, leaf, extension, branch, sixteen, encode_internal_node,
}

-- A subtree for each digit stands at a fork.
pub data Tree : Type 0 where
  empty : Tree
  tip : Bytes → Bytes → Tree
  path : Bytes → Tree → Tree
  fork : (ℕ → Tree) → Bytes → Tree

-- The trie holds no empty value.
abbrev pub present : Bytes → Option Bytes
present [] = none
present (b ∷ bs) = some (b ∷ bs)

-- What stands behind a prefix.
abbrev pub strip : Bytes → Bytes → Option Bytes
strip [] k = some k
strip (x ∷ q) [] = none
strip (x ∷ q) (y ∷ k) = if x == y then strip q k else none

abbrev pub behind : Option Bytes → (Bytes → Option Bytes) → Option Bytes
behind none f = none
behind (some r) f = f r

-- The value of a key.
unfoldable pub find : Tree → Bytes → Option Bytes
find empty k = none
find (tip s v) k = if bytes_eq s k then some v else none
find (path q t) k = behind (strip q k) (λ r. find t r)
find (fork subtrees v) [] = present v
find (fork subtrees v) (d ∷ k) = find (subtrees d) k

-- An entry of the dict that the trie is built from: nibbles, at most so many, and a value.
pub record IsEntry (longest : ℕ) (e : Bytes × Bytes) : Type 0 where
  pub nibbles : All (λ d. d < 16) e.0
  pub has_value : present e.1 ≡ some e.1
  pub short : length e.0 ≤ longest

-- The same entries, behind a prefix.
abbrev pub prefixed : Bytes → ByteDict Bytes → ByteDict Bytes
prefixed q [] = []
prefixed q ((s, v) ∷ ss) = (q ++ s, v) ∷ prefixed q ss

module _ (keccak256 : Bytes → Bytes) (rlp_encode : Extended → Bytes) where
  -- The node of a tree.
  unfoldable pub commit : Tree → Option InternalNode
  unfolding encode_internal_node
  commit empty = none
  commit (tip s v) = some (leaf s (bytes v))
  commit (path q t) = some (extension q (encode_internal_node keccak256 rlp_encode (commit t)))
  commit (fork subtrees v) = some (
      branch (map (λ k. encode_internal_node keccak256 rlp_encode (commit (subtrees k))) sixteen)
        (bytes v))
