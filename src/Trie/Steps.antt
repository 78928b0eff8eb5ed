-- ===== src/Trie/Steps.antt =====
-- The two steps of `patricialize` on two keys and more (src/ethereum_test_types/trie.py).
use execution_spec_tests_gno.Base.{
  ℕ, ◌+◌, ◌≡◌, refl, true, false, Option, some, List, [], ◌∷◌, ltb, length, All, Result, ok, ◌>>=◌,
  map,
}
use execution_spec_tests_gno.Base.Bytes.{Bytes}
use execution_spec_tests_gno.Base.ByteDict.{ByteDict}
use execution_spec_tests_gno.Trie.{
  Extended, bytes, InternalNode, extension, branch, take, prefix_loop, branch_at, branch_value,
  sixteen, encode_internal_node, subnodes_of, patricialize_step,
}
use execution_spec_tests_gno.Trie.Radix.{Tree, prefixed, IsEntry, commit}
use execution_spec_tests_gno.Trie.Prefixes.{drop-append, prefix_loop-prefixed}
use execution_spec_tests_gno.Trie.Branches.{check_digits-prefixed}

-- The first digits that the keys share.
abbrev pub shared : Bytes → ByteDict Bytes → ℕ
shared s ss = prefix_loop s 0 ss (length s)

module _ (keccak256 : Bytes → Bytes) (rlp_encode : Extended → Bytes) where
  module _ (call : ByteDict Bytes → ℕ → Result (Option InternalNode)) where
    pub step_extension :
        (q s v s' v' : Bytes) (ss : ByteDict Bytes)
        → ltb 0 (shared s ((s, v) ∷ (s', v') ∷ ss)) ≡ true
        → patricialize_step keccak256 rlp_encode call
            (prefixed q ((s, v) ∷ (s', v') ∷ ss))
            (length q)
          ≡ (call
                (prefixed q ((s, v) ∷ (s', v') ∷ ss))
                (length q + shared s ((s, v) ∷ (s', v') ∷ ss))
              >>= λ node. ok (
                  some (
                    extension
                      (take (shared s ((s, v) ∷ (s', v') ∷ ss)) s)
                      (encode_internal_node keccak256 rlp_encode node))))
    unfolding patricialize_step
    step_extension q s v s' v' ss h =
        rw (drop-append q s, prefix_loop-prefixed s q ((s, v) ∷ (s', v') ∷ ss) (length s), h) refl

    pub step_branch :
        (longest : ℕ) (q s v s' v' : Bytes) (ss : ByteDict Bytes)
        → ltb 0 (shared s ((s, v) ∷ (s', v') ∷ ss)) ≡ false
        → All (IsEntry longest) ((s, v) ∷ (s', v') ∷ ss)
        → patricialize_step keccak256 rlp_encode call
            (prefixed q ((s, v) ∷ (s', v') ∷ ss))
            (length q)
          ≡ (subnodes_of keccak256 rlp_encode call
                (length q)
                (prefixed q ((s, v) ∷ (s', v') ∷ ss))
                sixteen
              >>= λ subnodes. ok (
                  some (
                    branch subnodes
                      (bytes (branch_value (length q) (prefixed q ((s, v) ∷ (s', v') ∷ ss)) [])))))
    unfolding patricialize_step
    step_branch longest q s v s' v' ss h entries =
        rw
          (
            drop-append q s,
            prefix_loop-prefixed s q ((s, v) ∷ (s', v') ∷ ss) (length s),
            h,
            check_digits-prefixed longest q ((s, v) ∷ (s', v') ∷ ss) entries,
          )
          refl

    -- The subnodes where the call builds each of the branches.
    pub subnodes_of-commit :
        (q : Bytes) (ss : ByteDict Bytes) (subtrees : ℕ → Tree)
        → ((k : ℕ)
            → call (branch_at (length q) k (prefixed q ss)) (length q + 1)
              ≡ ok (commit keccak256 rlp_encode (subtrees k)))
        → (ks : List ℕ)
        → subnodes_of keccak256 rlp_encode call (length q) (prefixed q ss) ks
          ≡ ok (
              map
                (λ k.
                  encode_internal_node keccak256 rlp_encode
                    (commit keccak256 rlp_encode (subtrees k)))
                ks)
    unfolding subnodes_of
    subnodes_of-commit q ss subtrees h [] = refl
    subnodes_of-commit q ss subtrees h (k ∷ ks) =
        rw (h k, subnodes_of-commit q ss subtrees h ks) refl
