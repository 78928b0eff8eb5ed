-- ===== src/Trie/Order/Nodes.antt =====
-- The extensions and branches of two dicts are the same where their parts are (src/ethereum_test_types/trie.py).
use execution_spec_tests_gno.Base.{
  ℕ, suc, ◌+◌, ◌≡◌, refl, sym, ap, ap₂, ◌∙◌, true, false, Option, some, List, [], ◌∷◌, ◌++◌, ltb,
  length, length-append, All, arith, Result, ok, ◌>>=◌,
}
use execution_spec_tests_gno.Base.Bytes.{Bytes}
use execution_spec_tests_gno.Base.ByteDict.{ByteDict, lookup, IsUnique}
use execution_spec_tests_gno.Trie.{
  Extended, bytes, InternalNode, extension, branch, take, branch_at, branch_value, sixteen,
  encode_internal_node, subnodes_of, patricialize,
}
use execution_spec_tests_gno.Trie.Radix.{prefixed, IsEntry, present}
use execution_spec_tests_gno.Trie.Steps.{shared, step_extension, step_branch}
use execution_spec_tests_gno.Trie.Prefixes.{length-take, prefixed-append, prefix_loop-prefix, tails}
use execution_spec_tests_gno.Trie.Branches.{behind_digit, branch_at-prefixed, present-branch_value}
use execution_spec_tests_gno.Trie.Patricialize.{branch_level}

present-injective : (v w : Bytes) → present v ≡ present w → v ≡ w
present-injective [] [] h = refl
present-injective [] (y ∷ w) h = cc
present-injective (x ∷ v) [] h = cc
present-injective (x ∷ v) (y ∷ w) h = cc

module _ (keccak256 : Bytes → Bytes) (rlp_encode : Extended → Bytes) where
  abbrev pub node_at : ℕ → Bytes → ByteDict Bytes → Result (Option InternalNode)
  node_at depth q ss = patricialize keccak256 rlp_encode depth (prefixed q ss) (length q)

  subnodes_same :
      (call : ByteDict Bytes → ℕ → Result (Option InternalNode)) (q : Bytes)
      (ss ss' : ByteDict Bytes)
      → ((k : ℕ)
          → call (prefixed (q ++ k ∷ []) (behind_digit k ss)) (length (q ++ k ∷ []))
            ≡ call (prefixed (q ++ k ∷ []) (behind_digit k ss')) (length (q ++ k ∷ [])))
      → (ks : List ℕ)
      → subnodes_of keccak256 rlp_encode call (length q) (prefixed q ss) ks
        ≡ subnodes_of keccak256 rlp_encode call (length q) (prefixed q ss') ks
  unfolding subnodes_of
  subnodes_same call q ss ss' each [] = refl
  subnodes_same call q ss ss' each (k ∷ ks) =
      let here : call (branch_at (length q) k (prefixed q ss)) (length q + 1)
          ≡ call (branch_at (length q) k (prefixed q ss')) (length q + 1) =
        ap₂ call (branch_at-prefixed q k ss) (branch_level q k)
        ∙ each k
        ∙ sym (ap₂ call (branch_at-prefixed q k ss') (branch_level q k)) in
      rw (here, subnodes_same call q ss ss' each ks) refl

  -- The extension of a dict whose keys share a prefix.
  abbrev extension_of : Bytes → Result (Option InternalNode) → Result (Option InternalNode)
  extension_of p r =
      r >>= λ node. ok (some (extension p (encode_internal_node keccak256 rlp_encode node)))

  node-extension :
      (depth : ℕ) (q s v s' v' : Bytes) (ss : ByteDict Bytes)
      → ltb 0 (shared s ((s, v) ∷ (s', v') ∷ ss)) ≡ true
      → node_at (suc depth) q ((s, v) ∷ (s', v') ∷ ss)
        ≡ extension_of (take (shared s ((s, v) ∷ (s', v') ∷ ss)) s) (
            node_at depth
              (q ++ take (shared s ((s, v) ∷ (s', v') ∷ ss)) s)
              (tails (shared s ((s, v) ∷ (s', v') ∷ ss)) ((s, v) ∷ (s', v') ∷ ss)))
  unfolding patricialize
  node-extension depth q s v s' v' ss h =
      let all : ByteDict Bytes = (s, v) ∷ (s', v') ∷ ss in
      let n = shared s all in
      let (le, split) = prefix_loop-prefix s v ((s', v') ∷ ss) in
      let same : prefixed q all ≡ prefixed (q ++ take n s) (tails n all) =
        ap (prefixed q) split ∙ prefixed-append q (take n s) (tails n all) in
      let level : length q + n ≡ length (q ++ take n s) =
        omega (arith, length-append q (take n s), length-take n s le) in
      step_extension keccak256 rlp_encode (patricialize keccak256 rlp_encode depth) q s v s' v' ss h
      ∙ ap (extension_of (take n s)) (ap₂ (patricialize keccak256 rlp_encode depth) same level)

  -- The branch of a dict of which two keys share no digit.
  abbrev branch_of : Bytes → Result (List Extended) → Result (Option InternalNode)
  branch_of value r = r >>= λ subnodes. ok (some (branch subnodes (bytes value)))

  node-branch :
      (depth longest : ℕ) (q s v s' v' : Bytes) (ss : ByteDict Bytes)
      → ltb 0 (shared s ((s, v) ∷ (s', v') ∷ ss)) ≡ false
      → All (IsEntry longest) ((s, v) ∷ (s', v') ∷ ss)
      → node_at (suc depth) q ((s, v) ∷ (s', v') ∷ ss)
        ≡ branch_of (branch_value (length q) (prefixed q ((s, v) ∷ (s', v') ∷ ss)) []) (
            subnodes_of keccak256 rlp_encode
              (patricialize keccak256 rlp_encode depth)
              (length q)
              (prefixed q ((s, v) ∷ (s', v') ∷ ss))
              sixteen)
  unfolding patricialize
  node-branch depth longest q s v s' v' ss h entries =
      step_branch keccak256 rlp_encode (patricialize keccak256 rlp_encode depth) longest q s v s' v'
        ss h entries

  pub two_extensions :
      (depth : ℕ) (q s v t w s' v' t' w' : Bytes) (ss ss' : ByteDict Bytes)
      → let all : ByteDict Bytes = (s, v) ∷ (t, w) ∷ ss in
        let all' : ByteDict Bytes = (s', v') ∷ (t', w') ∷ ss' in
        let p = take (shared s all) s in
        ltb 0 (shared s all) ≡ true
        → ltb 0 (shared s' all') ≡ true
        → p ≡ take (shared s' all') s'
        → node_at depth (q ++ p) (tails (shared s all) all)
          ≡ node_at depth (q ++ p) (tails (shared s' all') all')
        → node_at (suc depth) q all ≡ node_at (suc depth) q all'
  two_extensions depth q s v t w s' v' t' w' ss ss' h h' start inner =
      let all' : ByteDict Bytes = (s', v') ∷ (t', w') ∷ ss' in
      let rest = tails (shared s' all') all' in
      node-extension depth q s v t w ss h
      ∙ ap (extension_of (take (shared s ((s, v) ∷ (t, w) ∷ ss)) s)) inner
      ∙ ap (λ p. extension_of p (node_at depth (q ++ p) rest)) start
      ∙ sym (node-extension depth q s' v' t' w' ss' h')

  pub two_branches :
      (depth longest : ℕ) (q s v t w s' v' t' w' : Bytes) (ss ss' : ByteDict Bytes)
      → let all : ByteDict Bytes = (s, v) ∷ (t, w) ∷ ss in
        let all' : ByteDict Bytes = (s', v') ∷ (t', w') ∷ ss' in
        ltb 0 (shared s all) ≡ false
        → ltb 0 (shared s' all') ≡ false
        → IsUnique all
        → IsUnique all'
        → All (IsEntry longest) all
        → All (IsEntry longest) all'
        → lookup [] all ≡ lookup [] all'
        → ((k : ℕ)
            → node_at depth (q ++ k ∷ []) (behind_digit k all)
              ≡ node_at depth (q ++ k ∷ []) (behind_digit k all'))
        → node_at (suc depth) q all ≡ node_at (suc depth) q all'
  two_branches depth longest q s v t w s' v' t' w' ss ss' h h' u u' e e' here below =
      let all : ByteDict Bytes = (s, v) ∷ (t, w) ∷ ss in
      let all' : ByteDict Bytes = (s', v') ∷ (t', w') ∷ ss' in
      let value = present-injective _ _ (
        present-branch_value longest q all u e
        ∙ here
        ∙ sym (present-branch_value longest q all' u' e')) in
      node-branch depth longest q s v t w ss h e
      ∙ ap₂ branch_of value
          (subnodes_same (patricialize keccak256 rlp_encode depth) q all all' below sixteen)
      ∙ sym (node-branch depth longest q s' v' t' w' ss' h' e')
