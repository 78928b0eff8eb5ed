-- ===== src/Trie/Order/Same.antt =====
-- Dicts with the same entries have the same node (src/ethereum_test_types/trie.py).
use execution_spec_tests_gno.Base.{
  ℕ, zero, suc, ◌<◌, ◌≡◌, refl, sym, ap, ap₂, ◌∙◌, subst, true, false, Option, [], ◌∷◌, ◌++◌, ltb,
  ltb→lt, All, arith, Bool-cases, inl, inr, ok,
}
use execution_spec_tests_gno.Base.Bytes.{Bytes}
use execution_spec_tests_gno.Base.ByteDict.{ByteDict, lookup, IsUnique}
use execution_spec_tests_gno.Trie.{Extended, InternalNode, take, patricialize}
use execution_spec_tests_gno.Trie.Radix.{prefixed, behind, IsEntry, commit}
use execution_spec_tests_gno.Trie.Steps.{shared}
use execution_spec_tests_gno.Trie.Prefixes.{
  prefixed-nil, prefix_loop-prefix, lookup-prefixed, prefixed-IsUnique, strip-append, tails,
  tails-IsEntry,
}
use execution_spec_tests_gno.Trie.Branches.{
  behind_digit, lookup-behind_digit, behind_digit-IsUnique, behind_digit-IsEntry,
}
use execution_spec_tests_gno.Trie.Patricialize.{no_two_empty, patricialize-commits}
use execution_spec_tests_gno.Trie.Order.{
  SameEntries, shared-same, prefix-same, no_entries, one_entry, same_one,
}
use execution_spec_tests_gno.Trie.Order.Nodes.{node_at, two_extensions, two_branches}

tails-Same :
    (p : Bytes) (ss ss' rest rest' : ByteDict Bytes)
    → ss ≡ prefixed p rest
    → ss' ≡ prefixed p rest'
    → SameEntries ss ss'
    → SameEntries rest rest'
tails-Same p ss ss' rest rest' e e' same k =
    let back = λ (d : ByteDict Bytes).
      lookup-prefixed p (p ++ k) d ∙ ap (λ o. behind o (λ r. lookup r d)) (strip-append p k) in
    sym (back rest)
    ∙ ap (lookup (p ++ k)) (sym e)
    ∙ same (p ++ k)
    ∙ ap (lookup (p ++ k)) e'
    ∙ back rest'

behind_digit-Same :
    (k : ℕ) (ss ss' : ByteDict Bytes)
    → SameEntries ss ss'
    → SameEntries (behind_digit k ss) (behind_digit k ss')
behind_digit-Same k ss ss' same r =
    sym (lookup-behind_digit k r ss) ∙ same (k ∷ r) ∙ lookup-behind_digit k r ss'

module _ (keccak256 : Bytes → Bytes) (rlp_encode : Extended → Bytes) where
  -- Two dicts of at least two entries each, which are the same, where this holds of shorter keys.
  many_same :
      (depth longest : ℕ) (q s v t w s' v' t' w' : Bytes) (ss ss' : ByteDict Bytes)
      → let all : ByteDict Bytes = (s, v) ∷ (t, w) ∷ ss in
        let all' : ByteDict Bytes = (s', v') ∷ (t', w') ∷ ss' in
        IsUnique all
        → IsUnique all'
        → All (IsEntry (suc longest)) all
        → All (IsEntry (suc longest)) all'
        → SameEntries all all'
        → ((q : Bytes) (d d' : ByteDict Bytes)
            → IsUnique d
            → IsUnique d'
            → All (IsEntry longest) d
            → All (IsEntry longest) d'
            → SameEntries d d'
            → node_at keccak256 rlp_encode depth q d ≡ node_at keccak256 rlp_encode depth q d')
        → node_at keccak256 rlp_encode (suc depth) q all
          ≡ node_at keccak256 rlp_encode (suc depth) q all'
  many_same depth longest q s v t w s' v' t' w' ss ss' u u' e e' same ih =
      let all : ByteDict Bytes = (s, v) ∷ (t, w) ∷ ss in
      let all' : ByteDict Bytes = (s', v') ∷ (t', w') ∷ ss' in
      let n = shared s all in
      let n' = shared s' all' in
      let equal : n ≡ n' = shared-same s v s' v' ((t, w) ∷ ss) ((t', w') ∷ ss') same in
      let start = prefix-same s v s' v' ((t, w) ∷ ss) ((t', w') ∷ ss') same in
      let (le, split) = prefix_loop-prefix s v ((t, w) ∷ ss) in
      let (le', split') = prefix_loop-prefix s' v' ((t', w') ∷ ss') in
      elim (Bool-cases (ltb 0 n)) [
        | inl h ↦
            let h' : ltb 0 n' ≡ true = ap (ltb 0) (sym equal) ∙ h in
            two_extensions keccak256 rlp_encode depth q s v t w s' v' t' w' ss ss' h h' start (
              ih (q ++ take n s) (tails n all) (tails n' all')
                (prefixed-IsUnique (take n s) (tails n all) (subst IsUnique split u))
                (prefixed-IsUnique (take n' s') (tails n' all') (subst IsUnique split' u'))
                (tails-IsEntry longest n all (ltb→lt 0 n h) e)
                (tails-IsEntry longest n' all' (ltb→lt 0 n' h') e')
                (tails-Same (take n s) all all' (tails n all) (tails n' all') split
                  (split' ∙ ap (λ p. prefixed p (tails n' all')) (sym start)) same))
        | inr h ↦
            let h' : ltb 0 n' ≡ false = ap (ltb 0) (sym equal) ∙ h in
            two_branches keccak256 rlp_encode depth (suc longest) q s v t w s' v' t' w' ss ss' h h'
              u u' e e' (same [])
              (λ k.
                ih (q ++ k ∷ []) (behind_digit k all) (behind_digit k all')
                  (behind_digit-IsUnique k all u) (behind_digit-IsUnique k all' u')
                  (behind_digit-IsEntry longest k all e) (behind_digit-IsEntry longest k all' e')
                  (behind_digit-Same k all all' same))
      ]

  nodes_same :
      (depth longest : ℕ) (q : Bytes) (ss ss' : ByteDict Bytes)
      → IsUnique ss
      → IsUnique ss'
      → All (IsEntry longest) ss
      → All (IsEntry longest) ss'
      → longest < depth
      → SameEntries ss ss'
      → node_at keccak256 rlp_encode depth q ss ≡ node_at keccak256 rlp_encode depth q ss'
  nodes_same zero longest q ss ss' u u' e e' enough same = absurd (omega arith)
  nodes_same (suc depth) longest q [] [] u u' e e' enough same = refl
  nodes_same (suc depth) longest q [] ((s, v) ∷ ss') u u' e e' enough same =
      absurd (no_entries s v ss' same)
  nodes_same (suc depth) longest q ((s, v) ∷ ss) [] u u' e e' enough same =
      absurd (no_entries s v ss (λ k. sym (same k)))
  nodes_same (suc depth) longest q ((s, v) ∷ []) ((s', v') ∷ []) u u' e e' enough same =
      let (key, value) = same_one s v s' v' same in
      ap₂ (λ k w. node_at keccak256 rlp_encode (suc depth) q ((k, w) ∷ [])) key value
  nodes_same (suc depth) longest q ((s, v) ∷ []) ((s', v') ∷ (s'', v'') ∷ ss') u u' e e' enough
        same =
      absurd (one_entry s v s' v' s'' v'' ss' u' same)
  nodes_same (suc depth) longest q ((s', v') ∷ (s'', v'') ∷ ss) ((s, v) ∷ []) u u' e e' enough
        same =
      absurd (one_entry s v s' v' s'' v'' ss u (λ k. sym (same k)))
  nodes_same (suc depth) zero q ((s, v) ∷ (t, w) ∷ ss) ((s', v') ∷ (t', w') ∷ ss') u u' (e, (f, es))
        e' enough same =
      absurd (no_two_empty s v t w ss u e.short f.short)
  nodes_same (suc depth) (suc longest) q ((s, v) ∷ (t, w) ∷ ss) ((s', v') ∷ (t', w') ∷ ss') u u' e
        e' enough same =
      many_same depth longest q s v t w s' v' t' w' ss ss' u u' e e' same
        (λ p d d' x x' y y' z. nodes_same depth longest p d d' x x' y y' (omega arith) z)

  -- For two dicts of distinct keys of nibbles and of values that are not empty, with the same entries in any
  -- order, and a depth of recursion that is enough: `patricialize` returns a node for both, and it is the same.
  pub patricialize-same :
      (depth longest : ℕ) (obj obj' : ByteDict Bytes)
      → IsUnique obj
      → IsUnique obj'
      → All (IsEntry longest) obj
      → All (IsEntry longest) obj'
      → longest < depth
      → SameEntries obj obj'
      → (node : Option InternalNode) × (patricialize keccak256 rlp_encode depth obj 0 ≡ ok node)
        × (patricialize keccak256 rlp_encode depth obj' 0 ≡ ok node)
  patricialize-same depth longest obj obj' u u' e e' enough same =
      let (t, commits, finds) =
        patricialize-commits keccak256 rlp_encode depth longest obj u e enough in
      let call = λ (d : ByteDict Bytes). patricialize keccak256 rlp_encode depth d 0 in
      let equal =
        ap call (sym (prefixed-nil obj))
        ∙ nodes_same depth longest [] obj obj' u u' e e' enough same
        ∙ ap call (prefixed-nil obj') in
      (commit keccak256 rlp_encode t, commits, sym equal ∙ commits)
