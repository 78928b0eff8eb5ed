-- ===== src/Trie/Patricialize.antt =====
-- What `patricialize` builds (src/ethereum_test_types/trie.py).
use execution_spec_tests_gno.Base.{
  ℕ, zero, suc, ◌+◌, ◌≤◌, ◌<◌, ◌≡◌, refl, sym, ap, ap₂, ◌∙◌, subst, true, false, Option, some, [],
  ◌∷◌, ◌++◌, ltb, ltb→lt, length, All, arith, Bool-cases, inl, inr, length-append, Result, ok,
  ◌>>=◌,
}
use mathlib.Core.Path.{fun_ext}
use execution_spec_tests_gno.Base.Bytes.{Bytes}
use execution_spec_tests_gno.Base.ByteDict.{ByteDict, lookup, IsUnique}
use execution_spec_tests_gno.Trie.{
  Extended, bytes, InternalNode, leaf, extension, branch, take, branch_value, sixteen,
  encode_internal_node, patricialize_step, patricialize,
}
use execution_spec_tests_gno.Trie.Radix.{
  Tree, empty, tip, path, fork, find, behind, strip, prefixed, IsEntry, commit, present,
}
use execution_spec_tests_gno.Trie.Steps.{shared, step_extension, step_branch, subnodes_of-commit}
use execution_spec_tests_gno.Trie.Prefixes.{
  drop-append, length-take, prefixed-nil, prefixed-append, prefix_loop-prefix, lookup-prefixed,
  prefixed-IsUnique, tails, tails-IsEntry,
}
use execution_spec_tests_gno.Trie.Branches.{
  behind_digit, branch_at-prefixed, lookup-behind_digit, behind_digit-IsUnique,
  behind_digit-IsEntry, present-branch_value,
}

pub no_two_empty :
    (s v s' v' : Bytes) (ss : ByteDict Bytes)
    → IsUnique ((s, v) ∷ (s', v') ∷ ss)
    → length s ≤ 0
    → length s' ≤ 0
    → ⊥
no_two_empty [] v [] v' ss u h h' = cc (u.0)
no_two_empty [] v (x ∷ s') v' ss u h h' = absurd (omega arith)
no_two_empty (x ∷ s) v s' v' ss u h h' = absurd (omega arith)

find-fork :
    (subtrees : ℕ → Tree) (value : Bytes) (ss : ByteDict Bytes)
    → present value ≡ lookup [] ss
    → ((d : ℕ) (k : Bytes) → find (subtrees d) k ≡ lookup k (behind_digit d ss))
    → (k : Bytes) → find (fork subtrees value) k ≡ lookup k ss
unfolding find
find-fork subtrees value ss here below [] = here
find-fork subtrees value ss here below (d ∷ k) = below d k ∙ sym (lookup-behind_digit d k ss)

find-path :
    (q : Bytes) (t : Tree) (ss : ByteDict Bytes)
    → ((k : Bytes) → find t k ≡ lookup k ss)
    → (k : Bytes) → find (path q t) k ≡ lookup k (prefixed q ss)
unfolding find
find-path q t ss below k = ap (behind (strip q k)) (fun_ext below) ∙ sym (lookup-prefixed q k ss)

pub branch_level : (q : Bytes) (k : ℕ) → length q + 1 ≡ length (q ++ k ∷ [])
branch_level q k = omega (arith, length-append q (k ∷ []))

module _ (keccak256 : Bytes → Bytes) (rlp_encode : Extended → Bytes) where
  -- The tree of a dict, which the node commits to and which has the same entries.
  abbrev pub Builds : Result (Option InternalNode) → ByteDict Bytes → Type 0
  Builds result ss =
      (t : Tree) × (result ≡ ok (commit keccak256 rlp_encode t))
      × ((k : Bytes) → find t k ≡ lookup k ss)

  -- The subtrees at a branch, each built by its call.
  Builds-branch :
      (depth longest : ℕ) (q s v s' v' : Bytes) (ss : ByteDict Bytes)
      → IsUnique ((s, v) ∷ (s', v') ∷ ss)
      → All (IsEntry (suc longest)) ((s, v) ∷ (s', v') ∷ ss)
      → ltb 0 (shared s ((s, v) ∷ (s', v') ∷ ss)) ≡ false
      → ((k : ℕ)
          → Builds
              (patricialize keccak256 rlp_encode depth
                (prefixed (q ++ k ∷ []) (behind_digit k ((s, v) ∷ (s', v') ∷ ss)))
                (length (q ++ k ∷ [])))
              (behind_digit k ((s, v) ∷ (s', v') ∷ ss)))
      → Builds
          (patricialize keccak256 rlp_encode
            (suc depth)
            (prefixed q ((s, v) ∷ (s', v') ∷ ss))
            (length q))
          ((s, v) ∷ (s', v') ∷ ss)
  unfolding patricialize commit
  Builds-branch depth longest q s v s' v' ss u entries h each =
      let all : ByteDict Bytes = (s, v) ∷ (s', v') ∷ ss in
      let value = branch_value (length q) (prefixed q all) [] in
      let subtrees = λ (k : ℕ). (each k).0 in
      (
        fork subtrees value,
        step_branch keccak256 rlp_encode (patricialize keccak256 rlp_encode depth) (suc longest) q s
              v s' v' ss h entries
            ∙ ap (λ r. r >>= λ subnodes. ok (some (branch subnodes (bytes value))))
                (subnodes_of-commit keccak256 rlp_encode (patricialize keccak256 rlp_encode depth) q
                  all subtrees
                  (λ k.
                    ap₂ (patricialize keccak256 rlp_encode depth) (branch_at-prefixed q k all)
                      (branch_level q k)
                    ∙ (each k).1)
                  sixteen),
        find-fork subtrees value all (present-branch_value (suc longest) q all u entries)
            (λ k. (each k).2),
      )

  Builds-extension :
      (depth : ℕ) (q s v s' v' : Bytes) (ss rest : ByteDict Bytes)
      → ltb 0 (shared s ((s, v) ∷ (s', v') ∷ ss)) ≡ true
      → shared s ((s, v) ∷ (s', v') ∷ ss) ≤ length s
      → ((s, v) ∷ (s', v') ∷ ss) ≡ prefixed (take (shared s ((s, v) ∷ (s', v') ∷ ss)) s) rest
      → Builds
          (patricialize keccak256 rlp_encode depth
            (prefixed (q ++ take (shared s ((s, v) ∷ (s', v') ∷ ss)) s) rest)
            (length (q ++ take (shared s ((s, v) ∷ (s', v') ∷ ss)) s)))
          rest
      → Builds
          (patricialize keccak256 rlp_encode
            (suc depth)
            (prefixed q ((s, v) ∷ (s', v') ∷ ss))
            (length q))
          ((s, v) ∷ (s', v') ∷ ss)
  unfolding patricialize commit
  Builds-extension depth q s v s' v' ss rest h le split (t, commits, finds) =
      let all : ByteDict Bytes = (s, v) ∷ (s', v') ∷ ss in
      let n = shared s all in
      let same : prefixed q all ≡ prefixed (q ++ take n s) rest =
        ap (prefixed q) split ∙ prefixed-append q (take n s) rest in
      let level : length q + n ≡ length (q ++ take n s) =
        omega (arith, length-append q (take n s), length-take n s le) in
      (
        path (take n s) t,
        step_extension keccak256 rlp_encode (patricialize keccak256 rlp_encode depth) q s v s' v' ss
              h
            ∙ ap
                (λ r. r >>= λ node.
                  ok (some (extension (take n s) (encode_internal_node keccak256 rlp_encode node))))
                (ap₂ (patricialize keccak256 rlp_encode depth) same level ∙ commits),
        λ k. find-path (take n s) t rest finds k ∙ ap (lookup k) (sym split),
      )

  Builds-leaf :
      (depth : ℕ) (q s v : Bytes)
      → Builds
          (patricialize keccak256 rlp_encode (suc depth) (prefixed q ((s, v) ∷ [])) (length q))
          ((s, v) ∷ [])
  unfolding patricialize patricialize_step commit find
  Builds-leaf depth q s v =
      (tip s v, ap (λ r. ok (some (leaf r (bytes v)))) (drop-append q s), λ k. refl)

  Builds-empty :
      (depth : ℕ) (q : Bytes)
      → Builds (patricialize keccak256 rlp_encode (suc depth) [] (length q)) []
  unfolding patricialize patricialize_step commit find
  Builds-empty depth q = (empty, refl, λ k. refl)

  -- A dict of unique keys of nibbles becomes the node of a tree with the same entries.
  builds :
      (depth longest : ℕ) (q : Bytes) (ss : ByteDict Bytes)
      → IsUnique ss
      → All (IsEntry longest) ss
      → longest < depth
      → Builds (patricialize keccak256 rlp_encode depth (prefixed q ss) (length q)) ss
  builds zero longest q ss u entries enough = absurd (omega arith)
  builds (suc depth) longest q [] u entries enough = Builds-empty depth q
  builds (suc depth) longest q ((s, v) ∷ []) u entries enough = Builds-leaf depth q s v
  builds (suc depth) zero q ((s, v) ∷ (s', v') ∷ ss) u (e, (e', entries)) enough =
      absurd (no_two_empty s v s' v' ss u e.short e'.short)
  builds (suc depth) (suc longest) q ((s, v) ∷ (s', v') ∷ ss) u entries enough =
      let all : ByteDict Bytes = (s, v) ∷ (s', v') ∷ ss in
      let n = shared s all in
      let (le, split) = prefix_loop-prefix s v ((s', v') ∷ ss) in
      elim (Bool-cases (ltb 0 n)) [
        | inl h ↦ Builds-extension depth q s v s' v' ss (tails n all) h le split (
            builds depth longest (q ++ take n s) (tails n all)
              (prefixed-IsUnique (take n s) (tails n all) (subst IsUnique split u))
              (tails-IsEntry longest n all (ltb→lt 0 n h) entries) (omega arith))
        | inr h ↦ Builds-branch depth longest q s v s' v' ss u entries h (λ k.
            builds depth longest (q ++ k ∷ []) (behind_digit k all) (behind_digit-IsUnique k all u)
              (behind_digit-IsEntry longest k all entries) (omega arith))
      ]

  -- A dict of distinct keys of nibbles, none longer than `longest`, and of values that are not empty, with a
  -- greater depth of recursion: `patricialize` returns the node of a radix tree, and the tree has
  -- at every key what the dict has.
  pub patricialize-commits :
      (depth longest : ℕ) (obj : ByteDict Bytes)
      → IsUnique obj
      → All (IsEntry longest) obj
      → longest < depth
      → (t : Tree) × (patricialize keccak256 rlp_encode depth obj 0
          ≡ ok (commit keccak256 rlp_encode t))
        × ((k : Bytes) → find t k ≡ lookup k obj)
  patricialize-commits depth longest obj u entries enough =
      let (t, commits, finds) = builds depth longest [] obj u entries enough in
      (
        t,
        ap (λ d. patricialize keccak256 rlp_encode depth d 0) (sym (prefixed-nil obj)) ∙ commits,
        finds,
      )
