-- ===== src/Trie/Branches.antt =====
-- The sixteen branches of a node (src/ethereum_test_types/trie.py).
use execution_spec_tests_gno.Base.{
  ℕ, suc, ◌≡◌, refl, sym, ap, ap₂, ◌∙◌, true, false, Option, none, some, [], ◌∷◌, ◌++◌, ◌==◌,
  ==_iff, lt→ltb, Option-cases, if◌then◌else◌, length, All, arith, Bool-cases, inl, inr, get_elem?,
  length-append, ok,
}
use execution_spec_tests_gno.Base.Bytes.{Bytes, bytes_eq}
use execution_spec_tests_gno.Base.ByteDict.{ByteDict, lookup, contains, is_some, IsUnique}
use execution_spec_tests_gno.Trie.{put_branch, branch_at, branch_value, check_digits}
use execution_spec_tests_gno.Trie.Radix.{prefixed, IsEntry, present}
use execution_spec_tests_gno.Trie.Prefixes.{get_elem?-append}
use mathlib.Core.List.{append_assoc}

-- What stands behind a digit, in the keys that start with it.
abbrev pub behind_digit : ℕ → ByteDict Bytes → ByteDict Bytes
behind_digit k [] = []
behind_digit k (([], v) ∷ ss) = behind_digit k ss
behind_digit k ((d ∷ s, v) ∷ ss) =
    let rest = behind_digit k ss in if d == k then (s, v) ∷ rest else rest

put_branch-prefixed :
    (q : Bytes) (k : ℕ) (s v : Bytes) (ss : ByteDict Bytes)
    → put_branch k (q ++ s, v) (get_elem? s 0) (prefixed (q ++ k ∷ []) (behind_digit k ss))
      ≡ prefixed (q ++ k ∷ []) (behind_digit k ((s, v) ∷ ss))
put_branch-prefixed q k [] v ss = refl
put_branch-prefixed q k (d ∷ s) v ss = elim (Bool-cases (d == k)) [
  | inl h ↦ rw (h, (==_iff d k).0 h, append_assoc q (k ∷ []) s) refl
  | inr h ↦ rw h refl
]

pub branch_at-prefixed :
    (q : Bytes) (k : ℕ) (ss : ByteDict Bytes)
    → branch_at (length q) k (prefixed q ss) ≡ prefixed (q ++ k ∷ []) (behind_digit k ss)
unfolding branch_at
branch_at-prefixed q k [] = refl
branch_at-prefixed q k ((s, v) ∷ ss) =
    ap₂ (put_branch k (q ++ s, v)) (get_elem?-append q s) (branch_at-prefixed q k ss)
    ∙ put_branch-prefixed q k s v ss

pub lookup-behind_digit :
    (k : ℕ) (r : Bytes) (ss : ByteDict Bytes) → lookup (k ∷ r) ss ≡ lookup r (behind_digit k ss)
lookup-behind_digit k r [] = refl
lookup-behind_digit k r (([], v) ∷ ss) = lookup-behind_digit k r ss
lookup-behind_digit k r ((d ∷ s, v) ∷ ss) = ground (arith, lookup-behind_digit k r ss)

pub behind_digit-IsUnique :
    (k : ℕ) (ss : ByteDict Bytes) → IsUnique ss → IsUnique (behind_digit k ss)
behind_digit-IsUnique k [] u = tt
behind_digit-IsUnique k (([], v) ∷ ss) u = behind_digit-IsUnique k ss u.1
behind_digit-IsUnique k ((d ∷ s, v) ∷ ss) u = elim (Bool-cases (d == k)) [
  | inl h ↦
      let here =
        ap is_some (sym (lookup-behind_digit k s ss))
        ∙ ap (λ x. contains (x ∷ s) ss) (sym ((==_iff d k).0 h))
        ∙ u.0 in
      rw h (here, behind_digit-IsUnique k ss u.1)
  | inr h ↦ rw h (behind_digit-IsUnique k ss u.1)
]

pub behind_digit-IsEntry :
    (longest k : ℕ) (ss : ByteDict Bytes)
    → All (IsEntry (suc longest)) ss
    → All (IsEntry longest) (behind_digit k ss)
behind_digit-IsEntry longest k [] entries = tt
behind_digit-IsEntry longest k (([], v) ∷ ss) entries = behind_digit-IsEntry longest k ss entries.1
behind_digit-IsEntry longest k ((d ∷ s, v) ∷ ss) (e, entries) = elim (Bool-cases (d == k)) [
  | inl h ↦
      let shorter : IsEntry longest (s, v) = record {
        nibbles = e.nibbles.1;
        has_value = e.has_value;
        short = omega (arith, e.short);
      } in
      rw h (shorter, behind_digit-IsEntry longest k ss entries)
  | inr h ↦ rw h (behind_digit-IsEntry longest k ss entries)
]

-- The value at a node is that of the key that ends there.
abbrev later : Option Bytes → Bytes → Bytes
later none value = value
later (some v) value = v

later-none : (ss : ByteDict Bytes) (v : Bytes) → contains [] ss ≡ false → later (lookup [] ss) v ≡ v
later-none ss v h = elim (Option-cases (lookup [] ss)) [
  | inl e ↦ rw e refl
  | inr (w, e) ↦ cc (rw e at h)
]

ends_here : (q : Bytes) → (length (q ++ []) == length q) ≡ true
ends_here q = ground (arith, length-append q [])

goes_on : (q s : Bytes) (d : ℕ) → (length (q ++ d ∷ s) == length q) ≡ false
goes_on q s d = ground (arith, length-append q (d ∷ s))

branch_value-later :
    (q : Bytes) (ss : ByteDict Bytes) (value : Bytes)
    → IsUnique ss
    → branch_value (length q) (prefixed q ss) value ≡ later (lookup [] ss) value
unfolding branch_value
branch_value-later q [] value u = refl
branch_value-later q (([], v) ∷ ss) value u =
    ap (λ b. branch_value (length q) (prefixed q ss) (if b then v else value)) (ends_here q)
    ∙ branch_value-later q ss v u.1
    ∙ later-none ss v u.0
branch_value-later q ((d ∷ s, v) ∷ ss) value u =
    ap (λ b. branch_value (length q) (prefixed q ss) (if b then v else value)) (goes_on q s d)
    ∙ branch_value-later q ss value u.1

present-later :
    (longest : ℕ) (k : Bytes) (ss : ByteDict Bytes)
    → All (IsEntry longest) ss
    → present (later (lookup k ss) []) ≡ lookup k ss
present-later longest k [] entries = refl
present-later longest k ((s, v) ∷ ss) (e, entries) = elim (Bool-cases (bytes_eq s k)) [
  | inl h ↦ rw h e.has_value
  | inr h ↦ rw h (present-later longest k ss entries)
]

pub present-branch_value :
    (longest : ℕ) (q : Bytes) (ss : ByteDict Bytes)
    → IsUnique ss
    → All (IsEntry longest) ss
    → present (branch_value (length q) (prefixed q ss) []) ≡ lookup [] ss
present-branch_value longest q ss u entries =
    ap present (branch_value-later q ss [] u) ∙ present-later longest [] ss entries

pub check_digits-prefixed :
    (longest : ℕ) (q : Bytes) (ss : ByteDict Bytes)
    → All (IsEntry longest) ss
    → check_digits (length q) (prefixed q ss) ≡ ok tt
unfolding check_digits
check_digits-prefixed longest q [] entries = refl
check_digits-prefixed longest q (([], v) ∷ ss) (e, entries) =
    rw (ends_here q) (check_digits-prefixed longest q ss entries)
check_digits-prefixed longest q ((d ∷ s, v) ∷ ss) (e, entries) =
    rw (goes_on q s d, get_elem?-append q (d ∷ s), lt→ltb d 16 e.nibbles.0)
      (check_digits-prefixed longest q ss entries)
