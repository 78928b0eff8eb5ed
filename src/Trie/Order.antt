-- ===== src/Trie/Order.antt =====
-- The node of a dict does not depend on the order of its entries (src/ethereum_test_types/trie.py).
pub mod Nodes
pub mod Same
use execution_spec_tests_gno.Base.{
  ℕ, zero, suc, ◌≤◌, ◌<◌, ◌≡◌, refl, sym, ap, ◌∙◌, subst, Bool, true, false, none, some, [], ◌∷◌,
  ◌==◌, ==_iff, if◌then◌else◌, min, length, All, All-map, arith, Bool-cases, inl, inr,
}
use execution_spec_tests_gno.Base.Bytes.{Bytes, bytes_eq, bytes_eq-true, bytes_eq_refl}
use execution_spec_tests_gno.Base.ByteDict.{ByteDict, lookup, contains, is_some, IsUnique}
use execution_spec_tests_gno.Trie.{common_prefix_length, take, prefix_loop}
use execution_spec_tests_gno.Trie.Prefixes.{SharedBy, prefix_loop-SharedBy, common_prefix_length-le}
use execution_spec_tests_gno.Trie.Steps.{shared}

-- The same keys with the same values, in any order.
abbrev pub SameEntries : {V : Type 0} → ByteDict V → ByteDict V → Type 0
SameEntries ss ss' = (k : Bytes) → lookup k ss ≡ lookup k ss'

abbrev pub Keys : {V : Type 0} → (Bytes → Type 0) → ByteDict V → Type 0
Keys P ss = All (λ e. P e.0) ss

pub key-of_contained :
    {V : Type 0} (P : Bytes → Type 0) (k : Bytes) (ss : ByteDict V)
    → Keys P ss
    → contains k ss ≡ true
    → P k
key-of_contained P k [] all h = cc
key-of_contained P k ((s, v) ∷ ss) (here, all) h = elim (Bool-cases (bytes_eq s k)) [
  | inl same ↦ subst P (bytes_eq-true s k same) here
  | inr other ↦ key-of_contained P k ss all (rw other at h)
]

pub contains_first :
    {V : Type 0} (k : Bytes) (v : V) (ss : ByteDict V) → contains k ((k, v) ∷ ss) ≡ true
contains_first k v ss = rw (bytes_eq_refl k) refl

pub contains_later :
    {V : Type 0} (k s : Bytes) (v : V) (ss : ByteDict V)
    → contains k ss ≡ true
    → contains k ((s, v) ∷ ss) ≡ true
contains_later k s v ss h = elim (Bool-cases (bytes_eq s k)) [
  | inl same ↦ rw same refl
  | inr other ↦ rw other h
]

Keys-covered :
    {V : Type 0} (P : Bytes → Type 0) (ss ss' : ByteDict V)
    → ((k : Bytes) → contains k ss' ≡ true → contains k ss ≡ true)
    → Keys P ss
    → Keys P ss'
Keys-covered P ss [] covers all = tt
Keys-covered P ss ((k, v) ∷ ss') covers all = (
  key-of_contained P k ss all (covers k (contains_first k v ss')),
  Keys-covered P ss ss' (λ j h. covers j (contains_later j k v ss' h)) all,
)

pub Keys-of_same :
    {V : Type 0} (P : Bytes → Type 0) (ss ss' : ByteDict V)
    → SameEntries ss ss'
    → Keys P ss
    → Keys P ss'
Keys-of_same P ss ss' same all = Keys-covered P ss ss' (λ k h. ap is_some (same k) ∙ h) all

-- Two keys share what each shares with a third.
shares_both :
    (m : ℕ) (a b c : Bytes)
    → m ≤ common_prefix_length a b
    → m ≤ common_prefix_length a c
    → m ≤ common_prefix_length b c
unfolding common_prefix_length
shares_both zero a b c h h' = omega arith
shares_both (suc m) [] b c h h' = absurd (omega arith)
shares_both (suc m) (x ∷ a) [] c h h' = absurd (omega arith)
shares_both (suc m) (x ∷ a) (y ∷ b) [] h h' = absurd (omega arith)
shares_both (suc m) (x ∷ a) (y ∷ b) (z ∷ c) h h' = ground (arith, shares_both m a b c)

take_shared : (m : ℕ) (a b : Bytes) → m ≤ common_prefix_length a b → take m a ≡ take m b
unfolding common_prefix_length
take_shared zero a b h = refl
take_shared (suc m) [] b h = absurd (omega arith)
take_shared (suc m) (x ∷ a) [] h = absurd (omega arith)
take_shared (suc m) (x ∷ a) (y ∷ b) h = elim (Bool-cases (x == y)) [
  | inl same ↦ let rest = take_shared m a b (ground arith) in let first = (==_iff x y).0 same in cc
  | inr other ↦ absurd (ground arith)
]

-- The loop finds no less than what all keys share.
prefix_loop-ge :
    (a : Bytes) (ss : ByteDict Bytes) (n r : ℕ) → SharedBy a ss r → r ≤ n → r ≤ prefix_loop a 0 ss n
unfolding prefix_loop
prefix_loop-ge a [] n r h le = le
prefix_loop-ge a ((s, v) ∷ ss) n r (here, h) le =
    let shorter = min n (common_prefix_length a s) in
    let rest = prefix_loop-ge a ss shorter r h (omega arith) in
    elim (Bool-cases (shorter == 0)) [ inl stop ↦ rw stop (ground arith) | inr more ↦ rw more rest ]

contained_first :
    (s v : Bytes) (ss ss' : ByteDict Bytes) → SameEntries ((s, v) ∷ ss) ss' → contains s ss' ≡ true
contained_first s v ss ss' same = sym (ap is_some (same s)) ∙ contains_first s v ss

-- What all keys share does not depend on which of them is the first.
shared_le :
    (s v s' v' : Bytes) (ss ss' : ByteDict Bytes)
    → SameEntries ((s, v) ∷ ss) ((s', v') ∷ ss')
    → shared s ((s, v) ∷ ss) ≤ shared s' ((s', v') ∷ ss')
shared_le s v s' v' ss ss' same =
    let n = shared s ((s, v) ∷ ss) in
    let (le, all) = prefix_loop-SharedBy s ((s, v) ∷ ss) (length s) in
    let P : Bytes → Type 0 = λ k. n ≤ common_prefix_length s k in
    let all' = Keys-of_same P ((s, v) ∷ ss) ((s', v') ∷ ss') same all in
    let both : Keys (λ k. n ≤ common_prefix_length s' k) ((s', v') ∷ ss') =
      All-map _ _ (λ e h. shares_both n s s' e.0 all'.0 h) ((s', v') ∷ ss') all' in
    let whole = common_prefix_length-le s' s' in
    prefix_loop-ge s' ((s', v') ∷ ss') (length s') n both (omega (arith, both.0, whole))

pub shared-same :
    (s v s' v' : Bytes) (ss ss' : ByteDict Bytes)
    → SameEntries ((s, v) ∷ ss) ((s', v') ∷ ss')
    → shared s ((s, v) ∷ ss) ≡ shared s' ((s', v') ∷ ss')
shared-same s v s' v' ss ss' same =
    let up = shared_le s v s' v' ss ss' same in
    let down = shared_le s' v' s v ss' ss (λ k. sym (same k)) in omega arith

pub prefix-same :
    (s v s' v' : Bytes) (ss ss' : ByteDict Bytes)
    → SameEntries ((s, v) ∷ ss) ((s', v') ∷ ss')
    → take (shared s ((s, v) ∷ ss)) s ≡ take (shared s' ((s', v') ∷ ss')) s'
prefix-same s v s' v' ss ss' same =
    let n = shared s ((s, v) ∷ ss) in
    let (le, all) = prefix_loop-SharedBy s ((s, v) ∷ ss) (length s) in
    let P : Bytes → Type 0 = λ k. n ≤ common_prefix_length s k in
    let all' = Keys-of_same P ((s, v) ∷ ss) ((s', v') ∷ ss') same all in
    take_shared n s s' all'.0 ∙ ap (λ m. take m s') (shared-same s v s' v' ss ss' same)

pub no_entries : (s v : Bytes) (ss : ByteDict Bytes) → SameEntries [] ((s, v) ∷ ss) → ⊥
no_entries s v ss same = cc (ap is_some (same s) ∙ contains_first s v ss)

contains-one : (s v k : Bytes) → contains k ((s, v) ∷ []) ≡ true → s ≡ k
contains-one s v k h = elim (Bool-cases (bytes_eq s k)) [
  | inl same ↦ bytes_eq-true s k same
  | inr other ↦ cc (rw other at h)
]

-- One entry is not two.
pub one_entry :
    (s v s' v' s'' v'' : Bytes) (ss : ByteDict Bytes)
    → IsUnique ((s', v') ∷ (s'', v'') ∷ ss)
    → SameEntries ((s, v) ∷ []) ((s', v') ∷ (s'', v'') ∷ ss)
    → ⊥
one_entry s v s' v' s'' v'' ss u same =
    let two : ByteDict Bytes = (s', v') ∷ (s'', v'') ∷ ss in
    let first =
      contains-one s v s' (ap is_some (same s') ∙ contains_first s' v' ((s'', v'') ∷ ss)) in
    let second = contains-one s v s'' (
      ap is_some (same s'')
      ∙ contains_later s'' s' v' ((s'', v'') ∷ ss) (contains_first s'' v'' ss)) in
    let equal : s'' ≡ s' = sym second ∙ first in
    cc (sym (contains_first s'' v'' ss) ∙ ap (λ k. contains k ((s'', v'') ∷ ss)) equal ∙ u.0)

pub same_one : (s v s' v' : Bytes) → SameEntries ((s, v) ∷ []) ((s', v') ∷ []) → (s ≡ s') × (v ≡ v')
same_one s v s' v' same =
    let key = contains-one s v s' (ap is_some (same s') ∙ contains_first s' v' []) in
    let found : lookup s ((s, v) ∷ []) ≡ some v = rw (bytes_eq_refl s) refl in
    let found' : lookup s ((s', v') ∷ []) ≡ some v' = rw (sym key, bytes_eq_refl s) refl in
    (key, cc (sym found ∙ same s ∙ found'))
