-- ===== src/Fork/Transition/Order.antt =====
-- The order of forks (src/ethereum_test_forks/base_fork.py).
use execution_spec_tests_gno.Base.{
  ℕ, suc, ◌<◌, Bool, true, false, none, some, [], ◌∷◌, ◌||◌, ◌&&◌, ◌≡◌, refl, sym, ap, ap₂, ◌==◌,
  ◌∙◌, subst, ◌↔◌, ◌⊎◌, inl, inr, arith, length, Bool-cases,
}
use execution_spec_tests_gno.Fork.Classes.{Fork, place, mro, is_same, is_subclass}
use execution_spec_tests_gno.Fork.Classes.Descent.{
  Descends, itself, child, is_subclass_iff, is_same_iff, mro-eq,
}
use execution_spec_tests_gno.Fork.Transition.{
  Transition, AnyFork, plain, transition, is_class, is_subclass_of, gt, ge, lt, le,
}

Descends-trans : {c b a : Fork} → Descends c b → Descends b a → Descends c a
Descends-trans d itself = d
Descends-trans d (child hp e) = child hp (Descends-trans d e)

-- A class that descends from another one is that one, or has more bases.
Descends-length : {b a : Fork} → Descends b a → (a ≡ b) ⊎ (length (mro b) < length (mro a))
Descends-length itself = inl refl
Descends-length {b} {a} (child {p = p} hp d) =
    let longer : length (mro a) ≡ suc (length (mro p)) =
      ap length (mro-eq a) ∙ ap (λ o. length (a ∷ (elim o [ none ↦ [] | some q ↦ mro q ]))) hp in
    inr (elim (Descends-length d) [
      | inl same ↦ subst (λ q. length (mro q) < length (mro a)) same (omega arith)
      | inr less ↦ omega arith
    ])

Descends-antisym : {a b : Fork} → Descends b a → Descends a b → a ≡ b
Descends-antisym d e = elim (Descends-length d) [
  | inl same ↦ same
  | inr less ↦ elim (Descends-length e) [ inl same ↦ sym same | inr more ↦ ground arith ]
]

||-cases : (x y : Bool) → (x || y) ≡ true → (x ≡ true) ⊎ (y ≡ true)
||-cases true y h = inl refl
||-cases false y h = inr h

-- Of two classes of forks.py, `a >= b` holds exactly where a is b or descends from it.
ge-plain : (a b : Fork) → (ge (plain a) (plain b) ≡ true) ↔ Descends b a
unfolding ge is_subclass_of
ge-plain a b = (
  λ h. elim (||-cases (is_same a b) (is_subclass a b) h) [
    | inl same ↦ subst (λ c. Descends c a) ((is_same_iff a b).0 same) itself
    | inr below ↦ (is_subclass_iff a b).0 below
  ],
  λ d. elim (Bool-cases (is_same a b)) [
    | inl same ↦ cc
    | inr differs ↦ let below = (is_subclass_iff a b).1 d in cc
  ],
)

-- Two classes of forks.py, each of them at or above the other, are the same class.
ge_antisym : (a b : Fork) → ge (plain a) (plain b) ≡ true → ge (plain b) (plain a) ≡ true → a ≡ b
ge_antisym a b h h' = Descends-antisym ((ge-plain a b).0 h) ((ge-plain b a).0 h')

-- For classes a, b and c of forks.py, `a >= b` and `b >= c` give `a >= c`.
pub ge_trans :
    (a b c : Fork)
    → ge (plain a) (plain b) ≡ true
    → ge (plain b) (plain c) ≡ true
    → ge (plain a) (plain c) ≡ true
ge_trans a b c h h' = (ge-plain a c).1 (Descends-trans ((ge-plain b c).0 h') ((ge-plain a b).0 h))

==_sym : (m n : ℕ) → (m == n) ≡ (n == m)
==_sym m n = ground arith

is_same_sym : (a b : Fork) → is_same a b ≡ is_same b a
is_same_sym a b = ==_sym (place a) (place b)

pub is_class_sym : (a b : AnyFork) → is_class a b ≡ is_class b a
is_class_sym (plain f) (plain g) = is_same_sym f g
is_class_sym (plain f) (transition u) = refl
is_class_sym (transition t) (plain g) = refl
is_class_sym (transition t) (transition u) =
    let froms = is_same_sym t.from_fork u.from_fork in
    let tos = is_same_sym t.to_fork u.to_fork in
    ap₂ ◌&&◌ (ap₂ ◌&&◌ (ap₂ ◌&&◌ froms tos) (==_sym t.at_block u.at_block))
      (==_sym t.at_timestamp u.at_timestamp)

-- For all forks, the transition forks included, `a <= b` is `b >= a`, and `a < b` is `b > a`.
pub le-converse : (a b : AnyFork) → (le a b ≡ ge b a) × (lt a b ≡ gt b a)
unfolding le ge lt gt is_subclass_of
le-converse a b = let same = is_class_sym a b in (cc, cc)

-- A transition fork is both above and below the fork that it transitions to.
transition-to_fork :
    (t : Transition)
    → (gt (transition t) (plain t.to_fork) ≡ true) × (lt (transition t) (plain t.to_fork) ≡ true)
unfolding gt lt is_subclass_of
transition-to_fork t = let own = (is_subclass_iff t.to_fork t.to_fork).1 itself in (own, own)
