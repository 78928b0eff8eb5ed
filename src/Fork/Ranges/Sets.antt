-- ===== src/Fork/Ranges/Sets.antt =====
-- The sets of forks (src/ethereum_test_forks/helpers.py).
use execution_spec_tests_gno.Base.{
  Bool, true, false, List, [], ◌∷◌, ◌==◌, ◌&&◌, ◌||◌, any, if◌then◌else◌, ◌≡◌, refl, sym, ap, ◌∙◌,
  subst, Bool-cases, inl, inr, &&-eq-true, ==_iff,
}
use mathlib.Core.Bool.{or-false}
use execution_spec_tests_gno.Fork.Classes.{is_same}
use execution_spec_tests_gno.Fork.Classes.Descent.{is_same_iff}
use execution_spec_tests_gno.Fork.Transition.{
  AnyFork, Transition, plain, transition, is_class, ge, le,
}
use execution_spec_tests_gno.Fork.Ranges.{
  is_member, add_to, add_between, add_until, add_from, get_from_until_fork_set,
}

Transition-eq :
    {t u : Transition}
    → t.from_fork ≡ u.from_fork
    → t.to_fork ≡ u.to_fork
    → t.at_block ≡ u.at_block
    → t.at_timestamp ≡ u.at_timestamp
    → t ≡ u
Transition-eq h1 h2 h3 h4 =
    λ i. record { from_fork = h1 i; to_fork = h2 i; at_block = h3 i; at_timestamp = h4 i }

-- One class is the other.
pub is_class-eq : (x y : AnyFork) → is_class x y ≡ true → x ≡ y
is_class-eq (plain f) (plain g) h = ap plain ((is_same_iff f g).0 h)
is_class-eq (plain f) (transition u) h = cc
is_class-eq (transition t) (plain g) h = cc
is_class-eq (transition t) (transition u) h =
    let (rest, time) = &&-eq-true _ (t.at_timestamp == u.at_timestamp) h in
    let (rest', block) = &&-eq-true _ (t.at_block == u.at_block) rest in
    let (from, to) = &&-eq-true (is_same t.from_fork u.from_fork) _ rest' in
    ap transition (
      Transition-eq ((is_same_iff t.from_fork u.from_fork).0 from)
        ((is_same_iff t.to_fork u.to_fork).0 to) ((==_iff t.at_block u.at_block).0 block)
        ((==_iff t.at_timestamp u.at_timestamp).0 time))

is_member-add_to :
    (x y : AnyFork) (xs : List AnyFork)
    → is_member x (add_to y xs) ≡ (is_class x y || is_member x xs)
is_member-add_to x y xs = elim (Bool-cases (is_member y xs)) [
  | inl present ↦ elim (Bool-cases (is_class x y)) [
    | inl same ↦
        let found = subst (λ z. is_member z xs ≡ true) (sym (is_class-eq x y same)) present in cc
    | inr differs ↦ cc
  ]
  | inr absent ↦ cc
]

-- The fork lies between the two, which it may be.
abbrev pub is_between : AnyFork → AnyFork → AnyFork → Bool
is_between fork_from fork_until x = le x fork_until && ge x fork_from

pub is_member-if_add :
    (x y : AnyFork) (c : AnyFork → Bool) (xs : List AnyFork)
    → is_member x (if c y then add_to y xs else xs) ≡ (is_class x y && c x || is_member x xs)
is_member-if_add x y c xs = elim (Bool-cases (is_class x y)) [
  | inl same ↦
      let eq = is_class-eq x y same in
      let added = is_member-add_to x y xs in
      let test = ap c eq in elim (Bool-cases (c y)) [ inl hc ↦ cc | inr hc ↦ cc ]
  | inr differs ↦
      let added = is_member-add_to x y xs in elim (Bool-cases (c y)) [ inl hc ↦ cc | inr hc ↦ cc ]
]

pub distrib_left : (m n p q : Bool) → (n && p || (m && p || q)) ≡ ((m || n) && p || q)
distrib_left true true true q = refl
distrib_left true true false q = refl
distrib_left true false true q = refl
distrib_left true false false q = refl
distrib_left false true true q = refl
distrib_left false true false q = refl
distrib_left false false true q = refl
distrib_left false false false q = refl

distrib_right : (m n p q : Bool) → (m && p || (m && n || q)) ≡ (m && (n || p) || q)
distrib_right true true true q = refl
distrib_right true true false q = refl
distrib_right true false true q = refl
distrib_right true false false q = refl
distrib_right false n p q = refl

drop_false : (m q : Bool) → q ≡ (m && false || q)
drop_false true q = refl
drop_false false q = refl

module _ (x : AnyFork) where
  is_member-add_between :
      (fork_from fork_until : AnyFork) (forks result : List AnyFork)
      → is_member x (add_between fork_from fork_until forks result)
        ≡ (is_member x forks && is_between fork_from fork_until x || is_member x result)
  unfolding add_between
  is_member-add_between fork_from fork_until [] result = refl
  is_member-add_between fork_from fork_until (fork ∷ forks) result =
      is_member-add_between fork_from fork_until forks _
      ∙ ap (λ q. is_member x forks && is_between fork_from fork_until x || q)
          (is_member-if_add x fork (is_between fork_from fork_until) result)
      ∙ distrib_left (is_class x fork) (is_member x forks) (is_between fork_from fork_until x)
          (is_member x result)

  is_member-add_until :
      (forks : List AnyFork) (fork_from : AnyFork) (forks_until result : List AnyFork)
      → is_member x (add_until forks fork_from forks_until result) ≡ (
          is_member x forks && any (λ u. is_between fork_from u x) forks_until
          || is_member x result)
  unfolding add_until
  is_member-add_until forks fork_from [] result =
      drop_false (is_member x forks) (is_member x result)
  is_member-add_until forks fork_from (fork_until ∷ forks_until) result =
      is_member-add_until forks fork_from forks_until _
      ∙ ap (λ q. is_member x forks && any (λ u. is_between fork_from u x) forks_until || q)
          (is_member-add_between fork_from fork_until forks result)
      ∙ distrib_right (is_member x forks) (is_between fork_from fork_until x)
          (any (λ u. is_between fork_from u x) forks_until) (is_member x result)

  is_member-add_from :
      (forks forks_from forks_until result : List AnyFork)
      → is_member x (add_from forks forks_from forks_until result) ≡ (
          is_member x forks && any (λ f. any (λ u. is_between f u x) forks_until) forks_from
          || is_member x result)
  unfolding add_from
  is_member-add_from forks [] forks_until result =
      drop_false (is_member x forks) (is_member x result)
  is_member-add_from forks (fork_from ∷ forks_from) forks_until result =
      is_member-add_from forks forks_from forks_until _
      ∙ ap
          (λ q.
            is_member x forks && any (λ f. any (λ u. is_between f u x) forks_until) forks_from || q)
          (is_member-add_until forks fork_from forks_until result)
      ∙ distrib_right (is_member x forks) (any (λ u. is_between fork_from u x) forks_until)
          (any (λ f. any (λ u. is_between f u x) forks_until) forks_from) (is_member x result)

  -- A fork is in the set exactly where it is one of the forks and lies between some `fork_from` and some
  -- `fork_until`.
  is_member-get_from_until_fork_set :
      (forks forks_from forks_until : List AnyFork)
      → is_member x (get_from_until_fork_set forks forks_from forks_until)
        ≡ (is_member x forks && any (λ f. any (λ u. is_between f u x) forks_until) forks_from)
  unfolding get_from_until_fork_set
  is_member-get_from_until_fork_set forks forks_from forks_until =
      is_member-add_from forks forks_from forks_until [] ∙ or-false _
