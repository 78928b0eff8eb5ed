-- ===== src/Fork/Ranges/Ends.antt =====
-- `get_forks_with_no_parents` and `get_forks_with_no_descendants`
-- (src/ethereum_test_forks/helpers.py).
use execution_spec_tests_gno.Base.{
  Bool, true, false, List, [], ◌∷◌, ◌&&◌, ◌||◌, not, any, if◌then◌else◌, ◌≡◌, refl, ap, ◌∙◌,
  Bool-cases, inl, inr,
}
use mathlib.Core.Bool.{or-false}
use execution_spec_tests_gno.Fork.Transition.{AnyFork, is_class, gt, lt}
use execution_spec_tests_gno.Fork.Ranges.{
  is_member, add_to, without, add_without, get_forks_with_no_descendants, get_forks_with_no_parents,
}
use execution_spec_tests_gno.Fork.Ranges.Sets.{is_member-if_add, distrib_left}

-- A test that a class does not pass against itself.
any-without :
    (p : AnyFork → Bool) (x : AnyFork) (ys : List AnyFork)
    → ((y : AnyFork) → is_class y x ≡ true → p y ≡ false)
    → any p (without x ys) ≡ any p ys
any-without p x [] h = refl
any-without p x (y ∷ ys) h =
    let rest = any-without p x ys h in
    elim (Bool-cases (is_class y x)) [ inl same ↦ let fails = h y same in cc | inr differs ↦ cc ]

module _ (test : AnyFork → AnyFork → Bool) (x : AnyFork) where
  if-not :
      (b : Bool) (kept added : List AnyFork)
      → is_member x (if b then kept else added) ≡ is_member x (if not b then added else kept)
  if-not true kept added = refl
  if-not false kept added = refl

  abbrev stands : List AnyFork → AnyFork → Bool
  stands forks y = not (any (λ z. test z y) (without y forks))

  is_member-add_without :
      (forks todo result : List AnyFork)
      → is_member x (add_without test forks todo result)
        ≡ (is_member x todo && stands forks x || is_member x result)
  unfolding add_without
  is_member-add_without forks [] result = refl
  is_member-add_without forks (y ∷ todo) result =
      is_member-add_without forks todo _
      ∙ ap (λ q. is_member x todo && stands forks x || q)
          (if-not (any (λ z. test z y) (without y forks)) result (add_to y result)
            ∙ is_member-if_add x y (stands forks) result)
      ∙ distrib_left (is_class x y) (is_member x todo) (stands forks x) (is_member x result)

  is_member-ends :
      (forks : List AnyFork)
      → ((y : AnyFork) → is_class y x ≡ true → test y x ≡ false)
      → is_member x (add_without test forks forks [])
        ≡ (is_member x forks && not (any (λ y. test y x) forks))
  is_member-ends forks h =
      is_member-add_without forks forks []
      ∙ or-false _
      ∙ ap (λ b. is_member x forks && not b) (any-without (λ y. test y x) x forks h)

-- A fork is among the forks with no descendants exactly where it is a fork of the set and no fork of
-- the set is newer.
is_member-no_descendants :
    (x : AnyFork) (forks : List AnyFork)
    → is_member x (get_forks_with_no_descendants forks)
      ≡ (is_member x forks && not (any (λ y. gt y x) forks))
unfolding get_forks_with_no_descendants gt
is_member-no_descendants x forks = is_member-ends gt x forks (λ y same. cc)

-- A fork is among the forks with no parents exactly where it is a fork of the set and no fork of the
-- set is older.
is_member-no_parents :
    (x : AnyFork) (forks : List AnyFork)
    → is_member x (get_forks_with_no_parents forks)
      ≡ (is_member x forks && not (any (λ y. lt y x) forks))
unfolding get_forks_with_no_parents lt
is_member-no_parents x forks = is_member-ends lt x forks (λ y same. cc)
