-- ===== src/Fork/Ranges/Chain.antt =====
-- `forks_from_until` (src/ethereum_test_forks/helpers.py).
use execution_spec_tests_gno.Base.{
  Bool, true, false, Option, none, some, List, [], ◌∷◌, ◌&&◌, every, if◌then◌else◌, ◌≡◌, refl,
}
use execution_spec_tests_gno.Fork.Classes.{
  Fork, is_same, parent, is_subclass, all_forks, mro, bases_from,
}
use execution_spec_tests_gno.Fork.Classes.Descent.{every_fork}
use execution_spec_tests_gno.Fork.Ranges.{forks_from_until, walk_back}

-- `parent f is p`
abbrev pub is_parent : Fork → Fork → Bool
is_parent p f = elim (parent f) [ none ↦ false | some q ↦ is_same q p ]

-- The forks are a chain of parents and children from the first to the last.
abbrev pub is_chain : Fork → Fork → List Fork → Bool
is_chain first last [] = false
is_chain first last (f ∷ []) = is_same f first && is_same f last
is_chain first last (f ∷ g ∷ forks) =
    is_same f first && is_parent f g && is_chain g last (g ∷ forks)

abbrev pub is_empty {ℓ} : {A : Type ℓ} → List A → Bool
is_empty [] = true
is_empty (x ∷ xs) = false

-- A run of `forks_from_until` is right: it returns, a chain of all the forks between the two where
-- the last descends from the first, and nothing otherwise.
abbrev pub is_range : Fork → Fork → Option (List Fork) → Bool
is_range fork_from fork_until none = false
is_range fork_from fork_until (some forks) =
    if is_subclass fork_until fork_from then is_chain fork_from fork_until forks else is_empty forks

all_ranges :
    every
      (λ fork_from.
        every
          (λ fork_until. is_range fork_from fork_until (forks_from_until fork_from fork_until))
          all_forks)
      all_forks
    ≡ true
unfolding forks_from_until walk_back is_subclass mro bases_from
all_ranges = refl

-- `forks_from_until` returns: where `fork_until` is a subclass of `fork_from`, the chain of parents
-- and children from the one to the other, and nothing otherwise.
pub forks_from_until-is_range :
    (fork_from fork_until : Fork)
    → is_range fork_from fork_until (forks_from_until fork_from fork_until) ≡ true
forks_from_until-is_range fork_from fork_until =
    every_fork (λ u. is_range fork_from u (forks_from_until fork_from u))
      (every_fork (λ f. every (λ u. is_range f u (forks_from_until f u)) all_forks) all_ranges
        fork_from)
      fork_until
