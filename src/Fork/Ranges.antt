-- ===== src/Fork/Ranges.antt =====
-- The helpers that select forks (src/ethereum_test_forks/helpers.py). A set of forks is a list of
-- them, in the order of iteration.
pub mod Chain
pub mod Sets
pub mod Ends
use execution_spec_tests_gno.Base.{
  ℕ, zero, suc, Bool, true, false, Option, none, some, List, [], ◌∷◌, ◌&&◌, ◌||◌, not, any, filter,
  if◌then◌else◌,
}
use execution_spec_tests_gno.Fork.Methods.{Methods}
use execution_spec_tests_gno.Fork.Classes.{
  Fork, is_same, parent, methods, all_forks, dao_fork, tangerine, spurious_dragon, muir_glacier,
  arrow_glacier, gray_glacier,
}
use execution_spec_tests_gno.Fork.Transition.{
  Transition, AnyFork, plain, transition, transition_forks, is_class, gt, ge, lt, le,
}

-- `ignore`: the keyword of the class, which a subclass does not inherit.
abbrev pub ignore : Fork → Bool
ignore dao_fork = true
ignore tangerine = true
ignore spurious_dragon = true
ignore muir_glacier = true
ignore arrow_glacier = true
ignore gray_glacier = true
ignore _ = false

abbrev pub is_deployed : Fork → Bool
is_deployed f = (methods f).is_deployed

-- `get_deployed_forks`
abbrev pub get_deployed_forks : List Fork
get_deployed_forks = filter (λ f. is_deployed f && not (ignore f)) all_forks

-- `get_development_forks`
abbrev pub get_development_forks : List Fork
get_development_forks = filter (λ f. not (is_deployed f)) all_forks

-- The loop of `forks_from_until`, on fuel; `none` as `prev_fork` is `BaseFork`.
unfoldable pub walk_back : ℕ → Fork → Option Fork → List Fork → Option (List Fork)
walk_back zero fork_from prev_fork forks = none
walk_back (suc fuel) fork_from none forks = some []
walk_back (suc fuel) fork_from (some prev_fork) forks =
    let rest = walk_back fuel fork_from (parent prev_fork) (prev_fork ∷ forks) in
    if is_same prev_fork fork_from then some (fork_from ∷ forks) else rest

-- `forks_from_until`; `none` is no return.
unfoldable pub forks_from_until : Fork → Fork → Option (List Fork)
unfolding walk_back
forks_from_until fork_from fork_until = walk_back 21 fork_from (some fork_until) []

abbrev last_of : List Fork → Option Fork
last_of [] = none
last_of (f ∷ []) = some f
last_of (f ∷ g ∷ fs) = last_of (g ∷ fs)

-- `forks_from`; `[-1]` of the lists of forks, which are not empty.
unfoldable pub forks_from : Fork → (deployed_only : Bool) → Option (List Fork)
unfolding forks_from_until
forks_from fork deployed_only =
    elim (last_of (if deployed_only then get_deployed_forks else all_forks)) [
      | none ↦ none
      | some latest_fork ↦ forks_from_until fork latest_fork
    ]

-- `fork in forks`
abbrev pub is_member : AnyFork → List AnyFork → Bool
is_member x xs = any (is_class x) xs

-- `forks.add(fork)`
abbrev pub add_to : AnyFork → List AnyFork → List AnyFork
add_to x xs = if is_member x xs then xs else x ∷ xs

-- The innermost loop of `get_from_until_fork_set`.
unfoldable pub add_between : AnyFork → AnyFork → List AnyFork → List AnyFork → List AnyFork
add_between fork_from fork_until [] result = result
add_between fork_from fork_until (fork ∷ forks) result =
    add_between fork_from fork_until forks
      (if le fork fork_until && ge fork fork_from then add_to fork result else result)

unfoldable pub add_until : List AnyFork → AnyFork → List AnyFork → List AnyFork → List AnyFork
unfolding add_between
add_until forks fork_from [] result = result
add_until forks fork_from (fork_until ∷ forks_until) result =
    add_until forks fork_from forks_until (add_between fork_from fork_until forks result)

unfoldable pub add_from : List AnyFork → List AnyFork → List AnyFork → List AnyFork → List AnyFork
unfolding add_until
add_from forks [] forks_until result = result
add_from forks (fork_from ∷ forks_from) forks_until result =
    add_from forks forks_from forks_until (add_until forks fork_from forks_until result)

-- `get_from_until_fork_set`
unfoldable pub get_from_until_fork_set :
    (forks forks_from forks_until : List AnyFork) → List AnyFork
unfolding add_from
get_from_until_fork_set forks forks_from forks_until = add_from forks forks_from forks_until []

-- `forks - {fork}`
abbrev pub without : AnyFork → List AnyFork → List AnyFork
without x forks = filter (λ y. not (is_class y x)) forks

-- The loop of `get_forks_with_no_parents` and of `get_forks_with_no_descendants`: the forks of which
-- the test holds of no other fork.
unfoldable pub add_without :
    (AnyFork → AnyFork → Bool) → List AnyFork → List AnyFork → List AnyFork → List AnyFork
add_without test forks [] result = result
add_without test forks (fork ∷ later) result = add_without test forks later (
    if any (λ next_fork. test next_fork fork) (without fork forks)
    then result
    else add_to fork result)

-- `get_forks_with_no_parents`
unfoldable pub get_forks_with_no_parents : List AnyFork → List AnyFork
unfolding add_without
get_forks_with_no_parents forks = add_without lt forks forks []

-- `get_forks_with_no_descendants`
unfoldable pub get_forks_with_no_descendants : List AnyFork → List AnyFork
unfolding add_without
get_forks_with_no_descendants forks = add_without gt forks forks []

-- `get_last_descendants`: its loop over the forks that have no descendants.
unfoldable pub add_descendants : AnyFork → List AnyFork → List AnyFork → List AnyFork
add_descendants fork_from [] result = result
add_descendants fork_from (fork ∷ forks) result =
    add_descendants fork_from forks (if ge fork fork_from then add_to fork result else result)

unfoldable pub add_all_descendants : List AnyFork → List AnyFork → List AnyFork → List AnyFork
unfolding add_descendants
add_all_descendants [] forks result = result
add_all_descendants (fork_from ∷ forks_from) forks result =
    add_all_descendants forks_from forks (add_descendants fork_from forks result)

unfoldable pub get_last_descendants : (forks forks_from : List AnyFork) → List AnyFork
unfolding get_forks_with_no_descendants add_all_descendants
get_last_descendants forks forks_from =
    add_all_descendants forks_from (get_forks_with_no_descendants forks) []

-- `transition_fork_from_to`, over the transition forks.
unfoldable pub find_transition : Fork → Fork → List Transition → Option Transition
find_transition fork_from fork_to [] = none
find_transition fork_from fork_to (t ∷ ts) =
    let rest = find_transition fork_from fork_to ts in
    if is_same t.to_fork fork_to && is_same t.from_fork fork_from then some t else rest

unfoldable pub transition_fork_from_to : Fork → Fork → Option Transition
unfolding find_transition
transition_fork_from_to fork_from fork_to = find_transition fork_from fork_to transition_forks

-- `transition_fork_to`
unfoldable pub transition_fork_to : Fork → List Transition
transition_fork_to fork_to = filter (λ t. is_same t.to_fork fork_to) transition_forks

-- `ForkRangeDescriptor`
pub record ForkRangeDescriptor : Type 0 where
  pub greater_equal : Option AnyFork
  pub less_than : Option AnyFork

abbrev is_below : AnyFork → Option AnyFork → Bool
is_below f none = false
is_below f (some g) = lt f g

abbrev is_at_or_above : AnyFork → Option AnyFork → Bool
is_at_or_above f none = false
is_at_or_above f (some g) = ge f g

-- `ForkRangeDescriptor.fork_in_range`
unfoldable pub fork_in_range : ForkRangeDescriptor → AnyFork → Bool
fork_in_range r fork =
    if is_below fork r.greater_equal
    then false
    else (if is_at_or_above fork r.less_than then false else true)
