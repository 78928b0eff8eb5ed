-- ===== src/Fork/Transition.antt =====
-- Transition forks and the comparisons of forks (src/ethereum_test_forks/base_fork.py,
-- src/ethereum_test_forks/transition_base_fork.py, src/ethereum_test_forks/forks/transition.py).
pub mod Order
pub mod Methods
use execution_spec_tests_gno.Base.{
  ℕ, Bool, true, false, Option, none, some, List, [], ◌∷◌, ◌==◌, leb, ◌&&◌, ◌||◌, not,
  if◌then◌else◌,
}
use execution_spec_tests_gno.Fork.Classes.{
  Fork, is_same, is_subclass, berlin, london, paris, shanghai, cancun, prague, osaka,
}

-- What `transition_fork(to_fork, at_block, at_timestamp)` makes of a class of `from_fork`.
pub record Transition : Type 0 where
  pub from_fork : Fork
  pub to_fork : Fork
  pub at_block : ℕ
  pub at_timestamp : ℕ

-- `BerlinToLondonAt5`
abbrev pub berlin_to_london_at_5 : Transition
berlin_to_london_at_5 = record {
  from_fork = berlin;
  to_fork = london;
  at_block = 5;
  at_timestamp = 0;
}

-- `ParisToShanghaiAtTime15k`
abbrev pub paris_to_shanghai_at_time_15k : Transition
paris_to_shanghai_at_time_15k = record {
  from_fork = paris;
  to_fork = shanghai;
  at_block = 0;
  at_timestamp = 15_000;
}

-- `ShanghaiToCancunAtTime15k`
abbrev pub shanghai_to_cancun_at_time_15k : Transition
shanghai_to_cancun_at_time_15k = record {
  from_fork = shanghai;
  to_fork = cancun;
  at_block = 0;
  at_timestamp = 15_000;
}

-- `CancunToPragueAtTime15k`
abbrev pub cancun_to_prague_at_time_15k : Transition
cancun_to_prague_at_time_15k = record {
  from_fork = cancun;
  to_fork = prague;
  at_block = 0;
  at_timestamp = 15_000;
}

-- `PragueToOsakaAtTime15k`
abbrev pub prague_to_osaka_at_time_15k : Transition
prague_to_osaka_at_time_15k = record {
  from_fork = prague;
  to_fork = osaka;
  at_block = 0;
  at_timestamp = 15_000;
}

-- `transition_forks`
abbrev pub transition_forks : List Transition
transition_forks =
    berlin_to_london_at_5 ∷ paris_to_shanghai_at_time_15k ∷ shanghai_to_cancun_at_time_15k
    ∷ cancun_to_prague_at_time_15k ∷ prague_to_osaka_at_time_15k ∷ []

-- A class of `BaseFork`: one of forks.py, or a transition fork.
pub data AnyFork : Type 0 where
  plain : Fork → AnyFork
  transition : Transition → AnyFork

-- Whether the transition is over at a block.
abbrev pub is_over : Transition → ℕ → ℕ → Bool
is_over t block_number timestamp = leb t.at_block block_number && leb t.at_timestamp timestamp

-- `fork_at`
unfoldable pub fork_at : AnyFork → ℕ → ℕ → Fork
fork_at (plain f) block_number timestamp = f
fork_at (transition t) block_number timestamp =
    if is_over t block_number timestamp then t.to_fork else t.from_fork

-- `transition_method`, of a method of the forks; `prefer_to` is
-- `__prefer_transition_to_method__`.
unfoldable pub transition_method {ℓ} : {A : Type ℓ} → Transition → Bool → (Fork → A) → ℕ → ℕ → A
transition_method t prefer_to method block_number timestamp =
    if prefer_to
    then method t.to_fork
    else (if is_over t block_number timestamp then method t.to_fork else method t.from_fork)

-- `ALWAYS_TRANSITIONED_BLOCK_NUMBER`, the default block number of a transition method.
abbrev pub always_transitioned_block_number : ℕ
always_transitioned_block_number = 10_000

-- `ALWAYS_TRANSITIONED_BLOCK_TIMESTAMP`
abbrev pub always_transitioned_block_timestamp : ℕ
always_transitioned_block_timestamp = 10_000_000

-- `a is b` of two classes.
abbrev pub is_class : AnyFork → AnyFork → Bool
is_class (plain f) (plain g) = is_same f g
is_class (plain f) (transition u) = false
is_class (transition t) (plain g) = false
is_class (transition t) (transition u) =
    is_same t.from_fork u.from_fork
    && is_same t.to_fork u.to_fork
    && t.at_block == u.at_block
    && t.at_timestamp == u.at_timestamp

-- `_maybe_transitioned`
abbrev pub maybe_transitioned : AnyFork → Fork
maybe_transitioned (plain f) = f
maybe_transitioned (transition t) = t.to_fork

-- `_is_subclass_of`
unfoldable pub is_subclass_of : AnyFork → AnyFork → Bool
is_subclass_of a b = is_subclass (maybe_transitioned a) (maybe_transitioned b)

-- `__gt__`
unfoldable pub gt : AnyFork → AnyFork → Bool
unfolding is_subclass_of
gt a b = not (is_class a b) && is_subclass_of a b

-- `__ge__`
unfoldable pub ge : AnyFork → AnyFork → Bool
unfolding is_subclass_of
ge a b = is_class a b || is_subclass_of a b

-- `__lt__`
unfoldable pub lt : AnyFork → AnyFork → Bool
unfolding is_subclass_of
lt a b = not (is_class a b) && is_subclass_of b a

-- `__le__`
unfoldable pub le : AnyFork → AnyFork → Bool
unfolding is_subclass_of
le a b = is_class a b || is_subclass_of b a
