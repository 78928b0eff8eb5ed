-- ===== src/Fork/Classes.antt =====
-- The fork classes: their parents, their bases and their methods
-- (src/ethereum_test_forks/forks/forks.py, src/ethereum_test_forks/base_fork.py).
pub mod Frontier
pub mod Early
pub mod Middle
pub mod Late
pub mod Descent
pub mod Growth
use execution_spec_tests_gno.Base.{
  ℕ, zero, suc, Bool, true, false, Option, none, some, List, [], ◌∷◌, ◌==◌, any,
}
use execution_spec_tests_gno.Fork.Methods.{Methods}
use Frontier.{frontier_methods}
use Early.{
  homestead_methods, dao_fork_methods, tangerine_methods, spurious_dragon_methods,
  byzantium_methods, constantinople_methods, constantinople_fix_methods, istanbul_methods,
  muir_glacier_methods,
}
use Middle.{
  berlin_methods, london_methods, arrow_glacier_methods, gray_glacier_methods, paris_methods,
  shanghai_methods,
}
use Late.{cancun_methods, prague_methods, osaka_methods, eof_methods}

-- The classes of forks.py, in its order.
pub data Fork : Type 0 where
  frontier homestead dao_fork tangerine spurious_dragon : Fork
  byzantium constantinople constantinople_fix istanbul muir_glacier : Fork
  berlin london arrow_glacier gray_glacier paris : Fork
  shanghai cancun prague osaka eof : Fork

-- The place of a class in forks.py.
abbrev pub place : Fork → ℕ
place frontier = 0
place homestead = 1
place dao_fork = 2
place tangerine = 3
place spurious_dragon = 4
place byzantium = 5
place constantinople = 6
place constantinople_fix = 7
place istanbul = 8
place muir_glacier = 9
place berlin = 10
place london = 11
place arrow_glacier = 12
place gray_glacier = 13
place paris = 14
place shanghai = 15
place cancun = 16
place prague = 17
place osaka = 18
place eof = 19

-- `a is b`
abbrev pub is_same : Fork → Fork → Bool
is_same a b = place a == place b

-- `get_parent_fork`; `none` is `BaseFork`.
abbrev pub parent : Fork → Option Fork
parent frontier = none
parent homestead = some frontier
parent dao_fork = some homestead
parent tangerine = some dao_fork
parent spurious_dragon = some tangerine
parent byzantium = some homestead
parent constantinople = some byzantium
parent constantinople_fix = some constantinople
parent istanbul = some constantinople_fix
parent muir_glacier = some istanbul
parent berlin = some istanbul
parent london = some berlin
parent arrow_glacier = some london
parent gray_glacier = some arrow_glacier
parent paris = some london
parent shanghai = some paris
parent cancun = some shanghai
parent prague = some cancun
parent osaka = some prague
parent eof = some prague

abbrev pub methods : Fork → Methods
methods frontier = frontier_methods
methods homestead = homestead_methods
methods dao_fork = dao_fork_methods
methods tangerine = tangerine_methods
methods spurious_dragon = spurious_dragon_methods
methods byzantium = byzantium_methods
methods constantinople = constantinople_methods
methods constantinople_fix = constantinople_fix_methods
methods istanbul = istanbul_methods
methods muir_glacier = muir_glacier_methods
methods berlin = berlin_methods
methods london = london_methods
methods arrow_glacier = arrow_glacier_methods
methods gray_glacier = gray_glacier_methods
methods paris = paris_methods
methods shanghai = shanghai_methods
methods cancun = cancun_methods
methods prague = prague_methods
methods osaka = osaka_methods
methods eof = eof_methods

abbrev pub all_forks : List Fork
all_forks =
    frontier ∷ homestead ∷ dao_fork ∷ tangerine ∷ spurious_dragon ∷ byzantium ∷ constantinople
    ∷ constantinople_fix ∷ istanbul ∷ muir_glacier ∷ berlin ∷ london ∷ arrow_glacier ∷ gray_glacier
    ∷ paris ∷ shanghai ∷ cancun ∷ prague ∷ osaka ∷ eof ∷ []

-- What the language does with the classes: `issubclass` looks for a class among the bases of another,
-- which the method resolution order lists. It stands here over the table of parents.
unfoldable pub bases_from : ℕ → Fork → List Fork
bases_from zero f = []
bases_from (suc fuel) f = f ∷ (elim (parent f) [ none ↦ [] | some p ↦ bases_from fuel p ])

-- The method resolution order of a class.
unfoldable pub mro : Fork → List Fork
unfolding bases_from
mro f = bases_from 20 f

-- `issubclass(a, b)`
unfoldable pub is_subclass : Fork → Fork → Bool
unfolding mro
is_subclass a b = any (is_same b) (mro a)
