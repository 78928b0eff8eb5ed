-- ===== src/Fork/Calculators/Intrinsic.antt =====
-- The intrinsic cost at each fork (src/ethereum_test_forks/forks/forks.py).
use execution_spec_tests_gno.Base.{
  ℕ, ◌+◌, ◌*◌, max, ◌≡◌, refl, ap, ◌∙◌, Bool, true, false, ◌&&◌, not, if◌then◌else◌, arith, Result,
  ok, raise, ◌>>=◌,
}
use execution_spec_tests_gno.Base.Bytes.{Bytes}
use execution_spec_tests_gno.Fork.GasCosts.{GasCosts}
use execution_spec_tests_gno.Fork.Gas.{
  Transaction, CalldataCalculator, FloorCalculator, frontier_intrinsic, homestead_intrinsic,
  berlin_intrinsic, prague_intrinsic,
}
use execution_spec_tests_gno.Fork.Gas.Calldata.{
  zeros, non_zeros, frontier_calldata-eq, prague_calldata-eq,
}
use execution_spec_tests_gno.Fork.Gas.Cost.{
  allowed_charge, frontier-Charges, homestead-Charges, berlin-Charges, prague-Charges,
}
use execution_spec_tests_gno.Fork.Classes.{
  Fork, is_subclass, mro, bases_from, frontier, homestead, dao_fork, tangerine, spurious_dragon,
  byzantium, constantinople, constantinople_fix, istanbul, muir_glacier, berlin, london,
  arrow_glacier, gray_glacier, paris, shanghai, cancun, prague, osaka, eof,
}
use execution_spec_tests_gno.Fork.Calculators.{
  costs, calldata_gas_calculator, transaction_data_floor_cost_calculator,
  transaction_intrinsic_cost_calculator,
}

-- The charge for a creation beside the initcode: from Homestead on.
abbrev pub creation_charge : Fork → ℕ
creation_charge f = if is_subclass f homestead then (costs f).g_transaction_create else 0

-- What the fork charges, an assertion error included.
abbrev pub fork_charge : Fork → Transaction → Result ℕ
fork_charge f =
    allowed_charge (costs f) (calldata_gas_calculator f) (is_subclass f berlin)
      (is_subclass f prague) (creation_charge f)

-- From Prague on the floor of the calldata applies, but for what is deducted before execution.
abbrev pub with_floor : Fork → Transaction → ℕ → ℕ
with_floor f t cost =
    if is_subclass f prague && not t.return_cost_deducted_prior_execution
    then max cost (transaction_data_floor_cost_calculator f t.calldata)
    else cost

bind-ok : (r : Result ℕ) → r ≡ (r >>= λ cost. ok cost)
bind-ok (ok cost) = refl
bind-ok (raise e) = refl

if-not {ℓ} : {A : Type ℓ} (b : Bool) (x y : A) → (if b then x else y) ≡ (if not b then y else x)
if-not true x y = refl
if-not false x y = refl

module _ (g : GasCosts) (c : CalldataCalculator) (floor : FloorCalculator) (t : Transaction) where
  homestead_all :
      (u : Transaction)
      → homestead_intrinsic g (frontier_intrinsic g c) u
        ≡ allowed_charge g c false false g.g_transaction_create u
  homestead_all = homestead-Charges g c false false (frontier_intrinsic g c) (frontier-Charges g c)

  berlin_all :
      (u : Transaction)
      → berlin_intrinsic g (homestead_intrinsic g (frontier_intrinsic g c)) u
        ≡ allowed_charge g c true false g.g_transaction_create u
  berlin_all =
      berlin-Charges g c false g.g_transaction_create
        (homestead_intrinsic g (frontier_intrinsic g c)) homestead_all

  at_frontier : frontier_intrinsic g c t ≡ (allowed_charge g c false false 0 t >>= λ cost. ok cost)
  at_frontier = frontier-Charges g c t ∙ bind-ok _

  at_homestead :
      homestead_intrinsic g (frontier_intrinsic g c) t
      ≡ (allowed_charge g c false false g.g_transaction_create t >>= λ cost. ok cost)
  at_homestead = homestead_all t ∙ bind-ok _

  at_berlin :
      berlin_intrinsic g (homestead_intrinsic g (frontier_intrinsic g c)) t
      ≡ (allowed_charge g c true false g.g_transaction_create t >>= λ cost. ok cost)
  at_berlin = berlin_all t ∙ bind-ok _

  at_prague :
      prague_intrinsic g floor
        (berlin_intrinsic g (homestead_intrinsic g (frontier_intrinsic g c)))
        t
      ≡ (allowed_charge g c true true g.g_transaction_create t >>= λ cost. ok (
          if not t.return_cost_deducted_prior_execution then max cost (floor t.calldata) else cost))
  at_prague =
      prague-Charges g c g.g_transaction_create floor
        (berlin_intrinsic g (homestead_intrinsic g (frontier_intrinsic g c))) berlin_all t
      ∙ ap ok (if-not t.return_cost_deducted_prior_execution _ _)

-- At every fork the intrinsic cost is the base cost, with the cost of the calldata, of the words of
-- the initcode of a creation, from Homestead on of the creation itself, of the access list and of the
-- authorizations; an access list before Berlin and authorizations before Prague are an assertion
-- error. From Prague on the cost is at least the floor of the calldata, unless what is deducted
-- before execution is asked for.
pub intrinsic_cost-fork_charge :
    (f : Fork) (t : Transaction)
    → transaction_intrinsic_cost_calculator f t
      ≡ (fork_charge f t >>= λ cost. ok (with_floor f t cost))
unfolding transaction_intrinsic_cost_calculator mro bases_from is_subclass
intrinsic_cost-fork_charge frontier t =
    at_frontier (costs frontier) (calldata_gas_calculator frontier)
      (transaction_data_floor_cost_calculator frontier) t
intrinsic_cost-fork_charge homestead t =
    at_homestead (costs homestead) (calldata_gas_calculator homestead)
      (transaction_data_floor_cost_calculator homestead) t
intrinsic_cost-fork_charge dao_fork t =
    at_homestead (costs dao_fork) (calldata_gas_calculator dao_fork)
      (transaction_data_floor_cost_calculator dao_fork) t
intrinsic_cost-fork_charge tangerine t =
    at_homestead (costs tangerine) (calldata_gas_calculator tangerine)
      (transaction_data_floor_cost_calculator tangerine) t
intrinsic_cost-fork_charge spurious_dragon t =
    at_homestead (costs spurious_dragon) (calldata_gas_calculator spurious_dragon)
      (transaction_data_floor_cost_calculator spurious_dragon) t
intrinsic_cost-fork_charge byzantium t =
    at_homestead (costs byzantium) (calldata_gas_calculator byzantium)
      (transaction_data_floor_cost_calculator byzantium) t
intrinsic_cost-fork_charge constantinople t =
    at_homestead (costs constantinople) (calldata_gas_calculator constantinople)
      (transaction_data_floor_cost_calculator constantinople) t
intrinsic_cost-fork_charge constantinople_fix t =
    at_homestead (costs constantinople_fix) (calldata_gas_calculator constantinople_fix)
      (transaction_data_floor_cost_calculator constantinople_fix) t
intrinsic_cost-fork_charge istanbul t =
    at_homestead (costs istanbul) (calldata_gas_calculator istanbul)
      (transaction_data_floor_cost_calculator istanbul) t
intrinsic_cost-fork_charge muir_glacier t =
    at_homestead (costs muir_glacier) (calldata_gas_calculator muir_glacier)
      (transaction_data_floor_cost_calculator muir_glacier) t
intrinsic_cost-fork_charge berlin t =
    at_berlin (costs berlin) (calldata_gas_calculator berlin)
      (transaction_data_floor_cost_calculator berlin) t
intrinsic_cost-fork_charge london t =
    at_berlin (costs london) (calldata_gas_calculator london)
      (transaction_data_floor_cost_calculator london) t
intrinsic_cost-fork_charge arrow_glacier t =
    at_berlin (costs arrow_glacier) (calldata_gas_calculator arrow_glacier)
      (transaction_data_floor_cost_calculator arrow_glacier) t
intrinsic_cost-fork_charge gray_glacier t =
    at_berlin (costs gray_glacier) (calldata_gas_calculator gray_glacier)
      (transaction_data_floor_cost_calculator gray_glacier) t
intrinsic_cost-fork_charge paris t =
    at_berlin (costs paris) (calldata_gas_calculator paris)
      (transaction_data_floor_cost_calculator paris) t
intrinsic_cost-fork_charge shanghai t =
    at_berlin (costs shanghai) (calldata_gas_calculator shanghai)
      (transaction_data_floor_cost_calculator shanghai) t
intrinsic_cost-fork_charge cancun t =
    at_berlin (costs cancun) (calldata_gas_calculator cancun)
      (transaction_data_floor_cost_calculator cancun) t
intrinsic_cost-fork_charge prague t =
    at_prague (costs prague) (calldata_gas_calculator prague)
      (transaction_data_floor_cost_calculator prague) t
intrinsic_cost-fork_charge osaka t =
    at_prague (costs osaka) (calldata_gas_calculator osaka)
      (transaction_data_floor_cost_calculator osaka) t
intrinsic_cost-fork_charge eof t =
    at_prague (costs eof) (calldata_gas_calculator eof) (transaction_data_floor_cost_calculator eof)
      t

-- The cost of calldata at Prague is that at Istanbul, and its floor is 10 for a zero byte and 40 for
-- another one.
standard_calldata-eq :
    (bs : Bytes)
    → (calldata_gas_calculator prague bs false ≡ calldata_gas_calculator istanbul bs false)
      × (calldata_gas_calculator prague bs true ≡ 10 * zeros bs + 40 * non_zeros bs)
unfolding calldata_gas_calculator mro bases_from
standard_calldata-eq bs =
    let early = frontier_calldata-eq (costs istanbul) bs in
    let late = prague_calldata-eq (costs prague) bs in (omega arith, omega arith)
