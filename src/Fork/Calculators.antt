-- ===== src/Fork/Calculators.antt =====
-- The calculators of a fork class: the method of Frontier, overridden along the method resolution
-- order (src/ethereum_test_forks/forks/forks.py).
pub mod Intrinsic
pub mod Schedule
use execution_spec_tests_gno.Base.{
  ℕ, Bool, true, false, Option, none, some, List, [], ◌∷◌, Result, ok, raise, not_implemented_error,
  assertion_error, ◌>>=◌, if◌then◌else◌,
}
use execution_spec_tests_gno.Base.Dict.{Dict, insert}
use execution_spec_tests_gno.Fork.GasCosts.{GasCosts}
use execution_spec_tests_gno.Fork.Methods.{Methods, BlobMethods}
use execution_spec_tests_gno.Fork.Gas.{
  memory_expansion, CalldataCalculator, frontier_calldata, prague_calldata, FloorCalculator,
  frontier_floor, prague_floor, IntrinsicCalculator, frontier_intrinsic, homestead_intrinsic,
  berlin_intrinsic, prague_intrinsic,
}
use execution_spec_tests_gno.Fork.Blob.{
  fake_exponential, ExcessCalculator, cancun_excess, osaka_excess,
}
use execution_spec_tests_gno.Fork.Classes.{
  Fork, methods, mro, place, parent, is_subclass, homestead, berlin, cancun, prague, osaka,
}

-- A method of Frontier and the classes' own methods, which are given the one of `super`.
abbrev pub resolve {ℓ} : {A : Type ℓ} → (Fork → Option (A → A)) → A → List Fork → A
resolve own base [] = base
resolve own base (f ∷ fs) = elim (own f) [
  | none ↦ resolve own base fs
  | some method ↦ method (resolve own base fs)
]

-- `cls.gas_costs()`
abbrev pub costs : Fork → GasCosts
costs f = (methods f).gas_costs

-- `memory_expansion_gas_calculator`
unfoldable pub memory_expansion_gas_calculator : Fork → ℕ → ℕ → ℕ
unfolding memory_expansion
memory_expansion_gas_calculator f = memory_expansion (costs f)

abbrev own_calldata : GasCosts → Fork → Option (CalldataCalculator → CalldataCalculator)
own_calldata g prague = some (λ super. prague_calldata g)
own_calldata g _ = none

-- `calldata_gas_calculator`
unfoldable pub calldata_gas_calculator : Fork → CalldataCalculator
unfolding mro
calldata_gas_calculator f = resolve (own_calldata (costs f)) (frontier_calldata (costs f)) (mro f)

abbrev own_floor : GasCosts → CalldataCalculator → Fork → Option (FloorCalculator → FloorCalculator)
own_floor g calldata_gas prague = some (λ super. prague_floor g calldata_gas)
own_floor g calldata_gas _ = none

-- `transaction_data_floor_cost_calculator`
unfoldable pub transaction_data_floor_cost_calculator : Fork → FloorCalculator
unfolding mro
transaction_data_floor_cost_calculator f =
    resolve (own_floor (costs f) (calldata_gas_calculator f)) frontier_floor (mro f)

abbrev own_intrinsic :
    GasCosts → FloorCalculator → Fork → Option (IntrinsicCalculator → IntrinsicCalculator)
own_intrinsic g floor homestead = some (homestead_intrinsic g)
own_intrinsic g floor berlin = some (berlin_intrinsic g)
own_intrinsic g floor prague = some (prague_intrinsic g floor)
own_intrinsic g floor _ = none

-- `transaction_intrinsic_cost_calculator`
unfoldable pub transaction_intrinsic_cost_calculator : Fork → IntrinsicCalculator
unfolding mro
transaction_intrinsic_cost_calculator f =
    resolve (own_intrinsic (costs f) (transaction_data_floor_cost_calculator f))
      (frontier_intrinsic (costs f) (calldata_gas_calculator f)) (mro f)

-- `blob_gas_price_calculator` of Cancun, with the methods of `cls`.
abbrev pub cancun_price : BlobMethods → Result (ℕ → ℕ)
cancun_price m = do
  min_base_fee ← m.min_base_fee_per_blob_gas
  fraction ← m.blob_base_fee_update_fraction
  ok (λ excess_blob_gas. fake_exponential min_base_fee excess_blob_gas fraction)

abbrev own_price : BlobMethods → Fork → Option (Result (ℕ → ℕ) → Result (ℕ → ℕ))
own_price m cancun = some (λ super. cancun_price m)
own_price m _ = none

-- `blob_gas_price_calculator`
unfoldable pub blob_gas_price_calculator : Fork → Result (ℕ → ℕ)
unfolding mro
blob_gas_price_calculator f =
    resolve (own_price (methods f).blobs) (raise not_implemented_error) (mro f)

abbrev own_excess :
    BlobMethods → Result (ℕ → ℕ) → Fork → Option (Result ExcessCalculator → Result ExcessCalculator)
own_excess m price cancun =
    some
      (λ super. do target ← m.target_blobs_per_block; ok (cancun_excess target m.blob_gas_per_blob))
own_excess m price osaka = some (λ super. do
  target ← m.target_blobs_per_block
  max_blobs ← m.max_blobs_per_block
  blob_price ← price
  ok (osaka_excess target max_blobs m.blob_gas_per_blob blob_price))
own_excess m price _ = none

-- `excess_blob_gas_calculator`
unfoldable pub excess_blob_gas_calculator : Fork → Result ExcessCalculator
unfolding mro
excess_blob_gas_calculator f =
    resolve (own_excess (methods f).blobs (blob_gas_price_calculator f))
      (raise not_implemented_error) (mro f)

-- `ForkBlobSchedule`
pub record ForkBlobSchedule : Type 0 where
  pub target_blobs_per_block : ℕ
  pub max_blobs_per_block : ℕ
  pub base_fee_update_fraction : ℕ

-- The entry that `Cancun.blob_schedule` makes for a class.
abbrev pub current_schedule : Fork → Result ForkBlobSchedule
current_schedule f = do
  target ← (methods f).blobs.target_blobs_per_block
  max_blobs ← (methods f).blobs.max_blobs_per_block
  fraction ← (methods f).blobs.blob_base_fee_update_fraction
  ok (record {
    target_blobs_per_block = target;
    max_blobs_per_block = max_blobs;
    base_fee_update_fraction = fraction;
  })

abbrev or_empty : Option (Dict ForkBlobSchedule) → Dict ForkBlobSchedule
or_empty none = []
or_empty (some d) = d

-- `blob_schedule`, of a class and its bases: below Cancun it is that of Frontier. The keys of the
-- dictionary are the places of the classes, for their names.
unfoldable pub schedule_of : List Fork → Result (Option (Dict ForkBlobSchedule))
unfolding is_subclass
schedule_of [] = ok none
schedule_of (f ∷ bases) =
    let parent_schedule = schedule_of bases in
    if is_subclass f cancun
    then (do
      blob_schedule ← parent_schedule
      current ← current_schedule f
      ok (some (insert (place f) current (or_empty blob_schedule))))
    else ok none

unfoldable pub blob_schedule : Fork → Result (Option (Dict ForkBlobSchedule))
unfolding schedule_of mro
blob_schedule f = schedule_of (mro f)
