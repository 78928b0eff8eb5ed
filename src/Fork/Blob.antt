-- ===== src/Fork/Blob.antt =====
-- Blob gas: `fake_exponential` (src/ethereum_test_forks/forks/helpers.py) and the calculators of
-- Cancun and Osaka (src/ethereum_test_forks/forks/forks.py).
pub mod Exponential
pub mod Excess
use execution_spec_tests_gno.Base.{
  ℕ, zero, suc, ◌+◌, ◌-◌, ◌*◌, ◌/◌, ◌^◌, ◌≤◌, Bool, true, false, Option, none, some, ◌==◌, ltb,
  if◌then◌else◌, Result, ok, raise, assertion_error, ◌>>=◌,
}

-- `while numerator_accumulator > 0: …`, on fuel; `none` when the fuel runs out.
unfoldable pub taylor_loop : ℕ → ℕ → ℕ → ℕ → ℕ → ℕ → Option ℕ
taylor_loop zero numerator denominator i output accumulator = none
taylor_loop (suc fuel) numerator denominator i output accumulator =
    let rest =
      taylor_loop fuel numerator denominator (i + 1) (output + accumulator)
        (accumulator * numerator / (denominator * i)) in
    if accumulator == 0 then some output else rest

-- Enough rounds: after `numerator / denominator` of them each round makes the accumulator smaller.
abbrev pub taylor_fuel : ℕ → ℕ → ℕ → ℕ
taylor_fuel factor numerator denominator =
    numerator / denominator + factor * denominator * (numerator + 1) ^ (numerator / denominator) + 1

abbrev pub or_zero : Option ℕ → ℕ
or_zero none = 0
or_zero (some n) = n

-- `fake_exponential`, of a positive denominator.
unfoldable pub fake_exponential : ℕ → ℕ → ℕ → ℕ
unfolding taylor_loop
fake_exponential factor numerator denominator =
    or_zero (
      taylor_loop (taylor_fuel factor numerator denominator) numerator denominator 1 0
        (factor * denominator))
    / denominator

-- The arguments of the excess blob gas.
pub record ParentBlobs : Type 0 where
  pub excess_blob_gas : Option ℕ
  pub excess_blobs : Option ℕ
  pub blob_gas_used : Option ℕ
  pub blob_count : Option ℕ
  pub base_fee_per_gas : ℕ

abbrev pub ExcessCalculator : Type 0
ExcessCalculator = ParentBlobs → Result ℕ

-- An amount of gas, or the gas of a number of blobs; one of the two has to be given.
abbrev pub gas_or_blobs : ℕ → Option ℕ → Option ℕ → Result ℕ
gas_or_blobs per_blob (some gas) blobs = ok gas
gas_or_blobs per_blob none (some blobs) = ok (blobs * per_blob)
gas_or_blobs per_blob none none = raise assertion_error

-- `Cancun.excess_blob_gas_calculator`
unfoldable pub cancun_excess : (target per_blob : ℕ) → ExcessCalculator
cancun_excess target per_blob p = do
  excess ← gas_or_blobs per_blob p.excess_blob_gas p.excess_blobs
  used ← gas_or_blobs per_blob p.blob_gas_used p.blob_count
  ok (if ltb (excess + used) (target * per_blob) then 0 else excess + used - target * per_blob)

-- `blob_base_cost` of EIP-7918.
abbrev pub blob_base_cost : ℕ
blob_base_cost = 2 ^ 14

-- `Osaka.excess_blob_gas_calculator`; the last parameter is the blob gas price.
unfoldable pub osaka_excess : (target max_blobs per_blob : ℕ) → (ℕ → ℕ) → ExcessCalculator
osaka_excess target max_blobs per_blob price p = do
  excess ← gas_or_blobs per_blob p.excess_blob_gas p.excess_blobs
  used ← gas_or_blobs per_blob p.blob_gas_used p.blob_count
  let reserve_price_active = ltb (per_blob * price excess) (blob_base_cost * p.base_fee_per_gas)
  ok (
      if ltb (excess + used) (target * per_blob)
      then 0
      else (if reserve_price_active
          then excess + used * (max_blobs - target) / max_blobs
          else excess + used - target * per_blob))
