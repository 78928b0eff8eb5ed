-- ===== src/Tests/Gas.antt =====
-- Gas and blobs at concrete inputs (src/ethereum_test_forks/forks/forks.py).
use execution_spec_tests_gno.Base.{
  ℕ, ◌+◌, ◌-◌, ◌*◌, ◌≤◌, ◌≡◌, refl, true, false, none, some, [], ◌∷◌, ok, ◌>>=◌, arith,
}
use execution_spec_tests_gno.Fork.Gas.{Transaction}
use execution_spec_tests_gno.Fork.Blob.{
  ParentBlobs, taylor_loop, taylor_fuel, fake_exponential, osaka_excess,
}
use execution_spec_tests_gno.Fork.Blob.Exponential.{fake_exponential-ends, fake_exponential_mono}
use execution_spec_tests_gno.Fork.Blob.Excess.{IsAdjusted, osaka_excess_between}
use execution_spec_tests_gno.Fork.Classes.{prague}
use execution_spec_tests_gno.Fork.Calculators.{transaction_intrinsic_cost_calculator}
use execution_spec_tests_gno.Fork.Calculators.Intrinsic.{
  fork_charge, with_floor, intrinsic_cost-fork_charge,
}

abbrev creation : Transaction
creation = record {
  calldata = 0 ∷ 1 ∷ [];
  contract_creation = true;
  access_list = some (record { address = 1; storage_keys = 2 ∷ [] } ∷ []);
  authorizations = none;
  return_cost_deducted_prior_execution = false;
}

intrinsic_cost-fork_charge_example :
    transaction_intrinsic_cost_calculator prague creation
    ≡ (fork_charge prague creation >>= λ cost. ok (with_floor prague creation cost))
intrinsic_cost-fork_charge_example = intrinsic_cost-fork_charge prague creation

fake_exponential-ends_example :
    (output : ℕ) × (taylor_loop (taylor_fuel 1 50 10) 50 10 1 0 10 ≡ some output)
fake_exponential-ends_example = fake_exponential-ends 1 50 10 (omega arith)

fake_exponential_mono_example :
    (1 ≤ fake_exponential 1 50 10) × (fake_exponential 1 50 10 ≤ fake_exponential 1 60 10)
fake_exponential_mono_example = fake_exponential_mono 1 50 60 10 (omega arith) (omega arith)

abbrev full_parent : ParentBlobs
full_parent = record {
  excess_blob_gas = some 0;
  excess_blobs = none;
  blob_gas_used = none;
  blob_count = some 9;
  base_fee_per_gas = 1_000_000;
}

osaka_excess_between_example :
    (amount : ℕ) × (osaka_excess 6 9 131072 (λ excess. 1) full_parent ≡ ok amount)
    × (0 + 1179648 - 6 * 131072 ≤ amount)
    × (amount ≤ 0 + 1179648)
    × IsAdjusted 6 9 131072 (λ excess. 1) full_parent 0 1179648 amount
osaka_excess_between_example =
    osaka_excess_between 6 9 131072 (λ excess. 1) full_parent 0 1179648 (omega arith) (omega arith)
      (omega arith) refl
