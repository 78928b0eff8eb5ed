-- ===== src/Fork/Gas.antt =====
-- The gas calculators that the fork classes build (src/ethereum_test_forks/forks/forks.py).
pub mod Memory
pub mod Calldata
pub mod Cost
use execution_spec_tests_gno.Base.{
  ℕ, zero, suc, ◌+◌, ◌-◌, ◌*◌, ◌/◌, ◌≤◌, max, Bool, true, false, Option, none, some, List, [], ◌∷◌,
  ◌==◌, leb, if◌then◌else◌, Result, ok, raise, assertion_error, ◌>>=◌, ◌>>◌, require, length,
}
use execution_spec_tests_gno.Base.Bytes.{Bytes}
use execution_spec_tests_gno.Fork.GasCosts.{GasCosts}

-- `ceiling_division`: `-(a // -b)`, of a positive b.
unfoldable pub ceiling_division : ℕ → ℕ → ℕ
ceiling_division a b = (a + (b - 1)) / b

-- `c(w)` of the memory expansion.
unfoldable pub memory_cost : GasCosts → ℕ → ℕ
memory_cost g w = g.g_memory * w + w * w / 512

-- `Frontier.memory_expansion_gas_calculator`. The cost grows with the words, so the difference is
-- no less than zero.
unfoldable pub memory_expansion : GasCosts → ℕ → ℕ → ℕ
unfolding ceiling_division memory_cost
memory_expansion g new_bytes previous_bytes =
    if leb new_bytes previous_bytes
    then 0
    else memory_cost g (ceiling_division new_bytes 32)
      - memory_cost g (ceiling_division previous_bytes 32)

-- `calldata_gas_calculator`: of the data and `floor`.
abbrev pub CalldataCalculator : Type 0
CalldataCalculator = Bytes → Bool → ℕ

-- The loop of the calculator at Frontier.
unfoldable pub byte_costs : GasCosts → ℕ → Bytes → ℕ
byte_costs g cost [] = cost
byte_costs g cost (b ∷ data_bytes) =
    byte_costs g (cost + (if b == 0 then g.g_tx_data_zero else g.g_tx_data_non_zero)) data_bytes

-- `Frontier.calldata_gas_calculator`
unfoldable pub frontier_calldata : GasCosts → CalldataCalculator
unfolding byte_costs
frontier_calldata g calldata floor = byte_costs g 0 calldata

-- The loop of the calculator at Prague.
unfoldable pub tokens_from : ℕ → Bytes → ℕ
tokens_from tokens [] = tokens
tokens_from tokens (b ∷ data_bytes) = tokens_from (tokens + (if b == 0 then 1 else 4)) data_bytes

-- `Prague.calldata_gas_calculator`
unfoldable pub prague_calldata : GasCosts → CalldataCalculator
unfolding tokens_from
prague_calldata g calldata floor =
    if floor
    then tokens_from 0 calldata * g.g_tx_data_floor_token_cost
    else tokens_from 0 calldata * g.g_tx_data_standard_token_cost

-- `transaction_data_floor_cost_calculator`
abbrev pub FloorCalculator : Type 0
FloorCalculator = Bytes → ℕ

-- `Frontier.transaction_data_floor_cost_calculator`
abbrev pub frontier_floor : FloorCalculator
frontier_floor calldata = 0

-- `Prague.transaction_data_floor_cost_calculator`
unfoldable pub prague_floor : GasCosts → CalldataCalculator → FloorCalculator
prague_floor g calldata_gas calldata = calldata_gas calldata true + g.g_transaction

-- An entry of an access list, with its storage keys.
pub record AccessList : Type 0 where
  pub address : ℕ
  pub storage_keys : List ℕ

-- The arguments of the intrinsic cost. A list of authorizations is given by its length.
pub record Transaction : Type 0 where
  pub calldata : Bytes
  pub contract_creation : Bool
  pub access_list : Option (List AccessList)
  pub authorizations : Option ℕ
  pub return_cost_deducted_prior_execution : Bool

abbrev pub IntrinsicCalculator : Type 0
IntrinsicCalculator = Transaction → Result ℕ

abbrev is_none {ℓ} : {A : Type ℓ} → Option A → Bool
is_none none = true
is_none (some a) = false

-- `Frontier.transaction_intrinsic_cost_calculator`
unfoldable pub frontier_intrinsic : GasCosts → CalldataCalculator → IntrinsicCalculator
unfolding ceiling_division
frontier_intrinsic g calldata_gas t = do
  require (is_none t.access_list) assertion_error
  require (is_none t.authorizations) assertion_error
  let created =
      if t.contract_creation
      then g.g_transaction + g.g_initcode_word * ceiling_division (length t.calldata) 32
      else g.g_transaction
  ok (created + calldata_gas t.calldata false)

-- `Homestead.transaction_intrinsic_cost_calculator`. The last argument is not passed to the
-- calculator of the parent, so it is `False` there.
unfoldable pub homestead_intrinsic : GasCosts → IntrinsicCalculator → IntrinsicCalculator
homestead_intrinsic g super t = do
  cost ← super (record t { return_cost_deducted_prior_execution = false })
  ok (if t.contract_creation then cost + g.g_transaction_create else cost)

-- The inner loop of Berlin, over the storage keys.
unfoldable pub key_costs : GasCosts → ℕ → List ℕ → ℕ
key_costs g cost [] = cost
key_costs g cost (k ∷ ks) = key_costs g (cost + g.g_access_list_storage) ks

-- The outer loop of Berlin, over the access list.
unfoldable pub access_costs : GasCosts → ℕ → List AccessList → ℕ
unfolding key_costs
access_costs g cost [] = cost
access_costs g cost (a ∷ entries) =
    access_costs g (key_costs g (cost + g.g_access_list_address) a.storage_keys) entries

abbrev pub with_access : GasCosts → ℕ → Option (List AccessList) → ℕ
with_access g cost none = cost
with_access g cost (some entries) = access_costs g cost entries

-- `Berlin.transaction_intrinsic_cost_calculator`
unfoldable pub berlin_intrinsic : GasCosts → IntrinsicCalculator → IntrinsicCalculator
unfolding access_costs
berlin_intrinsic g super t = do
  cost ← super (record t { access_list = none; return_cost_deducted_prior_execution = false })
  ok (with_access g cost t.access_list)

abbrev with_authorizations : GasCosts → ℕ → Option ℕ → ℕ
with_authorizations g cost none = cost
with_authorizations g cost (some n) = cost + n * g.g_authorization

-- `Prague.transaction_intrinsic_cost_calculator`
unfoldable pub prague_intrinsic :
    GasCosts → FloorCalculator → IntrinsicCalculator → IntrinsicCalculator
prague_intrinsic g floor super t = do
  base ← super (record t { authorizations = none; return_cost_deducted_prior_execution = false })
  let cost = with_authorizations g base t.authorizations
  ok (if t.return_cost_deducted_prior_execution then cost else max cost (floor t.calldata))
