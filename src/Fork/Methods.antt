-- ===== src/Fork/Methods.antt =====
-- The methods of a fork class (src/ethereum_test_forks/base_fork.py), in groups. No method of a fork
-- reads its arguments `block_number` and `timestamp`, so the value stands for the method.
use execution_spec_tests_gno.Base.{ℕ, Bool, Option, List, Result, String}
use execution_spec_tests_gno.Base.Int.{ℤ}
use execution_spec_tests_gno.Opcode.Arg.{Opcode}
use execution_spec_tests_gno.Fork.GasCosts.{GasCosts}

-- `Address(value, label=…)`
pub record Address : Type 0 where
  pub value : ℕ
  pub label : String

-- `EVMCodeType`
pub data CodeType : Type 0 where
  legacy eof_v1 : CodeType

pub record HeaderMethods : Type 0 where
  pub header_base_fee_required : Bool
  pub header_prev_randao_required : Bool
  pub header_zero_difficulty_required : Bool
  pub header_withdrawals_required : Bool
  pub header_excess_blob_gas_required : Bool
  pub header_blob_gas_used_required : Bool
  pub header_beacon_root_required : Bool
  pub header_requests_required : Bool

pub record BlobMethods : Type 0 where
  pub min_base_fee_per_blob_gas : Result ℕ
  pub blob_base_fee_update_fraction : Result ℕ
  pub blob_gas_per_blob : ℕ
  pub supports_blobs : Bool
  pub target_blobs_per_block : Result ℕ
  pub max_blobs_per_block : Result ℕ
  pub full_blob_tx_wrapper_version : Result (Option ℕ)

-- `engine_forkchoice_updated_version` and `engine_get_payload_version` are given the version of
-- `cls.engine_new_payload_version()`.
pub record EngineMethods : Type 0 where
  pub engine_new_payload_version : Option ℕ
  pub engine_new_payload_blob_hashes : Bool
  pub engine_new_payload_beacon_root : Bool
  pub engine_new_payload_requests : Bool
  pub engine_new_payload_target_blobs_per_block : Bool
  pub engine_payload_attribute_target_blobs_per_block : Bool
  pub engine_payload_attribute_max_blobs_per_block : Bool
  pub engine_forkchoice_updated_version : Option ℕ → Option ℕ
  pub engine_get_payload_version : Option ℕ → Option ℕ
  pub engine_get_blobs_version : Option ℕ

pub record BlockMethods : Type 0 where
  pub get_reward : ℕ
  pub tx_types : List ℕ
  pub contract_creating_tx_types : List ℕ
  pub transaction_gas_limit_cap : Option ℕ
  pub block_rlp_size_limit : Option ℕ
  pub precompiles : List Address
  pub system_contracts : List Address

pub record CodeMethods : Type 0 where
  pub evm_code_types : List CodeType
  pub max_code_size : ℕ
  pub max_stack_height : ℕ
  pub max_initcode_size : ℕ
  pub call_opcodes : List (Opcode × CodeType)
  pub valid_opcodes : List Opcode
  pub create_opcodes : List (Opcode × CodeType)
  pub max_request_type : ℤ

pub record Methods : Type 0 where
  pub header : HeaderMethods
  pub gas_costs : GasCosts
  pub blobs : BlobMethods
  pub engine : EngineMethods
  pub block : BlockMethods
  pub code : CodeMethods
  pub is_deployed : Bool
