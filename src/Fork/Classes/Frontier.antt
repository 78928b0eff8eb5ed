-- ===== src/Fork/Classes/Frontier.antt =====
-- The methods of `Frontier` (src/ethereum_test_forks/forks/forks.py).
use execution_spec_tests_gno.Base.{
  true, false, none, List, [], ◌∷◌, Result, raise, not_implemented_error,
}
use execution_spec_tests_gno.Base.Int.{negsuc}
use execution_spec_tests_gno.Opcode.Arg.{Opcode}
use execution_spec_tests_gno.Opcode.Table.Arithmetic.{
  add, addmod, and, byte, div, eq, exp, gt, iszero, lt, modulo, mul, mulmod, not, or, sdiv, sgt,
  signextend, slt, smod, stop, sub, xor,
}
use execution_spec_tests_gno.Opcode.Table.Calls.{call, callcode, create, return, selfdestruct}
use execution_spec_tests_gno.Opcode.Table.Environment.{
  address, balance, blockhash, calldatacopy, calldataload, calldatasize, caller, callvalue,
  codecopy, codesize, coinbase, extcodecopy, extcodesize, gaslimit, gasprice, number, origin,
  prevrandao, sha3, timestamp,
}
use execution_spec_tests_gno.Opcode.Table.Memory.{
  gas, jump, jumpdest, jumpi, mload, msize, mstore, mstore8, pc, pop, sload, sstore,
}
use execution_spec_tests_gno.Opcode.Table.Pushes.{
  push1, push10, push11, push12, push13, push14, push15, push16, push17, push18, push19, push2,
  push20, push21, push22, push23, push24, push25, push26, push27, push28, push29, push3, push30,
  push31, push32, push4, push5, push6, push7, push8, push9,
}
use execution_spec_tests_gno.Opcode.Table.Stack.{
  dup1, dup10, dup11, dup12, dup13, dup14, dup15, dup16, dup2, dup3, dup4, dup5, dup6, dup7, dup8,
  dup9, swap1, swap10, swap11, swap12, swap13, swap14, swap15, swap16, swap2, swap3, swap4, swap5,
  swap6, swap7, swap8, swap9,
}
use execution_spec_tests_gno.Opcode.Table.System.{log0, log1, log2, log3, log4}
use execution_spec_tests_gno.Fork.GasCosts.{frontier_costs}
use execution_spec_tests_gno.Fork.Methods.{
  HeaderMethods, BlobMethods, EngineMethods, BlockMethods, CodeMethods, Methods, legacy,
}

abbrev pub frontier_header : HeaderMethods
frontier_header = record {
  header_base_fee_required = false;
  header_prev_randao_required = false;
  header_zero_difficulty_required = false;
  header_withdrawals_required = false;
  header_excess_blob_gas_required = false;
  header_blob_gas_used_required = false;
  header_beacon_root_required = false;
  header_requests_required = false;
}

abbrev unsupported {ℓ} : {A : Type ℓ} → Result A
unsupported = raise not_implemented_error

abbrev pub frontier_blobs : BlobMethods
frontier_blobs = record {
  min_base_fee_per_blob_gas = unsupported;
  blob_base_fee_update_fraction = unsupported;
  blob_gas_per_blob = 0;
  supports_blobs = false;
  target_blobs_per_block = unsupported;
  max_blobs_per_block = unsupported;
  full_blob_tx_wrapper_version = unsupported;
}

abbrev pub frontier_engine : EngineMethods
frontier_engine = record {
  engine_new_payload_version = none;
  engine_new_payload_blob_hashes = false;
  engine_new_payload_beacon_root = false;
  engine_new_payload_requests = false;
  engine_new_payload_target_blobs_per_block = false;
  engine_payload_attribute_target_blobs_per_block = false;
  engine_payload_attribute_max_blobs_per_block = false;
  engine_forkchoice_updated_version = λ new_payload. new_payload;
  engine_get_payload_version = λ new_payload. new_payload;
  engine_get_blobs_version = none;
}

abbrev pub frontier_block : BlockMethods
frontier_block = record {
  get_reward = 5_000_000_000_000_000_000;
  tx_types = 0 ∷ [];
  contract_creating_tx_types = 0 ∷ [];
  transaction_gas_limit_cap = none;
  block_rlp_size_limit = none;
  precompiles = [];
  system_contracts = [];
}

abbrev pub frontier_opcodes : List Opcode
frontier_opcodes =
    stop ∷ add ∷ mul ∷ sub ∷ div ∷ sdiv ∷ modulo ∷ smod ∷ addmod ∷ mulmod ∷ exp ∷ signextend ∷ lt
    ∷ gt ∷ slt ∷ sgt ∷ eq ∷ iszero ∷ and ∷ or ∷ xor ∷ not ∷ byte ∷ sha3 ∷ address ∷ balance ∷ origin
    ∷ caller ∷ callvalue ∷ calldataload ∷ calldatasize ∷ calldatacopy ∷ codesize ∷ codecopy
    ∷ gasprice ∷ extcodesize ∷ extcodecopy ∷ blockhash ∷ coinbase ∷ timestamp ∷ number ∷ prevrandao
    ∷ gaslimit ∷ pop ∷ mload ∷ mstore ∷ mstore8 ∷ sload ∷ sstore ∷ pc ∷ msize ∷ gas ∷ jump ∷ jumpi
    ∷ jumpdest ∷ push1 ∷ push2 ∷ push3 ∷ push4 ∷ push5 ∷ push6 ∷ push7 ∷ push8 ∷ push9 ∷ push10
    ∷ push11 ∷ push12 ∷ push13 ∷ push14 ∷ push15 ∷ push16 ∷ push17 ∷ push18 ∷ push19 ∷ push20
    ∷ push21 ∷ push22 ∷ push23 ∷ push24 ∷ push25 ∷ push26 ∷ push27 ∷ push28 ∷ push29 ∷ push30
    ∷ push31 ∷ push32 ∷ dup1 ∷ dup2 ∷ dup3 ∷ dup4 ∷ dup5 ∷ dup6 ∷ dup7 ∷ dup8 ∷ dup9 ∷ dup10 ∷ dup11
    ∷ dup12 ∷ dup13 ∷ dup14 ∷ dup15 ∷ dup16 ∷ swap1 ∷ swap2 ∷ swap3 ∷ swap4 ∷ swap5 ∷ swap6 ∷ swap7
    ∷ swap8 ∷ swap9 ∷ swap10 ∷ swap11 ∷ swap12 ∷ swap13 ∷ swap14 ∷ swap15 ∷ swap16 ∷ log0 ∷ log1
    ∷ log2 ∷ log3 ∷ log4 ∷ create ∷ call ∷ callcode ∷ return ∷ selfdestruct ∷ []

abbrev pub frontier_code : CodeMethods
frontier_code = record {
  evm_code_types = legacy ∷ [];
  max_code_size = 0x6000;
  max_stack_height = 1024;
  max_initcode_size = 0xC000;
  call_opcodes = (call, legacy) ∷ (callcode, legacy) ∷ [];
  valid_opcodes = frontier_opcodes;
  create_opcodes = (create, legacy) ∷ [];
  max_request_type = negsuc 0;
}

-- `Frontier`; `is_deployed` is that of `BaseFork`.
abbrev pub frontier_methods : Methods
frontier_methods = record {
  header = frontier_header;
  gas_costs = frontier_costs;
  blobs = frontier_blobs;
  engine = frontier_engine;
  block = frontier_block;
  code = frontier_code;
  is_deployed = true;
}
