-- ===== src/Fork/Classes/Late.antt =====
-- The methods of `Cancun` to `EOFv1` (src/ethereum_test_forks/forks/forks.py). `super(Prague, cls)` of
-- `Osaka.valid_opcodes` passes by Prague, which has no such method of its own.
use execution_spec_tests_gno.Base.{false, true, none, some, [], ◌∷◌, ◌++◌, ok, ◌-◌, ◌^◌}
use execution_spec_tests_gno.Base.Int.{pos}
use execution_spec_tests_gno.Opcode.Table.Arithmetic.{clz}
use execution_spec_tests_gno.Opcode.Table.Calls.{extcall, extdelegatecall, extstaticcall}
use execution_spec_tests_gno.Opcode.Table.Environment.{blobbasefee, blobhash}
use execution_spec_tests_gno.Opcode.Table.Memory.{mcopy, tload, tstore}
use execution_spec_tests_gno.Fork.Methods.{
  Methods, HeaderMethods, BlobMethods, EngineMethods, BlockMethods, eof_v1,
}
use execution_spec_tests_gno.Fork.Classes.Middle.{shanghai_methods}

abbrev pub cancun_header : HeaderMethods
cancun_header = record shanghai_methods.header {
  header_excess_blob_gas_required = true;
  header_blob_gas_used_required = true;
  header_beacon_root_required = true;
}

abbrev pub cancun_blobs : BlobMethods
cancun_blobs = record shanghai_methods.blobs {
  min_base_fee_per_blob_gas = ok 1;
  blob_base_fee_update_fraction = ok 3338477;
  blob_gas_per_blob = 2 ^ 17;
  supports_blobs = true;
  target_blobs_per_block = ok 3;
  max_blobs_per_block = ok 6;
  full_blob_tx_wrapper_version = ok none;
}

abbrev pub cancun_block : BlockMethods
cancun_block = record shanghai_methods.block {
  tx_types = 3 ∷ shanghai_methods.block.tx_types;
  precompiles =
      record { value = 10; label = "KZG_POINT_EVALUATION" } ∷ shanghai_methods.block.precompiles;
  system_contracts =
      record { value = 0x000F3DF6D732807EF1319FB7B8BB8522D0BEAC02; label = "BEACON_ROOTS_ADDRESS" }
      ∷ [];
}

abbrev pub cancun_engine : EngineMethods
cancun_engine = record shanghai_methods.engine {
  engine_new_payload_version = some 3;
  engine_get_blobs_version = some 1;
  engine_new_payload_blob_hashes = true;
  engine_new_payload_beacon_root = true;
}

abbrev pub cancun_methods : Methods
cancun_methods = record shanghai_methods {
  header = cancun_header;
  blobs = cancun_blobs;
  block = cancun_block;
  engine = cancun_engine;
  code = record shanghai_methods.code {
    valid_opcodes =
        blobhash ∷ blobbasefee ∷ tload ∷ tstore ∷ mcopy ∷ shanghai_methods.code.valid_opcodes;
  };
}

abbrev pub prague_block : BlockMethods
prague_block = record cancun_methods.block {
  precompiles =
      record { value = 11; label = "BLS12_G1ADD" }
      ∷ record { value = 12; label = "BLS12_G1MSM" }
      ∷ record { value = 13; label = "BLS12_G2ADD" }
      ∷ record { value = 14; label = "BLS12_G2MSM" }
      ∷ record { value = 15; label = "BLS12_PAIRING_CHECK" }
      ∷ record { value = 16; label = "BLS12_MAP_FP_TO_G1" }
      ∷ record { value = 17; label = "BLS12_MAP_FP2_TO_G2" }
      ∷ cancun_methods.block.precompiles;
  tx_types = 4 ∷ cancun_methods.block.tx_types;
  system_contracts =
      record {
        value = 0x00000000219AB540356CBB839CBE05303D7705FA;
        label = "DEPOSIT_CONTRACT_ADDRESS";
      }
      ∷ record {
        value = 0x00000961EF480EB55E80D19AD83579A64C007002;
        label = "WITHDRAWAL_REQUEST_PREDEPLOY_ADDRESS";
      }
      ∷ record {
        value = 0x0000BBDDC7CE488642FB579F8B00F3A590007251;
        label = "CONSOLIDATION_REQUEST_PREDEPLOY_ADDRESS";
      }
      ∷ record {
        value = 0x0000F90827F1C53A10CB7A02335B175320002935;
        label = "HISTORY_STORAGE_ADDRESS";
      }
      ∷ cancun_methods.block.system_contracts;
}

abbrev pub prague_blobs : BlobMethods
prague_blobs = record cancun_methods.blobs {
  blob_base_fee_update_fraction = ok 5007716;
  target_blobs_per_block = ok 6;
  max_blobs_per_block = ok 9;
}

abbrev pub prague_engine : EngineMethods
prague_engine = record cancun_methods.engine {
  engine_new_payload_requests = true;
  engine_new_payload_version = some 4;
  engine_forkchoice_updated_version = λ new_payload. some 3;
}

abbrev pub prague_methods : Methods
prague_methods = record cancun_methods {
  header = record cancun_methods.header { header_requests_required = true };
  gas_costs = record cancun_methods.gas_costs {
    g_tx_data_standard_token_cost = 4;
    g_tx_data_floor_token_cost = 10;
    g_authorization = 25_000;
    r_authorization_existing_authority = 12_500;
  };
  blobs = prague_blobs;
  block = prague_block;
  engine = prague_engine;
  code = record cancun_methods.code { max_request_type = pos 2 };
  is_deployed = false;
}

abbrev pub osaka_methods : Methods
osaka_methods = record prague_methods {
  engine = record prague_methods.engine {
    engine_get_payload_version = λ new_payload. some 5;
    engine_get_blobs_version = some 2;
  };
  blobs = record prague_methods.blobs { full_blob_tx_wrapper_version = ok (some 1) };
  block = record prague_methods.block {
    transaction_gas_limit_cap = some 16_777_216;
    block_rlp_size_limit = some (10_485_760 - 2_097_152);
    precompiles = record { value = 0x100; label = "P256VERIFY" } ∷ prague_methods.block.precompiles;
  };
  code = record prague_methods.code { valid_opcodes = clz ∷ prague_methods.code.valid_opcodes };
  is_deployed = false;
}

-- `EOFv1`
abbrev pub eof_methods : Methods
eof_methods = record prague_methods {
  code = record prague_methods.code {
    evm_code_types = prague_methods.code.evm_code_types ++ (eof_v1 ∷ []);
    call_opcodes =
        (extcall, eof_v1)
        ∷ (extstaticcall, eof_v1)
        ∷ (extdelegatecall, eof_v1)
        ∷ prague_methods.code.call_opcodes;
  };
  is_deployed = false;
}
