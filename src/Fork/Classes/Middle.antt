-- ===== src/Fork/Classes/Middle.antt =====
-- The methods of `Berlin` to `Shanghai` (src/ethereum_test_forks/forks/forks.py).
use execution_spec_tests_gno.Base.{true, some, ◌∷◌}
use execution_spec_tests_gno.Opcode.Table.Environment.{basefee}
use execution_spec_tests_gno.Opcode.Table.Memory.{push0}
use execution_spec_tests_gno.Fork.Methods.{Methods}
use execution_spec_tests_gno.Fork.Classes.Early.{istanbul_methods}

abbrev pub berlin_methods : Methods
berlin_methods = record istanbul_methods {
  block = record istanbul_methods.block {
    tx_types = 1 ∷ istanbul_methods.block.tx_types;
    contract_creating_tx_types = 1 ∷ istanbul_methods.block.contract_creating_tx_types;
  };
}

abbrev pub london_methods : Methods
london_methods = record berlin_methods {
  header = record berlin_methods.header { header_base_fee_required = true };
  block = record berlin_methods.block {
    tx_types = 2 ∷ berlin_methods.block.tx_types;
    contract_creating_tx_types = 2 ∷ berlin_methods.block.contract_creating_tx_types;
  };
  code = record berlin_methods.code { valid_opcodes = basefee ∷ berlin_methods.code.valid_opcodes };
}

-- `ArrowGlacier`
abbrev pub arrow_glacier_methods : Methods
arrow_glacier_methods = london_methods

-- `GrayGlacier`
abbrev pub gray_glacier_methods : Methods
gray_glacier_methods = arrow_glacier_methods

abbrev pub paris_methods : Methods
paris_methods = record london_methods {
  header = record london_methods.header {
    header_prev_randao_required = true;
    header_zero_difficulty_required = true;
  };
  block = record london_methods.block { get_reward = 0 };
  engine = record london_methods.engine { engine_new_payload_version = some 1 };
}

abbrev pub shanghai_methods : Methods
shanghai_methods = record paris_methods {
  header = record paris_methods.header { header_withdrawals_required = true };
  engine = record paris_methods.engine { engine_new_payload_version = some 2 };
  code = record paris_methods.code {
    max_initcode_size = 0xC000;
    valid_opcodes = push0 ∷ paris_methods.code.valid_opcodes;
  };
}
