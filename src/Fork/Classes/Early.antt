-- ===== src/Fork/Classes/Early.antt =====
-- The methods of `Homestead` to `MuirGlacier` (src/ethereum_test_forks/forks/forks.py). The parent's
-- methods are those that the class does not define, and `super(…)` is the parent's methods.
use execution_spec_tests_gno.Base.{◌∷◌}
use execution_spec_tests_gno.Opcode.Table.Arithmetic.{sar, shl, shr}
use execution_spec_tests_gno.Opcode.Table.Calls.{create2, delegatecall, revert, staticcall}
use execution_spec_tests_gno.Opcode.Table.Environment.{
  chainid, extcodehash, returndatacopy, returndatasize, selfbalance,
}
use execution_spec_tests_gno.Fork.Methods.{Methods, legacy}
use execution_spec_tests_gno.Fork.Classes.Frontier.{frontier_methods}

abbrev pub homestead_methods : Methods
homestead_methods = record frontier_methods {
  block = record frontier_methods.block {
    precompiles =
        record { value = 1; label = "ECREC" }
        ∷ record { value = 2; label = "SHA256" }
        ∷ record { value = 3; label = "RIPEMD160" }
        ∷ record { value = 4; label = "ID" }
        ∷ frontier_methods.block.precompiles;
  };
  code = record frontier_methods.code {
    call_opcodes = (delegatecall, legacy) ∷ frontier_methods.code.call_opcodes;
    valid_opcodes = delegatecall ∷ frontier_methods.code.valid_opcodes;
  };
}

-- `DAOFork`
abbrev pub dao_fork_methods : Methods
dao_fork_methods = homestead_methods

-- `Tangerine`
abbrev pub tangerine_methods : Methods
tangerine_methods = dao_fork_methods

-- `SpuriousDragon`
abbrev pub spurious_dragon_methods : Methods
spurious_dragon_methods = tangerine_methods

abbrev pub byzantium_methods : Methods
byzantium_methods = record homestead_methods {
  block = record homestead_methods.block {
    get_reward = 3_000_000_000_000_000_000;
    precompiles =
        record { value = 5; label = "MODEXP" }
        ∷ record { value = 6; label = "BN256_ADD" }
        ∷ record { value = 7; label = "BN256_MUL" }
        ∷ record { value = 8; label = "BN256_PAIRING" }
        ∷ homestead_methods.block.precompiles;
  };
  code = record homestead_methods.code {
    max_code_size = 0x6000;
    call_opcodes = (staticcall, legacy) ∷ homestead_methods.code.call_opcodes;
    valid_opcodes =
        revert ∷ returndatasize ∷ returndatacopy ∷ staticcall
        ∷ homestead_methods.code.valid_opcodes;
  };
}

abbrev pub constantinople_methods : Methods
constantinople_methods = record byzantium_methods {
  block = record byzantium_methods.block { get_reward = 2_000_000_000_000_000_000 };
  code = record byzantium_methods.code {
    create_opcodes = (create2, legacy) ∷ byzantium_methods.code.create_opcodes;
    valid_opcodes = shl ∷ shr ∷ sar ∷ extcodehash ∷ create2 ∷ byzantium_methods.code.valid_opcodes;
  };
}

-- `ConstantinopleFix`
abbrev pub constantinople_fix_methods : Methods
constantinople_fix_methods = constantinople_methods

abbrev pub istanbul_methods : Methods
istanbul_methods = record constantinople_fix_methods {
  gas_costs = record constantinople_fix_methods.gas_costs { g_tx_data_non_zero = 16 };
  block = record constantinople_fix_methods.block {
    precompiles =
        record { value = 9; label = "BLAKE2F" } ∷ constantinople_fix_methods.block.precompiles;
  };
  code = record constantinople_fix_methods.code {
    valid_opcodes = chainid ∷ selfbalance ∷ constantinople_fix_methods.code.valid_opcodes;
  };
}

-- `MuirGlacier`
abbrev pub muir_glacier_methods : Methods
muir_glacier_methods = istanbul_methods
