-- ===== src/Opcode/Table/Pushes.antt =====
-- The opcodes of the enum `Opcodes`: `PUSH1` to `PUSH32` (src/ethereum_test_vm/opcode.py).
use execution_spec_tests_gno.Base.{List, [], ◌∷◌}
use execution_spec_tests_gno.Opcode.Arg.{Opcode, defaults}
use execution_spec_tests_gno.Opcode.New.{new}

abbrev pub push1 : Opcode
push1 = new 0x60 (record defaults { pushed_stack_items = 1; data_portion_length = 1 })

abbrev pub push2 : Opcode
push2 = new 0x61 (record defaults { pushed_stack_items = 1; data_portion_length = 2 })

abbrev pub push3 : Opcode
push3 = new 0x62 (record defaults { pushed_stack_items = 1; data_portion_length = 3 })

abbrev pub push4 : Opcode
push4 = new 0x63 (record defaults { pushed_stack_items = 1; data_portion_length = 4 })

abbrev pub push5 : Opcode
push5 = new 0x64 (record defaults { pushed_stack_items = 1; data_portion_length = 5 })

abbrev pub push6 : Opcode
push6 = new 0x65 (record defaults { pushed_stack_items = 1; data_portion_length = 6 })

abbrev pub push7 : Opcode
push7 = new 0x66 (record defaults { pushed_stack_items = 1; data_portion_length = 7 })

abbrev pub push8 : Opcode
push8 = new 0x67 (record defaults { pushed_stack_items = 1; data_portion_length = 8 })

abbrev pub push9 : Opcode
push9 = new 0x68 (record defaults { pushed_stack_items = 1; data_portion_length = 9 })

abbrev pub push10 : Opcode
push10 = new 0x69 (record defaults { pushed_stack_items = 1; data_portion_length = 10 })

abbrev pub push11 : Opcode
push11 = new 0x6a (record defaults { pushed_stack_items = 1; data_portion_length = 11 })

abbrev pub push12 : Opcode
push12 = new 0x6b (record defaults { pushed_stack_items = 1; data_portion_length = 12 })

abbrev pub push13 : Opcode
push13 = new 0x6c (record defaults { pushed_stack_items = 1; data_portion_length = 13 })

abbrev pub push14 : Opcode
push14 = new 0x6d (record defaults { pushed_stack_items = 1; data_portion_length = 14 })

abbrev pub push15 : Opcode
push15 = new 0x6e (record defaults { pushed_stack_items = 1; data_portion_length = 15 })

abbrev pub push16 : Opcode
push16 = new 0x6f (record defaults { pushed_stack_items = 1; data_portion_length = 16 })

abbrev pub push17 : Opcode
push17 = new 0x70 (record defaults { pushed_stack_items = 1; data_portion_length = 17 })

abbrev pub push18 : Opcode
push18 = new 0x71 (record defaults { pushed_stack_items = 1; data_portion_length = 18 })

abbrev pub push19 : Opcode
push19 = new 0x72 (record defaults { pushed_stack_items = 1; data_portion_length = 19 })

abbrev pub push20 : Opcode
push20 = new 0x73 (record defaults { pushed_stack_items = 1; data_portion_length = 20 })

abbrev pub push21 : Opcode
push21 = new 0x74 (record defaults { pushed_stack_items = 1; data_portion_length = 21 })

abbrev pub push22 : Opcode
push22 = new 0x75 (record defaults { pushed_stack_items = 1; data_portion_length = 22 })

abbrev pub push23 : Opcode
push23 = new 0x76 (record defaults { pushed_stack_items = 1; data_portion_length = 23 })

abbrev pub push24 : Opcode
push24 = new 0x77 (record defaults { pushed_stack_items = 1; data_portion_length = 24 })

abbrev pub push25 : Opcode
push25 = new 0x78 (record defaults { pushed_stack_items = 1; data_portion_length = 25 })

abbrev pub push26 : Opcode
push26 = new 0x79 (record defaults { pushed_stack_items = 1; data_portion_length = 26 })

abbrev pub push27 : Opcode
push27 = new 0x7a (record defaults { pushed_stack_items = 1; data_portion_length = 27 })

abbrev pub push28 : Opcode
push28 = new 0x7b (record defaults { pushed_stack_items = 1; data_portion_length = 28 })

abbrev pub push29 : Opcode
push29 = new 0x7c (record defaults { pushed_stack_items = 1; data_portion_length = 29 })

abbrev pub push30 : Opcode
push30 = new 0x7d (record defaults { pushed_stack_items = 1; data_portion_length = 30 })

abbrev pub push31 : Opcode
push31 = new 0x7e (record defaults { pushed_stack_items = 1; data_portion_length = 31 })

abbrev pub push32 : Opcode
push32 = new 0x7f (record defaults { pushed_stack_items = 1; data_portion_length = 32 })

-- In the order of the source.
abbrev pub pushes_opcodes : List Opcode
pushes_opcodes =
    push1 ∷ push2 ∷ push3 ∷ push4 ∷ push5 ∷ push6 ∷ push7 ∷ push8 ∷ push9 ∷ push10 ∷ push11 ∷ push12
    ∷ push13 ∷ push14 ∷ push15 ∷ push16 ∷ push17 ∷ push18 ∷ push19 ∷ push20 ∷ push21 ∷ push22
    ∷ push23 ∷ push24 ∷ push25 ∷ push26 ∷ push27 ∷ push28 ∷ push29 ∷ push30 ∷ push31 ∷ push32 ∷ []
