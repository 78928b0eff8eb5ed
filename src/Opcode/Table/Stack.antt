-- ===== src/Opcode/Table/Stack.antt =====
-- The opcodes of the enum `Opcodes`: `DUP1` to `SWAP16` (src/ethereum_test_vm/opcode.py).
use execution_spec_tests_gno.Base.{List, [], ◌∷◌, some}
use execution_spec_tests_gno.Opcode.Arg.{Opcode, defaults}
use execution_spec_tests_gno.Opcode.New.{new}

abbrev pub dup1 : Opcode
dup1 = new 0x80 (record defaults { pushed_stack_items = 1; min_stack_height = some 1 })

abbrev pub dup2 : Opcode
dup2 = new 0x81 (record defaults { pushed_stack_items = 1; min_stack_height = some 2 })

abbrev pub dup3 : Opcode
dup3 = new 0x82 (record defaults { pushed_stack_items = 1; min_stack_height = some 3 })

abbrev pub dup4 : Opcode
dup4 = new 0x83 (record defaults { pushed_stack_items = 1; min_stack_height = some 4 })

abbrev pub dup5 : Opcode
dup5 = new 0x84 (record defaults { pushed_stack_items = 1; min_stack_height = some 5 })

abbrev pub dup6 : Opcode
dup6 = new 0x85 (record defaults { pushed_stack_items = 1; min_stack_height = some 6 })

abbrev pub dup7 : Opcode
dup7 = new 0x86 (record defaults { pushed_stack_items = 1; min_stack_height = some 7 })

abbrev pub dup8 : Opcode
dup8 = new 0x87 (record defaults { pushed_stack_items = 1; min_stack_height = some 8 })

abbrev pub dup9 : Opcode
dup9 = new 0x88 (record defaults { pushed_stack_items = 1; min_stack_height = some 9 })

abbrev pub dup10 : Opcode
dup10 = new 0x89 (record defaults { pushed_stack_items = 1; min_stack_height = some 10 })

abbrev pub dup11 : Opcode
dup11 = new 0x8a (record defaults { pushed_stack_items = 1; min_stack_height = some 11 })

abbrev pub dup12 : Opcode
dup12 = new 0x8b (record defaults { pushed_stack_items = 1; min_stack_height = some 12 })

abbrev pub dup13 : Opcode
dup13 = new 0x8c (record defaults { pushed_stack_items = 1; min_stack_height = some 13 })

abbrev pub dup14 : Opcode
dup14 = new 0x8d (record defaults { pushed_stack_items = 1; min_stack_height = some 14 })

abbrev pub dup15 : Opcode
dup15 = new 0x8e (record defaults { pushed_stack_items = 1; min_stack_height = some 15 })

abbrev pub dup16 : Opcode
dup16 = new 0x8f (record defaults { pushed_stack_items = 1; min_stack_height = some 16 })

abbrev pub swap1 : Opcode
swap1 = new 0x90 (record defaults { min_stack_height = some 2 })

abbrev pub swap2 : Opcode
swap2 = new 0x91 (record defaults { min_stack_height = some 3 })

abbrev pub swap3 : Opcode
swap3 = new 0x92 (record defaults { min_stack_height = some 4 })

abbrev pub swap4 : Opcode
swap4 = new 0x93 (record defaults { min_stack_height = some 5 })

abbrev pub swap5 : Opcode
swap5 = new 0x94 (record defaults { min_stack_height = some 6 })

abbrev pub swap6 : Opcode
swap6 = new 0x95 (record defaults { min_stack_height = some 7 })

abbrev pub swap7 : Opcode
swap7 = new 0x96 (record defaults { min_stack_height = some 8 })

abbrev pub swap8 : Opcode
swap8 = new 0x97 (record defaults { min_stack_height = some 9 })

abbrev pub swap9 : Opcode
swap9 = new 0x98 (record defaults { min_stack_height = some 10 })

abbrev pub swap10 : Opcode
swap10 = new 0x99 (record defaults { min_stack_height = some 11 })

abbrev pub swap11 : Opcode
swap11 = new 0x9a (record defaults { min_stack_height = some 12 })

abbrev pub swap12 : Opcode
swap12 = new 0x9b (record defaults { min_stack_height = some 13 })

abbrev pub swap13 : Opcode
swap13 = new 0x9c (record defaults { min_stack_height = some 14 })

abbrev pub swap14 : Opcode
swap14 = new 0x9d (record defaults { min_stack_height = some 15 })

abbrev pub swap15 : Opcode
swap15 = new 0x9e (record defaults { min_stack_height = some 16 })

abbrev pub swap16 : Opcode
swap16 = new 0x9f (record defaults { min_stack_height = some 17 })

-- In the order of the source.
abbrev pub stack_opcodes : List Opcode
stack_opcodes =
    dup1 ∷ dup2 ∷ dup3 ∷ dup4 ∷ dup5 ∷ dup6 ∷ dup7 ∷ dup8 ∷ dup9 ∷ dup10 ∷ dup11 ∷ dup12 ∷ dup13
    ∷ dup14 ∷ dup15 ∷ dup16 ∷ swap1 ∷ swap2 ∷ swap3 ∷ swap4 ∷ swap5 ∷ swap6 ∷ swap7 ∷ swap8 ∷ swap9
    ∷ swap10 ∷ swap11 ∷ swap12 ∷ swap13 ∷ swap14 ∷ swap15 ∷ swap16 ∷ []
