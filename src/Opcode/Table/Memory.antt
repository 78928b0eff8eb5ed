-- ===== src/Opcode/Table/Memory.antt =====
-- The opcodes of the enum `Opcodes`: memory, storage and control flow (src/ethereum_test_vm/opcode.py).
use execution_spec_tests_gno.Base.{List, [], ◌∷◌}
use execution_spec_tests_gno.Opcode.Arg.{Opcode, defaults}
use execution_spec_tests_gno.Opcode.New.{new}

abbrev pub pop : Opcode
pop = new 0x50 (record defaults { popped_stack_items = 1 })

abbrev pub mload : Opcode
mload =
    new 0x51
      (record defaults { popped_stack_items = 1; pushed_stack_items = 1; kwargs = "offset" ∷ [] })

abbrev pub mstore : Opcode
mstore = new 0x52 (record defaults { popped_stack_items = 2; kwargs = "offset" ∷ "value" ∷ [] })

abbrev pub mstore8 : Opcode
mstore8 = new 0x53 (record defaults { popped_stack_items = 2; kwargs = "offset" ∷ "value" ∷ [] })

abbrev pub sload : Opcode
sload =
    new 0x54
      (record defaults { popped_stack_items = 1; pushed_stack_items = 1; kwargs = "key" ∷ [] })

abbrev pub sstore : Opcode
sstore = new 0x55 (record defaults { popped_stack_items = 2; kwargs = "key" ∷ "value" ∷ [] })

abbrev pub jump : Opcode
jump = new 0x56 (record defaults { popped_stack_items = 1; kwargs = "pc" ∷ [] })

abbrev pub jumpi : Opcode
jumpi = new 0x57 (record defaults { popped_stack_items = 2; kwargs = "pc" ∷ "condition" ∷ [] })

abbrev pub pc : Opcode
pc = new 0x58 (record defaults { pushed_stack_items = 1 })

abbrev pub msize : Opcode
msize = new 0x59 (record defaults { pushed_stack_items = 1 })

abbrev pub gas : Opcode
gas = new 0x5a (record defaults { pushed_stack_items = 1 })

abbrev pub jumpdest : Opcode
jumpdest = new 0x5b defaults

abbrev pub noop : Opcode
noop = new 0x5b defaults

abbrev pub tload : Opcode
tload =
    new 0x5c
      (record defaults { popped_stack_items = 1; pushed_stack_items = 1; kwargs = "key" ∷ [] })

abbrev pub tstore : Opcode
tstore = new 0x5d (record defaults { popped_stack_items = 2; kwargs = "key" ∷ "value" ∷ [] })

abbrev pub mcopy : Opcode
mcopy =
    new 0x5e
      (record defaults { popped_stack_items = 3; kwargs = "dest_offset" ∷ "offset" ∷ "size" ∷ [] })

abbrev pub push0 : Opcode
push0 = new 0x5f (record defaults { pushed_stack_items = 1 })

-- In the order of the source.
abbrev pub memory_opcodes : List Opcode
memory_opcodes =
    pop ∷ mload ∷ mstore ∷ mstore8 ∷ sload ∷ sstore ∷ jump ∷ jumpi ∷ pc ∷ msize ∷ gas ∷ jumpdest
    ∷ noop ∷ tload ∷ tstore ∷ mcopy ∷ push0 ∷ []
