-- ===== src/Opcode/Table/Arithmetic.antt =====
-- The opcodes of the enum `Opcodes`: arithmetic, comparison and bit operations (src/ethereum_test_vm/opcode.py).
use execution_spec_tests_gno.Base.{List, [], ◌∷◌, true}
use execution_spec_tests_gno.Opcode.Arg.{Opcode, defaults}
use execution_spec_tests_gno.Opcode.New.{new}

abbrev pub stop : Opcode
stop = new 0x00 (record defaults { terminating = true })

abbrev pub add : Opcode
add = new 0x01 (record defaults { popped_stack_items = 2; pushed_stack_items = 1 })

abbrev pub mul : Opcode
mul = new 0x02 (record defaults { popped_stack_items = 2; pushed_stack_items = 1 })

abbrev pub sub : Opcode
sub = new 0x03 (record defaults { popped_stack_items = 2; pushed_stack_items = 1 })

abbrev pub div : Opcode
div = new 0x04 (record defaults { popped_stack_items = 2; pushed_stack_items = 1 })

abbrev pub sdiv : Opcode
sdiv = new 0x05 (record defaults { popped_stack_items = 2; pushed_stack_items = 1 })

abbrev pub modulo : Opcode
modulo = new 0x06 (record defaults { popped_stack_items = 2; pushed_stack_items = 1 })

abbrev pub smod : Opcode
smod = new 0x07 (record defaults { popped_stack_items = 2; pushed_stack_items = 1 })

abbrev pub addmod : Opcode
addmod = new 0x08 (record defaults { popped_stack_items = 3; pushed_stack_items = 1 })

abbrev pub mulmod : Opcode
mulmod = new 0x09 (record defaults { popped_stack_items = 3; pushed_stack_items = 1 })

abbrev pub exp : Opcode
exp = new 0x0a (record defaults { popped_stack_items = 2; pushed_stack_items = 1 })

abbrev pub signextend : Opcode
signextend = new 0x0b (record defaults { popped_stack_items = 2; pushed_stack_items = 1 })

abbrev pub lt : Opcode
lt = new 0x10 (record defaults { popped_stack_items = 2; pushed_stack_items = 1 })

abbrev pub gt : Opcode
gt = new 0x11 (record defaults { popped_stack_items = 2; pushed_stack_items = 1 })

abbrev pub slt : Opcode
slt = new 0x12 (record defaults { popped_stack_items = 2; pushed_stack_items = 1 })

abbrev pub sgt : Opcode
sgt = new 0x13 (record defaults { popped_stack_items = 2; pushed_stack_items = 1 })

abbrev pub eq : Opcode
eq = new 0x14 (record defaults { popped_stack_items = 2; pushed_stack_items = 1 })

abbrev pub iszero : Opcode
iszero = new 0x15 (record defaults { popped_stack_items = 1; pushed_stack_items = 1 })

abbrev pub and : Opcode
and = new 0x16 (record defaults { popped_stack_items = 2; pushed_stack_items = 1 })

abbrev pub or : Opcode
or = new 0x17 (record defaults { popped_stack_items = 2; pushed_stack_items = 1 })

abbrev pub xor : Opcode
xor = new 0x18 (record defaults { popped_stack_items = 2; pushed_stack_items = 1 })

abbrev pub not : Opcode
not = new 0x19 (record defaults { popped_stack_items = 1; pushed_stack_items = 1 })

abbrev pub byte : Opcode
byte = new 0x1a (record defaults { popped_stack_items = 2; pushed_stack_items = 1 })

abbrev pub shl : Opcode
shl = new 0x1b (record defaults { popped_stack_items = 2; pushed_stack_items = 1 })

abbrev pub shr : Opcode
shr = new 0x1c (record defaults { popped_stack_items = 2; pushed_stack_items = 1 })

abbrev pub sar : Opcode
sar = new 0x1d (record defaults { popped_stack_items = 2; pushed_stack_items = 1 })

abbrev pub clz : Opcode
clz = new 0x1e (record defaults { popped_stack_items = 1; pushed_stack_items = 1 })

-- In the order of the source.
abbrev pub arithmetic_opcodes : List Opcode
arithmetic_opcodes =
    stop ∷ add ∷ mul ∷ sub ∷ div ∷ sdiv ∷ modulo ∷ smod ∷ addmod ∷ mulmod ∷ exp ∷ signextend ∷ lt
    ∷ gt ∷ slt ∷ sgt ∷ eq ∷ iszero ∷ and ∷ or ∷ xor ∷ not ∷ byte ∷ shl ∷ shr ∷ sar ∷ clz ∷ []
