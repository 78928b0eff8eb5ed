-- ===== src/Opcode/Table.antt =====
-- The enums `Opcodes` and `UndefinedOpcodes` as lists (src/ethereum_test_vm/opcode.py).
pub mod Arithmetic
pub mod Environment
pub mod Memory
pub mod Pushes
pub mod Stack
pub mod System
pub mod Containers
pub mod Calls
pub mod Facts
use execution_spec_tests_gno.Base.{List, [], ◌∷◌, ◌++◌, map}
use execution_spec_tests_gno.Opcode.Arg.{Opcode, defaults}
use execution_spec_tests_gno.Opcode.New.{new}
use Arithmetic.{arithmetic_opcodes}
use Environment.{environment_opcodes}
use Memory.{memory_opcodes}
use Pushes.{pushes_opcodes}
use Stack.{stack_opcodes}
use System.{system_opcodes}
use Containers.{containers_opcodes}
use Calls.{calls_opcodes}

-- `Opcodes`
abbrev pub opcodes : List Opcode
opcodes =
    arithmetic_opcodes
    ++ (environment_opcodes
        ++ (memory_opcodes
            ++ (pushes_opcodes
                ++ (stack_opcodes ++ (system_opcodes ++ (containers_opcodes ++ calls_opcodes))))))

-- `UndefinedOpcodes`: each of them is `Opcode(b)`, of its byte.
abbrev pub undefined_opcodes : List Opcode
undefined_opcodes =
    map (λ b. new b defaults)
      (0x0c ∷ 0x0d ∷ 0x0e ∷ 0x0f ∷ 0x1e ∷ 0x1f ∷ 0x21 ∷ 0x22 ∷ 0x23 ∷ 0x24 ∷ 0x25 ∷ 0x26 ∷ 0x27
        ∷ 0x28 ∷ 0x29 ∷ 0x2a ∷ 0x2b ∷ 0x2c ∷ 0x2d ∷ 0x2e ∷ 0x2f ∷ 0x4b ∷ 0x4c ∷ 0x4d ∷ 0x4e ∷ 0x4f
        ∷ 0xa5 ∷ 0xa6 ∷ 0xa7 ∷ 0xa8 ∷ 0xa9 ∷ 0xaa ∷ 0xab ∷ 0xac ∷ 0xad ∷ 0xae ∷ 0xaf ∷ 0xb0 ∷ 0xb1
        ∷ 0xb2 ∷ 0xb3 ∷ 0xb4 ∷ 0xb5 ∷ 0xb6 ∷ 0xb7 ∷ 0xb8 ∷ 0xb9 ∷ 0xba ∷ 0xbb ∷ 0xbc ∷ 0xbd ∷ 0xbe
        ∷ 0xbf ∷ 0xc0 ∷ 0xc1 ∷ 0xc2 ∷ 0xc3 ∷ 0xc4 ∷ 0xc5 ∷ 0xc6 ∷ 0xc7 ∷ 0xc8 ∷ 0xc9 ∷ 0xca ∷ 0xcb
        ∷ 0xcc ∷ 0xcd ∷ 0xce ∷ 0xcf ∷ 0xd4 ∷ 0xd5 ∷ 0xd6 ∷ 0xd7 ∷ 0xd8 ∷ 0xd9 ∷ 0xda ∷ 0xdb ∷ 0xdc
        ∷ 0xdd ∷ 0xde ∷ 0xdf ∷ 0xe9 ∷ 0xea ∷ 0xeb ∷ 0xef ∷ 0xf6 ∷ 0xfc ∷ [])
