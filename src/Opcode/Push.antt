-- ===== src/Opcode/Push.antt =====
-- `_stack_argument_to_bytecode`: an argument of an opcode as code that leaves it on the stack
-- (src/ethereum_test_vm/opcode.py).
pub mod Index
pub mod Read
pub mod Word
use execution_spec_tests_gno.Base.{
  ℕ, zero, suc, ◌+◌, ◌-◌, ◌*◌, ◌≤◌, ◌<◌, Bool, true, false, Option, none, some, List, [], ◌∷◌, ◌++◌,
  ltb, leb, ◌==◌, if◌then◌else◌, Result, ok, raise, value_error, index_error, ◌>>=◌, length,
  get_elem?,
}
use execution_spec_tests_gno.Base.Int.{ℤ, pos, negsuc}
use execution_spec_tests_gno.Base.Bytes.{Bytes, to_bytes_auto, lstrip}
use execution_spec_tests_gno.Bytecode.{Bytecode}
use execution_spec_tests_gno.Opcode.Arg.{Arg, int, raw, ints, code, Opcode}
use execution_spec_tests_gno.Opcode.Size.{get_int_size}
use execution_spec_tests_gno.Opcode.New.{get_item}
use execution_spec_tests_gno.Opcode.Table.Pushes.{pushes_opcodes}

-- `_push_opcodes_byte_list`
abbrev pub push_opcodes_byte_list : List Opcode
push_opcodes_byte_list = pushes_opcodes

-- `….[arg]` of an indexed opcode.
unfoldable pub push_with : Option Opcode → Bytes → Result Bytecode
unfolding get_item
push_with none b = raise index_error
push_with (some o) b = do pushed ← get_item o (raw b ∷ []); ok pushed.bytecode

-- `_push_opcodes_byte_list[data_size - 1][arg]`, of a positive size.
unfoldable pub push_constant : ℕ → Bytes → Result Bytecode
unfolding push_with
push_constant data_size b = push_with (get_elem? push_opcodes_byte_list (data_size - 1)) b

abbrev pub at_least_one : ℕ → ℕ
at_least_one zero = 1
at_least_one (suc k) = suc k

-- An integer, of the size that it takes; zero takes one byte.
unfoldable pub push_int : ℕ → ℤ → Result Bytecode
unfolding to_bytes_auto push_constant
push_int data_size n =
    if ltb 32 data_size
    then raise value_error
    else (do b ← to_bytes_auto (at_least_one data_size) n; push_constant (at_least_one data_size) b)

-- Bytes without their leading zeros; nothing left is the one byte zero.
unfoldable pub push_stripped : Bytes → Result Bytecode
unfolding push_constant
push_stripped [] = push_constant 1 (0 ∷ [])
push_stripped (b ∷ bs) = push_constant (length (b ∷ bs)) (b ∷ bs)

-- `bytes(ints)`
unfoldable pub bytes_of_ints : List ℤ → Result Bytes
bytes_of_ints [] = ok []
bytes_of_ints (negsuc m ∷ ns) = raise value_error
bytes_of_ints (pos n ∷ ns) = do
  rest ← bytes_of_ints ns
  if ltb n 256 then ok (n ∷ rest) else raise value_error

unfoldable pub stack_argument_to_bytecode : Arg → Result Bytecode
unfolding get_int_size push_int push_stripped lstrip bytes_of_ints
stack_argument_to_bytecode (code b) = ok b
stack_argument_to_bytecode (int n) = push_int (get_int_size n) n
stack_argument_to_bytecode (raw b) = push_stripped (lstrip b)
stack_argument_to_bytecode (ints ns) = do b ← bytes_of_ints ns; push_stripped (lstrip b)
