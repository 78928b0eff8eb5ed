-- ===== src/Opcode.antt =====
-- Opcodes as callable bytecode: src/ethereum_test_vm/opcode.py. The children hold the argument types,
-- the constructor, the encoders of data portions, the tables of the enums, the pushes and the call.
pub mod Arg
pub mod Size
pub mod New
pub mod Encoders
pub mod Table
pub mod Push
pub mod Call
