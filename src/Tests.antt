-- ===== src/Tests.antt =====
-- The theorems at concrete inputs, and runs of the definitions.
mod Bytecodes
mod Opcodes
mod Storages
mod Forks
mod Gas
mod Eofs
mod Tries
mod Allocs
mod Codes
mod Conversions
