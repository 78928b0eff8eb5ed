-- ===== src/Eof.antt =====
-- EVM Object Format, version 1 (src/ethereum_test_types/eof/v1/__init__.py).
pub mod Stack
pub mod Section
pub mod Container
pub mod Entries
pub mod Headers
