-- ===== src/Fork.antt =====
-- Forks: src/ethereum_test_forks.
pub mod GasCosts
pub mod Gas
pub mod Blob
pub mod Methods
pub mod Classes
pub mod Transition
pub mod Ranges
pub mod Calculators
pub mod PreAllocation
