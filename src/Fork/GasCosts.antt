-- ===== src/Fork/GasCosts.antt =====
-- The gas cost constants of a fork (src/ethereum_test_forks/gas_costs.py), and those of Frontier
-- (src/ethereum_test_forks/forks/forks.py).
use execution_spec_tests_gno.Base.{ℕ}

pub record GasCosts : Type 0 where
  pub g_jumpdest : ℕ
  pub g_base : ℕ
  pub g_very_low : ℕ
  pub g_low : ℕ
  pub g_mid : ℕ
  pub g_high : ℕ
  pub g_warm_account_access : ℕ
  pub g_cold_account_access : ℕ
  pub g_access_list_address : ℕ
  pub g_access_list_storage : ℕ
  pub g_warm_sload : ℕ
  pub g_cold_sload : ℕ
  pub g_storage_set : ℕ
  pub g_storage_reset : ℕ
  pub r_storage_clear : ℕ
  pub g_self_destruct : ℕ
  pub g_create : ℕ
  pub g_code_deposit_byte : ℕ
  pub g_initcode_word : ℕ
  pub g_call_value : ℕ
  pub g_call_stipend : ℕ
  pub g_new_account : ℕ
  pub g_exp : ℕ
  pub g_exp_byte : ℕ
  pub g_memory : ℕ
  pub g_tx_data_zero : ℕ
  pub g_tx_data_non_zero : ℕ
  pub g_tx_data_standard_token_cost : ℕ
  pub g_tx_data_floor_token_cost : ℕ
  pub g_transaction : ℕ
  pub g_transaction_create : ℕ
  pub g_log : ℕ
  pub g_log_data : ℕ
  pub g_log_topic : ℕ
  pub g_keccak_256 : ℕ
  pub g_keccak_256_word : ℕ
  pub g_copy : ℕ
  pub g_blockhash : ℕ
  pub g_authorization : ℕ
  pub r_authorization_existing_authority : ℕ

-- `Frontier.gas_costs`
abbrev pub frontier_costs : GasCosts
frontier_costs = record {
  g_jumpdest = 1;
  g_base = 2;
  g_very_low = 3;
  g_low = 5;
  g_mid = 8;
  g_high = 10;
  g_warm_account_access = 100;
  g_cold_account_access = 2_600;
  g_access_list_address = 2_400;
  g_access_list_storage = 1_900;
  g_warm_sload = 100;
  g_cold_sload = 2_100;
  g_storage_set = 20_000;
  g_storage_reset = 2_900;
  r_storage_clear = 4_800;
  g_self_destruct = 5_000;
  g_create = 32_000;
  g_code_deposit_byte = 200;
  g_initcode_word = 2;
  g_call_value = 9_000;
  g_call_stipend = 2_300;
  g_new_account = 25_000;
  g_exp = 10;
  g_exp_byte = 50;
  g_memory = 3;
  g_tx_data_zero = 4;
  g_tx_data_non_zero = 68;
  g_tx_data_standard_token_cost = 0;
  g_tx_data_floor_token_cost = 0;
  g_transaction = 21_000;
  g_transaction_create = 32_000;
  g_log = 375;
  g_log_data = 8;
  g_log_topic = 375;
  g_keccak_256 = 30;
  g_keccak_256_word = 6;
  g_copy = 3;
  g_blockhash = 20;
  g_authorization = 0;
  r_authorization_existing_authority = 0;
}
