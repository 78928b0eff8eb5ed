-- ===== src/Fork/Gas/Calldata.antt =====
-- The gas of calldata (src/ethereum_test_forks/forks/forks.py).
use execution_spec_tests_gno.Base.{
  ℕ, suc, ◌+◌, ◌*◌, ◌≡◌, ap, ◌==◌, if◌then◌else◌, true, false, arith, [], ◌∷◌, Bool-cases, inl, inr,
}
use native.Mathlib.Nat.{mul-suc}
use execution_spec_tests_gno.Base.Bytes.{Bytes}
use execution_spec_tests_gno.Fork.GasCosts.{GasCosts}
use execution_spec_tests_gno.Fork.Gas.{byte_costs, frontier_calldata, tokens_from, prague_calldata}

-- The number of zero bytes.
abbrev pub zeros : Bytes → ℕ
zeros [] = 0
zeros (b ∷ bs) = if b == 0 then suc (zeros bs) else zeros bs

-- The number of the other bytes.
abbrev pub non_zeros : Bytes → ℕ
non_zeros [] = 0
non_zeros (b ∷ bs) = if b == 0 then non_zeros bs else suc (non_zeros bs)

byte_costs-eq :
    (g : GasCosts) (cost : ℕ) (bs : Bytes)
    → byte_costs g cost bs
      ≡ cost + g.g_tx_data_zero * zeros bs + g.g_tx_data_non_zero * non_zeros bs
unfolding byte_costs
byte_costs-eq g cost [] = omega arith
byte_costs-eq g cost (b ∷ bs) =
    let zero_rest = byte_costs-eq g (cost + g.g_tx_data_zero) bs in
    let rest = byte_costs-eq g (cost + g.g_tx_data_non_zero) bs in
    let more_zeros = mul-suc g.g_tx_data_zero (zeros bs) in
    let more_others = mul-suc g.g_tx_data_non_zero (non_zeros bs) in
    elim (Bool-cases (b == 0)) [ inl h ↦ ground arith | inr h ↦ ground arith ]

tokens_from-eq :
    (tokens : ℕ) (bs : Bytes) → tokens_from tokens bs ≡ tokens + zeros bs + 4 * non_zeros bs
unfolding tokens_from
tokens_from-eq tokens [] = omega arith
tokens_from-eq tokens (b ∷ bs) =
    let zero_rest = tokens_from-eq (tokens + 1) bs in
    let rest = tokens_from-eq (tokens + 4) bs in
    elim (Bool-cases (b == 0)) [ inl h ↦ ground arith | inr h ↦ ground arith ]

-- Each zero byte and each other byte has its cost.
pub frontier_calldata-eq :
    (g : GasCosts) (bs : Bytes)
    → frontier_calldata g bs false
      ≡ g.g_tx_data_zero * zeros bs + g.g_tx_data_non_zero * non_zeros bs
unfolding frontier_calldata
frontier_calldata-eq g bs = let costs = byte_costs-eq g 0 bs in omega arith

-- A zero byte is one token, another byte four; a token has its standard cost and its floor cost.
pub prague_calldata-eq :
    (g : GasCosts) (bs : Bytes)
    → (prague_calldata g bs false ≡ (zeros bs + 4 * non_zeros bs) * g.g_tx_data_standard_token_cost)
      × (prague_calldata g bs true ≡ (zeros bs + 4 * non_zeros bs) * g.g_tx_data_floor_token_cost)
unfolding prague_calldata
prague_calldata-eq g bs =
    let counted = tokens_from-eq 0 bs in
    let tokens : tokens_from 0 bs ≡ zeros bs + 4 * non_zeros bs = omega arith in
    (
      ap (λ t. t * g.g_tx_data_standard_token_cost) tokens,
      ap (λ t. t * g.g_tx_data_floor_token_cost) tokens,
    )
