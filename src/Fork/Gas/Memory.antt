-- ===== src/Fork/Gas/Memory.antt =====
-- Memory expansion (src/ethereum_test_forks/forks/forks.py,
-- src/ethereum_test_forks/forks/helpers.py).
use execution_spec_tests_gno.Base.{
  ℕ, ◌+◌, ◌-◌, ◌*◌, ◌/◌, ◌≤◌, ◌<◌, ◌≡◌, leb, arith, Bool-cases, inl, inr,
}
use native.Mathlib.Nat.{mul-le-mul, le_refl, lt-div-mul-add, div-mul-le_self}
use execution_spec_tests_gno.Fork.GasCosts.{GasCosts}
use execution_spec_tests_gno.Fork.Gas.{ceiling_division, memory_cost, memory_expansion}

-- `ceiling_division` by a positive number is the least number of words that hold the bytes.
pub ceiling_division-bounds :
    (a b : ℕ) → 0 < b → (a ≤ ceiling_division a b * b) × (ceiling_division a b * b < a + b)
unfolding ceiling_division
ceiling_division-bounds a b h =
    let above : a + (b - 1) < (a + (b - 1)) / b * b + b = lt-div-mul-add h in
    let below = div-mul-le_self (a + (b - 1)) b in (omega arith, omega arith)

words_mono : (a c : ℕ) → a ≤ c → ceiling_division a 32 ≤ ceiling_division c 32
unfolding ceiling_division
words_mono a c h = omega arith

memory_cost_mono : (g : GasCosts) (v w : ℕ) → v ≤ w → memory_cost g v ≤ memory_cost g w
unfolding memory_cost
memory_cost_mono g v w h =
    let linear = mul-le-mul (le_refl g.g_memory) h in
    let squares = mul-le-mul h h in
    let halved : v * v / 512 ≤ w * w / 512 = omega arith in omega arith

-- The cost of the words that hold a number of bytes.
words_cost : GasCosts → ℕ → ℕ
words_cost g n = memory_cost g (ceiling_division n 32)

words_cost_mono : (g : GasCosts) (m n : ℕ) → m ≤ n → words_cost g m ≤ words_cost g n
unfolding words_cost
words_cost_mono g m n h =
    memory_cost_mono g (ceiling_division m 32) (ceiling_division n 32) (words_mono m n h)

memory_expansion-eq :
    (g : GasCosts) (new_bytes previous_bytes : ℕ)
    → memory_expansion g new_bytes previous_bytes
      ≡ words_cost g new_bytes - words_cost g previous_bytes
unfolding memory_expansion words_cost
memory_expansion-eq g new_bytes previous_bytes =
    let mono = words_cost_mono g new_bytes previous_bytes in
    elim (Bool-cases (leb new_bytes previous_bytes)) [ inl h ↦ ground arith | inr h ↦ ground arith ]

-- Expanding the memory in two steps costs what expanding it at once costs.
memory_expansion-split :
    (g : GasCosts) (previous_bytes middle_bytes new_bytes : ℕ)
    → previous_bytes ≤ middle_bytes
    → middle_bytes ≤ new_bytes
    → memory_expansion g new_bytes previous_bytes
      ≡ memory_expansion g middle_bytes previous_bytes + memory_expansion g new_bytes middle_bytes
memory_expansion-split g p m n h h' =
    let first = words_cost_mono g p m h in
    let second = words_cost_mono g m n h' in
    let whole = memory_expansion-eq g n p in
    let start = memory_expansion-eq g m p in let rest = memory_expansion-eq g n m in omega arith
