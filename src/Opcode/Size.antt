-- ===== src/Opcode/Size.antt =====
-- `_get_int_size`: how many bytes a number takes (src/ethereum_test_vm/opcode.py).
use execution_spec_tests_gno.Base.{
  ℕ, zero, suc, ◌+◌, ◌*◌, ◌/◌, ◌^◌, ◌≤◌, ◌<◌, ◌≡◌, ◌↔◌, ◌==◌, if◌then◌else◌, Bool-cases, inl, inr,
  arith,
}
use execution_spec_tests_gno.Base.Int.{ℤ, pos, negsuc}
use native.Mathlib.Nat.{pow-le-pow_right, pow-suc, zero-add}

-- `while n: byte_count += 1; n >>= 8`
unfoldable pub size_loop : ℕ → ℕ → ℕ → ℕ
size_loop zero n byte_count = byte_count
size_loop (suc fuel) n byte_count =
    let rest = size_loop fuel (n / 256) (byte_count + 1) in if n == 0 then byte_count else rest

-- A number is fuel enough for its own loop: each round divides it by 256.
unfoldable pub get_int_size : ℤ → ℕ
unfolding size_loop
get_int_size (negsuc m) = 32
get_int_size (pos n) = size_loop n n 0

size_loop_upper :
    (fuel n byte_count : ℕ)
    → n ≤ fuel
    → (k : ℕ) × (size_loop fuel n byte_count ≡ byte_count + k) × (n < 256 ^ k)
unfolding size_loop
size_loop_upper zero n byte_count h = (0, omega arith, omega arith)
size_loop_upper (suc fuel) n byte_count h = elim (Bool-cases (n == 0)) [
  | inl done ↦ (0, ground arith, ground arith)
  | inr more ↦
      let (k, same, small) = size_loop_upper fuel (n / 256) (byte_count + 1) (ground arith) in
      let step : 256 ^ suc k ≡ 256 ^ k * 256 = pow-suc 256 k in (suc k, ground arith, omega arith)
]

size_loop_lower :
    (fuel n k byte_count : ℕ) → n < 256 ^ k → size_loop fuel n byte_count ≤ byte_count + k
unfolding size_loop
size_loop_lower zero n k byte_count h = omega arith
size_loop_lower (suc fuel) n zero byte_count h = ground arith
size_loop_lower (suc fuel) n (suc k) byte_count h =
    let step : 256 ^ suc k ≡ 256 ^ k * 256 = pow-suc 256 k in
    let rest = size_loop_lower fuel (n / 256) k (byte_count + 1) (omega arith) in ground arith

pub size-enough : (n : ℕ) → n < 256 ^ get_int_size (pos n)
unfolding get_int_size
size-enough n =
    let (k, same, small) = size_loop_upper n n 0 (omega arith) in rw (same, zero-add) small

pub size-least : (n k : ℕ) → n < 256 ^ k → get_int_size (pos n) ≤ k
unfolding get_int_size
size-least n k h = omega (arith, size_loop_lower n n k 0 h)

-- A number fits in k bytes exactly where its size is at most k: the size is the least number of bytes
-- that hold it.
get_int_size_iff : (n k : ℕ) → (n < 256 ^ k) ↔ (get_int_size (pos n) ≤ k)
get_int_size_iff n k = (
  size-least n k,
  λ h.
      let grow : 256 ^ get_int_size (pos n) ≤ 256 ^ k = pow-le-pow_right (omega arith) h in
      let enough = size-enough n in omega arith,
)
