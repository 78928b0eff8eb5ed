-- ===== src/Opcode/Push/Read.antt =====
-- What an EVM reads from the code that `_stack_argument_to_bytecode` returns for a constant
-- (src/ethereum_test_vm/opcode.py).
use execution_spec_tests_gno.Base.{
  ℕ, zero, suc, ◌+◌, ◌-◌, ◌*◌, ◌^◌, ◌≤◌, ◌<◌, ◌≡◌, refl, sym, ◌∙◌, ap, true, ◌&&◌, Option, none,
  some, [], ◌∷◌, ◌++◌, arith, ok, length, length-append, length-replicate, replicate, leb,
  if◌then◌else◌,
}
use mathlib.Core.Path.{subst}
use execution_spec_tests_gno.Base.Bytes.{Bytes, from_be, rjust, from_be-rjust}
use execution_spec_tests_gno.Bytecode.{Bytecode}
use execution_spec_tests_gno.Opcode.Push.{push_constant, at_least_one}
use execution_spec_tests_gno.Opcode.Push.Index.{constant_push, push_constant-eq}

-- The next k bytes of the code as a number, and the code behind them.
pub read_data : ℕ → ℕ → Bytes → Option (ℕ × Bytes)
read_data zero acc rest = some (acc, rest)
read_data (suc k) acc [] = none
read_data (suc k) acc (b ∷ bs) = read_data k (acc * 256 + b) bs

-- An instruction `PUSH1` to `PUSH32` with its data.
pub read_push : Bytes → Option (ℕ × Bytes)
read_push [] = none
read_push (p ∷ rest) = if leb 0x60 p && leb p 0x7f then read_data (p - 0x5f) 0 rest else none

read_data-append :
    (portion rest : Bytes) (acc : ℕ)
    → read_data (length portion) acc (portion ++ rest) ≡ some (from_be acc portion, rest)
unfolding read_data from_be
read_data-append [] rest acc = refl
read_data-append (b ∷ bs) rest acc = read_data-append bs rest (acc * 256 + b)

-- The code pushes the number n, and does nothing else: it reads as one push of n, whatever follows,
-- and its stack counts are those of a push.
pub record Pushes (n : ℕ) (c : Bytecode) : Type 0 where
  pub reads : (rest : Bytes) → read_push (c.bytes ++ rest) ≡ some (n, rest)
  pub pops_none : c.popped_stack_items ≡ 0
  pub pushes_one : c.pushed_stack_items ≡ 1
  pub needs_none : c.min_stack_height ≡ 0
  pub reaches_one : c.max_stack_height ≡ 1

pub length-rjust : (k : ℕ) (b : Bytes) → length b ≤ k → length (rjust k b) ≡ k
unfolding rjust
length-rjust k b h =
    length-append (replicate (k - length b) 0) b
    ∙ omega (arith, length-replicate {A = ℕ} (k - length b) 0)

pub constant_push-Pushes :
    (i : ℕ) (portion : Bytes)
    → i < 32
    → length portion ≡ suc i
    → Pushes (from_be 0 portion) (constant_push i portion)
unfolding read_push
constant_push-Pushes i portion hi hp = record {
  reads = λ rest.
      let e : 0x60 + i - 0x5f ≡ length portion = omega arith in
      let t : (leb 0x60 (0x60 + i) && leb (0x60 + i) 0x7f) ≡ true = ground arith in
      rw t (rw e (read_data-append portion rest 0));
  pops_none = refl;
  pushes_one = refl;
  needs_none = refl;
  reaches_one = refl;
}

-- A constant of at most 32 bytes is pushed by the opcode of its length.
pub push_constant-Pushes :
    (b : Bytes)
    → 0 < length b
    → length b ≤ 32
    → (c : Bytecode) × (push_constant (length b) b ≡ ok c) × Pushes (from_be 0 b) c
push_constant-Pushes [] h h' = absurd (omega arith)
push_constant-Pushes (x ∷ xs) h h' =
    let i = length xs in
    let b = x ∷ xs in
    let full = rjust (i + 1) b in
    let long : length full ≡ suc i = length-rjust (i + 1) b (omega arith) ∙ omega arith in
    (
      constant_push i full,
      push_constant-eq i b (omega arith) (omega arith),
      subst (λ n. Pushes n (constant_push i full)) (from_be-rjust (i + 1) b)
          (constant_push-Pushes i full (omega arith) long),
    )

pub push_bytes :
    (b : Bytes) (n j : ℕ)
    → length b ≡ j
    → from_be 0 b ≡ n
    → 0 < j
    → j ≤ 32
    → (c : Bytecode) × (push_constant j b ≡ ok c) × Pushes n c
push_bytes b n j long value h h' =
    let (c, e, p) = push_constant-Pushes b (omega arith) (omega arith) in
    (c, ap (λ k. push_constant k b) (sym long) ∙ e, subst (λ m. Pushes m c) value p)

pub at_least_one_bounds :
    (k n : ℕ)
    → n < 256 ^ k
    → k ≤ 32
    → (n < 256 ^ at_least_one k) × (0 < at_least_one k) × (at_least_one k ≤ 32)
at_least_one_bounds zero n h h' = (omega arith, omega arith, omega arith)
at_least_one_bounds (suc k) n h h' = (h, omega arith, h')
