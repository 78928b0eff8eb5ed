-- ===== src/Opcode/Push/Word.antt =====
-- The words that constant arguments stand for, and the code that pushes them
-- (src/ethereum_test_vm/opcode.py, `_stack_argument_to_bytecode`).
use execution_spec_tests_gno.Base.{
  ℕ, suc, ◌+◌, ◌-◌, ◌*◌, ◌^◌, ◌≤◌, ◌<◌, ◌≡◌, refl, ◌∙◌, ap, inl, inr, Bool, true, false, Option,
  none, some, [], ◌∷◌, arith, ok, raise, value_error, index_error, Error, ltb→lt, leb→le,
  overflow_error, length, leb, ltb, if◌then◌else◌, lt→ltb, le→leb, Bool-cases,
}
use mathlib.Core.Path.{subst}
use native.Mathlib.Nat.{pow-le-pow_right}
use execution_spec_tests_gno.Base.Int.{ℤ, pos, negsuc}
use execution_spec_tests_gno.Base.Bytes.{
  Bytes, from_be, to_be, to_bytes_auto, lstrip, length-to_be, from_be-to_be, from_be-lstrip,
}
use execution_spec_tests_gno.Bytecode.{Bytecode}
use execution_spec_tests_gno.Opcode.Arg.{Arg, int, raw, ints, code}
use execution_spec_tests_gno.Opcode.Size.{get_int_size, size-enough, size-least}
use execution_spec_tests_gno.Opcode.Push.{
  push_constant, push_with, at_least_one, push_int, push_stripped, stack_argument_to_bytecode,
}
use execution_spec_tests_gno.Opcode.Push.Index.{push_past}
use execution_spec_tests_gno.Opcode.Push.Read.{
  Pushes, push_constant-Pushes, push_bytes, at_least_one_bounds,
}

push_int_nonneg :
    (k n : ℕ) → n < 256 ^ k → k ≤ 32 → (c : Bytecode) × (push_int k (pos n) ≡ ok c) × Pushes n c
unfolding push_int to_bytes_auto
push_int_nonneg k n h h' =
    let (enough, some_bytes, few) = at_least_one_bounds k n h h' in
    let j = at_least_one k in
    let (c, e, p) =
      push_bytes (to_be j n) n j (length-to_be j n) (from_be-to_be j n enough) some_bytes few in
    let small : ltb 32 k ≡ false = ground arith in
    let fits : ltb n (256 ^ j) ≡ true = lt→ltb _ _ enough in (c, rw (small, fits) e, p)

push_int_negative :
    (m : ℕ)
    → 2 * (m + 1) ≤ 256 ^ 32
    → (c : Bytecode) × (push_int 32 (negsuc m) ≡ ok c) × Pushes (256 ^ 32 - (m + 1)) c
unfolding push_int to_bytes_auto
push_int_negative m h =
    let v = 256 ^ 32 - (m + 1) in
    let (c, e, p) =
      push_bytes (to_be 32 v) v 32 (length-to_be 32 v) (from_be-to_be 32 v (omega arith))
        (omega arith) (omega arith) in
    let fits : leb (2 * (m + 1)) (256 ^ 32) ≡ true = le→leb _ _ h in (c, rw fits e, p)

push_stripped-Pushes :
    (b : Bytes) → length b ≤ 32 → (c : Bytecode) × (push_stripped b ≡ ok c) × Pushes (from_be 0 b) c
unfolding push_stripped from_be
push_stripped-Pushes [] h = push_constant-Pushes (0 ∷ []) (omega arith) (omega arith)
push_stripped-Pushes (b ∷ bs) h = push_constant-Pushes (b ∷ bs) (omega arith) h

argument_of_int : (n : ℤ) → stack_argument_to_bytecode (int n) ≡ push_int (get_int_size n) n
unfolding stack_argument_to_bytecode
argument_of_int n = refl

argument_of_raw : (b : Bytes) → stack_argument_to_bytecode (raw b) ≡ push_stripped (lstrip b)
unfolding stack_argument_to_bytecode
argument_of_raw b = refl

argument_nonneg :
    (n : ℕ)
    → n < 256 ^ 32
    → (c : Bytecode) × (stack_argument_to_bytecode (int (pos n)) ≡ ok c) × Pushes n c
argument_nonneg n h =
    let (c, e, p) = push_int_nonneg (get_int_size (pos n)) n (size-enough n) (size-least n 32 h) in
    (c, argument_of_int (pos n) ∙ e, p)

size_negative : (m : ℕ) → get_int_size (negsuc m) ≡ 32
unfolding get_int_size
size_negative m = refl

argument_negative :
    (m : ℕ)
    → 2 * (m + 1) ≤ 256 ^ 32
    → (c : Bytecode) × (stack_argument_to_bytecode (int (negsuc m)) ≡ ok c)
      × Pushes (256 ^ 32 - (m + 1)) c
argument_negative m h =
    let (c, e, p) = push_int_negative m h in
    (c, argument_of_int (negsuc m) ∙ ap (λ k. push_int k (negsuc m)) (size_negative m) ∙ e, p)

push_negative_past :
    (m : ℕ)
    → leb (2 * (m + 1)) (256 ^ 32) ≡ false
    → push_int (get_int_size (negsuc m)) (negsuc m) ≡ raise overflow_error
unfolding push_int to_bytes_auto get_int_size
push_negative_past m h = rw h

argument_raw :
    (b : Bytes)
    → length (lstrip b) ≤ 32
    → (c : Bytecode) × (stack_argument_to_bytecode (raw b) ≡ ok c) × Pushes (from_be 0 b) c
argument_raw b h =
    let (c, e, p) = push_stripped-Pushes (lstrip b) h in
    (c, argument_of_raw b ∙ e, subst (λ v. Pushes v c) (from_be-lstrip b) p)

-- The 256-bit word that a constant argument stands for: a number as it is, a negative number in
-- two's complement, bytes as a big-endian number. Nothing for what does not fit in 32 bytes, and
-- nothing for code or a list.
unfoldable pub word_of : Arg → Option ℕ
word_of (int (pos n)) = if ltb n (256 ^ 32) then some n else none
word_of (int (negsuc m)) = if leb (2 * (m + 1)) (256 ^ 32) then some (256 ^ 32 - (m + 1)) else none
word_of (raw b) = if leb (length (lstrip b)) 32 then some (from_be 0 b) else none
word_of (ints ns) = none
word_of (code c) = none

word-injective : {v w : ℕ} → ◌≡◌ {A = Option ℕ} (some v) (some w) → v ≡ w
word-injective h = cc

-- A constant argument that stands for a 256-bit word becomes one push of that word.
pub argument-Pushes :
    (a : Arg) (w : ℕ)
    → word_of a ≡ some w
    → (c : Bytecode) × (stack_argument_to_bytecode a ≡ ok c) × Pushes w c
unfolding word_of
argument-Pushes (int (pos n)) w h = elim (Bool-cases (ltb n (256 ^ 32))) [
  | inl fits ↦
      let small = ltb→lt n (256 ^ 32) fits in
      let same : n ≡ w = word-injective (rw fits at h) in
      subst (λ v. (c : Bytecode) × (stack_argument_to_bytecode (int (pos n)) ≡ ok c) × Pushes v c)
        same (argument_nonneg n small)
  | inr large ↦ cc (rw large at h)
]
argument-Pushes (int (negsuc m)) w h = elim (Bool-cases (leb (2 * (m + 1)) (256 ^ 32))) [
  | inl fits ↦
      let same : 256 ^ 32 - (m + 1) ≡ w = word-injective (rw fits at h) in
      subst
        (λ v. (c : Bytecode) × (stack_argument_to_bytecode (int (negsuc m)) ≡ ok c) × Pushes v c)
        same (argument_negative m (leb→le _ _ fits))
  | inr large ↦ cc (rw large at h)
]
argument-Pushes (raw b) w h = elim (Bool-cases (leb (length (lstrip b)) 32)) [
  | inl fits ↦
      let same : from_be 0 b ≡ w = word-injective (rw fits at h) in
      subst (λ v. (c : Bytecode) × (stack_argument_to_bytecode (raw b) ≡ ok c) × Pushes v c) same
        (argument_raw b (leb→le _ _ fits))
  | inr large ↦ cc (rw large at h)
]
argument-Pushes (ints ns) w h = cc
argument-Pushes (code c) w h = cc

abbrev pub is_constant : Arg → Bool
is_constant (int n) = true
is_constant (raw b) = true
is_constant _ = false

-- How a constant that does not fit is refused.
abbrev pub refusal : Arg → Error
refusal (int (pos n)) = value_error
refusal (int (negsuc m)) = overflow_error
refusal _ = index_error

size_past : (n : ℕ) → ltb n (256 ^ 32) ≡ false → 32 < get_int_size (pos n)
size_past n h = elim (Bool-cases (ltb 32 (get_int_size (pos n)))) [
  | inl past ↦ ltb→lt _ _ past
  | inr within ↦
      let few : get_int_size (pos n) ≤ 32 = ground arith in
      let grow : 256 ^ get_int_size (pos n) ≤ 256 ^ 32 = pow-le-pow_right (omega arith) few in
      absurd (ground (arith, size-enough n))
]

push_int_past : (k n : ℕ) → 32 < k → push_int k (pos n) ≡ raise value_error
unfolding push_int
push_int_past k n h = rw (lt→ltb 32 k h)

push_stripped_past : (b : Bytes) → leb (length b) 32 ≡ false → push_stripped b ≡ raise index_error
unfolding push_stripped push_constant push_with
push_stripped_past [] h = cc
push_stripped_past (x ∷ xs) h = rw (push_past (suc (length xs) - 1) (ground arith))

-- A constant argument that stands for no 256-bit word is refused: a number too large with a value
-- error, a negative number too low with an overflow error, and more than 32 bytes with an index
-- error.
pub argument_refused :
    (a : Arg)
    → is_constant a ≡ true
    → word_of a ≡ none
    → stack_argument_to_bytecode a ≡ raise (refusal a)
unfolding word_of
argument_refused (int (pos n)) c h = elim (Bool-cases (ltb n (256 ^ 32))) [
  | inl fits ↦ cc (rw fits at h)
  | inr large ↦ argument_of_int (pos n) ∙ push_int_past _ n (size_past n large)
]
argument_refused (int (negsuc m)) c h = elim (Bool-cases (leb (2 * (m + 1)) (256 ^ 32))) [
  | inl fits ↦ cc (rw fits at h)
  | inr large ↦ argument_of_int (negsuc m) ∙ push_negative_past m large
]
argument_refused (raw b) c h = elim (Bool-cases (leb (length (lstrip b)) 32)) [
  | inl fits ↦ cc (rw fits at h)
  | inr large ↦ argument_of_raw b ∙ push_stripped_past (lstrip b) large
]
argument_refused (ints ns) c h = cc
argument_refused (code b) c h = cc
