-- ===== src/Generators/Jumps.antt =====
-- The code of the relative jumps of the generators (src/ethereum_test_tools/code/generators.py).
use execution_spec_tests_gno.Base.{
  ℕ, zero, suc, ◌+◌, ◌^◌, ◌≤◌, ◌<◌, ◌≡◌, refl, sym, ◌∙◌, ap, some, [], ◌∷◌, ◌++◌, true, false,
  arith, ok, ltb, lt→ltb, length, length-append, subst, ok-injective,
}
use mathlib.Core.List.{append_assoc, append-nil}
use execution_spec_tests_gno.Base.Int.{pos}
use execution_spec_tests_gno.Base.Bytes.{Bytes, to_be, to_bytes_auto, length-to_be, rjust}
use execution_spec_tests_gno.Bytecode.{Bytecode, concat, empty}
use execution_spec_tests_gno.Opcode.Arg.{int, code}
use execution_spec_tests_gno.Opcode.New.{new}
use execution_spec_tests_gno.Opcode.Size.{get_int_size, size-enough, size-least}
use execution_spec_tests_gno.Opcode.Push.{
  push_constant, push_int, at_least_one, stack_argument_to_bytecode,
}
use execution_spec_tests_gno.Opcode.Push.Index.{constant_push, push_constant-eq}
use execution_spec_tests_gno.Opcode.Push.Read.{read_push, length-rjust}
use execution_spec_tests_gno.Opcode.Push.Word.{word_of, argument-Pushes}
use execution_spec_tests_gno.Opcode.Call.{call}
use execution_spec_tests_gno.Opcode.Table.Arithmetic.{add}
use execution_spec_tests_gno.Opcode.Table.Memory.{jump, jumpi, pc}
use execution_spec_tests_gno.Generators.{jump_ahead, run_op}

push_constant-length :
    (i : ℕ) (b : Bytes) (c : Bytecode)
    → i < 32
    → length b ≡ suc i
    → push_constant (suc i) b ≡ ok c
    → length c.bytes ≡ suc (suc i)
push_constant-length i b c h long e =
    let full : length (rjust (i + 1) b) ≡ i + 1 = length-rjust (i + 1) b (omega arith) in
    let same : constant_push i (rjust (i + 1) b) ≡ c =
      ok-injective (sym (push_constant-eq i b h (omega arith)) ∙ e) in
    ap (λ x. length x.bytes) (sym same) ∙ omega arith

push_int-length :
    (k n : ℕ) (c : Bytecode)
    → n < 256 ^ k
    → k ≤ 32
    → push_int k (pos n) ≡ ok c
    → length c.bytes ≡ suc (at_least_one k)
unfolding push_int to_bytes_auto
push_int-length zero n c small h e =
    let fits : ltb n (256 ^ 1) ≡ true = lt→ltb n (256 ^ 1) (omega arith) in
    push_constant-length 0 (to_be 1 n) c (omega arith) (length-to_be 1 n) (rw fits at e)
push_int-length (suc i) n c small h e =
    let fits : ltb n (256 ^ suc i) ≡ true = lt→ltb n (256 ^ suc i) small in
    let short : ltb 32 (suc i) ≡ false = ground arith in
    push_constant-length i (to_be (suc i) n) c (omega arith) (length-to_be (suc i) n)
      (rw (short, fits) at e)

at_least_one_le : (k j : ℕ) → k ≤ suc j → at_least_one k ≤ suc j
at_least_one_le zero j h = omega arith
at_least_one_le (suc k) j h = h

at_least_one_ge : (k : ℕ) → 1 ≤ at_least_one k
at_least_one_ge zero = omega arith
at_least_one_ge (suc k) = omega arith

-- Code that pushes a distance: one instruction, of two bytes where the distance is below 256.
record PushesDistance (n : ℕ) (b : Bytes) : Type 0 where
  reads : read_push b ≡ some (n, [])
  short : length b ≤ 33
  two_bytes : n < 256 → length b ≡ 2

push_distance :
    (n : ℕ)
    → n < 256 ^ 32
    → (b : Bytecode) × (stack_argument_to_bytecode (int (pos n)) ≡ ok b) × PushesDistance n b.bytes
unfolding word_of stack_argument_to_bytecode
push_distance n h =
    let fits : ltb n (256 ^ 32) ≡ true = lt→ltb n (256 ^ 32) h in
    let (b, e, p) = argument-Pushes (int (pos n)) n (rw fits refl) in
    let k = get_int_size (pos n) in
    let long = push_int-length k n b (size-enough n) (size-least n 32 h) e in
    let least = at_least_one_le k 31 (size-least n 32 h) in
    (
      b,
      e,
      record {
        reads = ap read_push (sym (append-nil b.bytes)) ∙ p.reads [];
        short = omega arith;
        two_bytes = λ small.
            let one = at_least_one_le k 0 (size-least n 1 (omega arith)) in
            let some_bytes = at_least_one_ge k in omega arith;
      },
    )

-- The code of `op(ADD(PC, n))`: the distance, PC, ADD, and the jump.
pub record Jumps (op n : ℕ) (b : Bytes) : Type 0 where
  pub distance : Bytes
  pub same : b ≡ distance ++ 0x58 ∷ 0x01 ∷ op ∷ []
  pub reads : read_push distance ≡ some (n, [])
  pub short : length b ≤ 36
  pub five_bytes : n < 256 → length b ≡ 5

target_of : Bytecode → Bytecode
target_of b = concat (concat (concat empty b) pc.bytecode) add.bytecode

add_distance :
    (n : ℕ) (b : Bytecode)
    → stack_argument_to_bytecode (int (pos n)) ≡ ok b
    → run_op add (code pc.bytecode ∷ int (pos n) ∷ []) ≡ ok (target_of b)
unfolding call target_of new stack_argument_to_bytecode
add_distance n b e = rw e refl

three_behind : (b : Bytes) (x y z : ℕ) → ((b ++ x ∷ []) ++ y ∷ []) ++ z ∷ [] ≡ b ++ x ∷ y ∷ z ∷ []
three_behind b x y z =
    append_assoc (b ++ x ∷ []) (y ∷ []) (z ∷ []) ∙ append_assoc b (x ∷ []) (y ∷ z ∷ [])

distance-Jumps :
    (op n : ℕ) (b : Bytes) → PushesDistance n b → Jumps op n (b ++ 0x58 ∷ 0x01 ∷ op ∷ [])
distance-Jumps op n b p =
    let long = length-append b (0x58 ∷ 0x01 ∷ op ∷ []) in
    record {
      distance = b;
      same = refl;
      reads = p.reads;
      short = omega (arith, p.short);
      five_bytes = λ small. let two = p.two_bytes small in omega arith;
    }

-- `Op.JUMP(Op.ADD(Op.PC, n))` is the code of a jump.
pub jump_ahead-Jumps :
    (n : ℕ) → n < 256 ^ 32 → (c : Bytecode) × (jump_ahead jump n [] ≡ ok c) × Jumps 0x56 n c.bytes
unfolding call concat new stack_argument_to_bytecode target_of
jump_ahead-Jumps n h =
    let (b, e, p) = push_distance n h in
    (
      concat (concat empty (target_of b)) jump.bytecode,
      rw (add_distance n b e) refl,
      subst (Jumps 0x56 n) (sym (three_behind b.bytes 0x58 0x01 0x56))
          (distance-Jumps 0x56 n b.bytes p),
    )

-- `Op.JUMPI(Op.ADD(Op.PC, n), condition)` is the condition, and the code of a jump.
pub jump_ahead-condition :
    (n : ℕ) (condition : Bytecode)
    → n < 256 ^ 32
    → (c : Bytecode) × (jump_ahead jumpi n (code condition ∷ []) ≡ ok c)
      × (b : Bytes) × (c.bytes ≡ condition.bytes ++ b)
      × Jumps 0x57 n b
unfolding call concat new stack_argument_to_bytecode target_of
jump_ahead-condition n condition h =
    let (b, e, p) = push_distance n h in
    let target = target_of b in
    (
      concat (concat (concat empty condition) target) jumpi.bytecode,
      rw (add_distance n b e) refl,
      b.bytes ++ 0x58 ∷ 0x01 ∷ 0x57 ∷ [],
      append_assoc condition.bytes target.bytes (0x57 ∷ [])
          ∙ ap (λ x. condition.bytes ++ x) (three_behind b.bytes 0x58 0x01 0x57),
      distance-Jumps 0x57 n b.bytes p,
    )
