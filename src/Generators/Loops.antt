-- ===== src/Generators/Loops.antt =====
-- The code of `While` of legacy code, and what it is to do (src/ethereum_test_tools/code/generators.py).
pub mod Run
use execution_spec_tests_gno.Base.{
  ℕ, suc, ◌+◌, ◌-◌, ◌^◌, ◌%◌, ◌<◌, ◌≡◌, ◌≢◌, refl, sym, ◌∙◌, ap, true, none, some, List, [], ◌∷◌,
  ◌++◌, arith, ok, ltb, lt→ltb, length, length-append, subst, false,
}
use mathlib.Core.List.{append_assoc, append-nil}
use native.Mathlib.Nat.{mod-eq_of_lt, add-mod_right}
use execution_spec_tests_gno.Base.Int.{pos}
use execution_spec_tests_gno.Base.Bytes.{
  Bytes, from_be, to_be, to_bytes_auto, length-to_be, from_be-to_be,
}
use execution_spec_tests_gno.Bytecode.{Bytecode, concat, empty}
use execution_spec_tests_gno.Opcode.Arg.{int, code}
use execution_spec_tests_gno.Opcode.New.{new, get_item}
use execution_spec_tests_gno.Opcode.Push.{stack_argument_to_bytecode}
use execution_spec_tests_gno.Opcode.Push.Read.{read_push, constant_push-Pushes}
use execution_spec_tests_gno.Opcode.Call.{call}
use execution_spec_tests_gno.Opcode.Table.Arithmetic.{sub as sub_op}
use execution_spec_tests_gno.Opcode.Table.Pushes.{push4}
use execution_spec_tests_gno.Opcode.Table.Memory.{
  pc as pc_op, jump as jump_op, jumpi as jumpi_op, jumpdest as jumpdest_op,
}
use execution_spec_tests_gno.Generators.{legacy, while_loop, jump_back, with_portion, run_op, len}
use execution_spec_tests_gno.Generators.Machine.{
  At, At-left, At-right, At-same, At-bound, Runs, arrive, block, push, pc, sub, jump, jumpi,
  jumpi_past, jumpdest,
}

-- The code of `op(SUB(PC, PUSH4[n]))`.
abbrev back_code : ℕ → ℕ → Bytes
back_code op n = (0x63 ∷ to_be 4 n) ++ 0x58 ∷ 0x03 ∷ op ∷ []

abbrev distance_of : ℕ → Bytecode
distance_of n = record {
  bytes = 0x63 ∷ to_be 4 n;
  popped_stack_items = 0;
  pushed_stack_items = 1;
  max_stack_height = 1;
  min_stack_height = 0;
  terminating = false;
  name = "";
}

push4_distance : (n : ℕ) → n < 256 ^ 4 → with_portion push4 (int (pos n)) ≡ ok (distance_of n)
unfolding get_item new to_bytes_auto
push4_distance n h = rw (lt→ltb n (256 ^ 4) h) refl

read_distance : (n : ℕ) → n < 256 ^ 4 → read_push (0x63 ∷ to_be 4 n) ≡ some (n, [])
read_distance n h =
    let p = constant_push-Pushes 3 (to_be 4 n) (omega arith) (length-to_be 4 n) in
    ap read_push (sym (append-nil (0x63 ∷ to_be 4 n)))
    ∙ p.reads []
    ∙ ap (λ m. some (m, [])) (from_be-to_be 4 n h)

length-back_code : (op n : ℕ) → length (back_code op n) ≡ 8
length-back_code op n =
    let long = length-append (0x63 ∷ to_be 4 n) (0x58 ∷ 0x03 ∷ op ∷ []) in
    let four = length-to_be 4 n in omega arith

back_target : ℕ → Bytecode
back_target n = concat (concat (concat empty (distance_of n)) pc_op.bytecode) sub_op.bytecode

back_bytes : (op n : ℕ) → (back_target n).bytes ++ op ∷ [] ≡ back_code op n
unfolding back_target concat new
back_bytes op n =
    append_assoc ((0x63 ∷ to_be 4 n) ++ 0x58 ∷ []) (0x03 ∷ []) (op ∷ [])
    ∙ append_assoc (0x63 ∷ to_be 4 n) (0x58 ∷ []) (0x03 ∷ op ∷ [])

jump_back_code :
    (n : ℕ)
    → n < 256 ^ 4
    → (c : Bytecode) × (jump_back jump_op n [] ≡ ok c) × (c.bytes ≡ back_code 0x56 n)
unfolding call new stack_argument_to_bytecode concat back_target
jump_back_code n h = (
  concat (concat empty (back_target n)) jump_op.bytecode,
  rw (push4_distance n h) refl,
  back_bytes 0x56 n,
)

jump_back_condition :
    (n : ℕ) (condition : Bytecode)
    → n < 256 ^ 4
    → (c : Bytecode) × (jump_back jumpi_op n (code condition ∷ []) ≡ ok c)
      × (c.bytes ≡ condition.bytes ++ back_code 0x57 n)
unfolding call new stack_argument_to_bytecode concat back_target
jump_back_condition n condition h = (
  concat (concat (concat empty condition) (back_target n)) jumpi_op.bytecode,
  rw (push4_distance n h) refl,
  append_assoc condition.bytes (back_target n).bytes (0x57 ∷ [])
      ∙ ap (λ b. condition.bytes ++ b) (back_bytes 0x57 n),
)

abbrev loop_code : Bytes → Bytes → ℕ → Bytes
loop_code body condition n = ((0x5b ∷ []) ++ body) ++ (condition ++ back_code 0x57 n)

length-loop_code :
    (body condition : Bytes) (n : ℕ)
    → length (loop_code body condition n) ≡ length body + length condition + 9
length-loop_code body condition n =
    let a = length-append ((0x5b ∷ []) ++ body) (condition ++ back_code 0x57 n) in
    let b = length-append condition (back_code 0x57 n) in
    let c = length-back_code 0x57 n in omega arith

-- The distance of the jump back, and the positions of the parts of the loop at p.
abbrev back_by : Bytes → Bytes → ℕ
back_by body condition = length body + length condition + 6

module _ {World : Type 0} (Acts : Bytes → List ℕ × World → List ℕ × World → Type 0) where
  -- What a loop is to do: the body, and again as long as the condition leaves a word that is not zero.
  pub data Repeats (body condition : Bytes) : List ℕ × World → List ℕ × World → Type 0 where
    last :
        {s u : List ℕ × World} {stack : List ℕ} {w : World}
        → Acts body s u
        → Acts condition u (0 ∷ stack, w)
        → Repeats body condition s (stack, w)
    again :
        {s u t : List ℕ × World} {v : ℕ} {stack : List ℕ} {w : World}
        → Acts body s u
        → Acts condition u (v ∷ stack, w)
        → v ≢ 0
        → Repeats body condition (stack, w) t
        → Repeats body condition s t
