-- ===== src/Generators/Loops/Run.antt =====
-- The run of `While` of legacy code (src/ethereum_test_tools/code/generators.py).
use execution_spec_tests_gno.Base.{
  ℕ, ◌+◌, ◌-◌, ◌^◌, ◌%◌, ◌<◌, ◌≡◌, refl, sym, ◌∙◌, ap, some, List, [], ◌∷◌, ◌++◌, arith, ok, length,
  subst,
}
use native.Mathlib.Nat.{mod-eq_of_lt, add-mod_right}
use execution_spec_tests_gno.Base.Bytes.{Bytes, to_be, length-to_be}
use execution_spec_tests_gno.Bytecode.{Bytecode, concat, empty}
use execution_spec_tests_gno.Opcode.New.{new}
use execution_spec_tests_gno.Opcode.Table.Memory.{jumpdest as jumpdest_op}
use execution_spec_tests_gno.Generators.{legacy, while_loop, len}
use execution_spec_tests_gno.Generators.Machine.{
  At, At-left, At-right, At-same, At-bound, At-whole, length-between, Runs, arrive, block, push, pc,
  sub, jumpi, jumpi_past, jumpdest,
}
use execution_spec_tests_gno.Generators.Loops.{
  back_code, read_distance, jump_back_condition, Repeats, last, again, loop_code, length-loop_code,
  back_by,
}

module _ {World : Type 0} (Acts : Bytes → List ℕ × World → List ℕ × World → Type 0)
    (program : Bytes) where
  tail-At :
      (op n : ℕ) {p : ℕ}
      → At program p (back_code op n)
      → At program (p + 5) (0x58 ∷ 0x03 ∷ op ∷ [])
  tail-At op n {p} h =
      let five : p + length (0x63 ∷ to_be 4 n) ≡ p + 5 = omega (arith, length-to_be 4 n) in
      At-same program five refl (At-right program p (0x63 ∷ to_be 4 n) (0x58 ∷ 0x03 ∷ op ∷ []) h)

  jump-At :
      (op n : ℕ) {p : ℕ} → At program p (back_code op n) → At program (p + 5 + 1 + 1) (op ∷ [])
  jump-At op n h =
      At-right program _ (0x03 ∷ []) (op ∷ [])
        (At-right program _ (0x58 ∷ []) (0x03 ∷ op ∷ []) (tail-At op n h))

  -- Up to the jump itself, the code of a jump back pushes the position so many bytes before PC.
  to_back :
      (op n d : ℕ) {p q : ℕ} {stack : List ℕ} {w : World} {t : List ℕ × World}
      → n < 256 ^ 4
      → d + n ≡ p + 5
      → d < 256 ^ 32
      → At program p (back_code op n)
      → Runs Acts program (p + 5 + 1 + 1) (d ∷ stack, w) q t
      → Runs Acts program p (stack, w) q t
  to_back op n d {p} {q} {stack} {w} {t} few same small h r =
      let rest = tail-At op n h in
      let behind = At-right program _ (0x58 ∷ []) (0x03 ∷ op ∷ []) rest in
      let long : p + length (0x63 ∷ to_be 4 n) ≡ p + 5 = omega (arith, length-to_be 4 n) in
      let lands : (p + 5 + (256 ^ 32 - n)) % 256 ^ 32 ≡ d =
        ap (λ x. x % 256 ^ 32) (omega arith) ∙ add-mod_right d (256 ^ 32) ∙ mod-eq_of_lt small in
      push (0x63 ∷ to_be 4 n) (At-left program p (0x63 ∷ to_be 4 n) (0x58 ∷ 0x03 ∷ op ∷ []) h)
        (read_distance n few)
        (subst (λ x. Runs Acts program x (n ∷ stack, w) q t) (sym long)
          (pc (At-left program _ (0x58 ∷ []) (0x03 ∷ op ∷ []) rest) (
            sub (At-left program _ (0x03 ∷ []) (op ∷ []) behind)
              (subst (λ x. Runs Acts program (p + 5 + 1 + 1) (x ∷ stack, w) q t) (sym lands) r))))

  record LoopAt (body condition : Bytes) (p : ℕ) : Type 0 where
    dest : At program p (0x5b ∷ [])
    inside : At program (p + 1) body
    test : At program (p + 1 + length body) condition
    back :
        At program
          (p + 1 + length body + length condition)
          (back_code 0x57 (back_by body condition))

  loop_at :
      (body condition : Bytes) (p : ℕ)
      → At program p (loop_code body condition (back_by body condition))
      → LoopAt body condition p
  loop_at body condition p at =
      let b = back_code 0x57 (back_by body condition) in
      let front = At-left program p ((0x5b ∷ []) ++ body) (condition ++ b) at in
      let behind : At program (p + 1 + length body) (condition ++ b) =
        At-same program (omega arith) refl
          (At-right program p ((0x5b ∷ []) ++ body) (condition ++ b) at) in
      record {
        dest = At-left program p (0x5b ∷ []) body front;
        inside = At-right program p (0x5b ∷ []) body front;
        test = At-left program _ condition b behind;
        back = At-right program _ condition b behind;
      }

  run_loop :
      (body condition : Bytes) (p : ℕ) {s t : List ℕ × World}
      → back_by body condition < 256 ^ 4
      → length program < 256 ^ 32
      → LoopAt body condition p
      → Repeats Acts body condition s t
      → Runs Acts program p s (p + length body + length condition + 9) t
  run_loop body condition p few small l (last done tested) =
      let start = At-bound program l.dest in
      jumpdest l.dest (
        block body l.inside done (
          block condition l.test tested (
            to_back 0x57 (back_by body condition) p few (omega arith) (omega arith) l.back (
              jumpi_past (jump-At 0x57 (back_by body condition) l.back)
                (arrive Acts program (omega arith))))))
  run_loop body condition p few small l (again done tested taken more) =
      let start = At-bound program l.dest in
      jumpdest l.dest (
        block body l.inside done (
          block condition l.test tested (
            to_back 0x57 (back_by body condition) p few (omega arith) (omega arith) l.back (
              jumpi (jump-At 0x57 (back_by body condition) l.back) taken l.dest
                (run_loop body condition p few small l more)))))

-- `While` of legacy code, with a condition, returns code where the body and the condition have less
-- than 2 ** 32 bytes. Between any other code, of less than 2 ** 256 bytes in all, it runs to its end and
-- does the body, and does it again as long as the condition leaves a word that is not zero.
pub while_loop-runs :
    {World : Type 0} (Acts : Bytes → List ℕ × World → List ℕ × World → Type 0)
    (body condition : Bytecode) (before behind : Bytes) {s t : List ℕ × World}
    → len body + len condition + 6 < 256 ^ 4
    → length before + (len body + len condition + 9) + length behind < 256 ^ 32
    → Repeats Acts body.bytes condition.bytes s t
    → (c : Bytecode) × (while_loop legacy body (some condition) ≡ ok c)
      × Runs Acts (before ++ (c.bytes ++ behind)) (length before) s (length before + len c) t
unfolding while_loop concat new
while_loop-runs Acts body condition before behind {s} {t} few small repeats =
    let n = len body + len condition + 6 in
    let (back, e, same) = jump_back_condition n condition few in
    let whole = concat (concat (concat empty jumpdest_op.bytecode) body) back in
    let code = loop_code body.bytes condition.bytes n in
    let laid : whole.bytes ≡ code = ap (λ b. ((0x5b ∷ []) ++ body.bytes) ++ b) same in
    let size = length-loop_code body.bytes condition.bytes n in
    let program = before ++ (code ++ behind) in
    let fits : length program < 256 ^ 32 = omega (arith, length-between before code behind) in
    let l =
      loop_at Acts program body.bytes condition.bytes (length before)
        (At-whole before code behind) in
    let run = run_loop Acts program body.bytes condition.bytes (length before) few fits l repeats in
    (
      whole,
      rw e refl,
      subst
          (λ b. Runs Acts (before ++ (b ++ behind)) (length before) s (length before + length b) t)
          (sym laid) (subst (λ q. Runs Acts program (length before) s q t) (omega arith) run),
    )
