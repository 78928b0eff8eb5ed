-- ===== src/Generators/Branches.antt =====
-- What `Conditional` of legacy code does when it runs (src/ethereum_test_tools/code/generators.py).
use execution_spec_tests_gno.Base.{
  ℕ, ◌+◌, ◌^◌, ◌<◌, ◌≡◌, ◌≢◌, refl, sym, ◌∙◌, ap, none, List, [], ◌∷◌, ◌++◌, arith, ok, length,
  length-append, subst,
}
use mathlib.Core.List.{append_assoc}
use execution_spec_tests_gno.Base.Bytes.{Bytes}
use execution_spec_tests_gno.Bytecode.{Bytecode, concat}
use execution_spec_tests_gno.Opcode.New.{new}
use execution_spec_tests_gno.Opcode.Table.Memory.{jumpdest as jumpdest_op}
use execution_spec_tests_gno.Generators.{Case, legacy_conditional, len}
use execution_spec_tests_gno.Generators.Jumps.{Jumps, jump_ahead-Jumps, jump_ahead-condition}
use execution_spec_tests_gno.Generators.Machine.{
  At, At-left, At-right, At-bound, At-whole, length-between, Runs, arrive, block, jumpdest,
  run_jump, run_jumpi, run_past,
}
use execution_spec_tests_gno.Generators.Layers.{layer, length-layer, layer_at}

module _ {World : Type 0} (Acts : Bytes → List ℕ × World → List ℕ × World → Type 0) where
  -- What a conditional is to do.
  pub data Decides (condition if_true if_false : Bytes)
      : List ℕ × World → List ℕ × World → Type 0 where
    holds :
        {s t : List ℕ × World} {v : ℕ} {stack : List ℕ} {w : World}
        → Acts condition s (v ∷ stack, w)
        → v ≢ 0
        → Acts if_true (stack, w) t
        → Decides condition if_true if_false s t
    fails :
        {s t : List ℕ × World} {stack : List ℕ} {w : World}
        → Acts condition s (0 ∷ stack, w)
        → Acts if_false (stack, w) t
        → Decides condition if_true if_false s t

  -- The true branch as an action, of which the last JUMPDEST takes the place of its jump.
  abbrev as_case : Bytecode → Bytecode → Case
  as_case condition if_true = record { condition = condition; action = if_true; terminating = none }

  run_layer :
      (condition if_true : Bytecode) (if_false to_true skip program : Bytes) (p : ℕ)
      (s t : List ℕ × World)
      → Jumps 0x57 (length (if_false ++ skip) + 3) to_true
      → Jumps 0x56 (length if_true.bytes + 4) skip
      → length program < 256 ^ 32
      → At program p (layer (as_case condition if_true) to_true (if_false ++ skip) (0x5b ∷ []))
      → Decides condition.bytes if_true.bytes if_false s t
      → Runs Acts program p s
          (p + length (layer (as_case condition if_true) to_true (if_false ++ skip) (0x5b ∷ [])))
          t
  run_layer condition if_true if_false to_true skip program p s t ahead over small at
        (holds {stack = stack} {w = w} tested taken acts) =
      let l =
        layer_at program p (as_case condition if_true) to_true (if_false ++ skip) (0x5b ∷ []) at in
      let size = length-layer (as_case condition if_true) to_true (if_false ++ skip) (0x5b ∷ []) in
      let start = At-bound program l.dest in
      block condition.bytes l.condition tested (
        run_jumpi Acts program ahead l.test taken (omega arith) (omega arith) l.dest (
          jumpdest l.dest (
            block if_true.bytes l.action acts
              (jumpdest l.exit (arrive Acts program (omega arith))))))
  run_layer condition if_true if_false to_true skip program p s t ahead over small at
        (fails {stack = stack} {w = w} tested acts) =
      let l =
        layer_at program p (as_case condition if_true) to_true (if_false ++ skip) (0x5b ∷ []) at in
      let size = length-layer (as_case condition if_true) to_true (if_false ++ skip) (0x5b ∷ []) in
      let inner = length-append if_false skip in
      let finish = At-bound program l.exit in
      block condition.bytes l.condition tested (
        run_past Acts program ahead l.test (
          block if_false (At-left program _ if_false skip l.inside) acts (
            run_jump Acts program over (At-right program _ if_false skip l.inside) (omega arith)
              (omega arith) l.exit (jumpdest l.exit (arrive Acts program (omega arith))))))

  -- `Conditional` of legacy code returns code. Between any other code, of less than 2 ** 256 bytes in
  -- all, it runs to its end and does the true branch if the condition leaves a word that is not zero,
  -- and the false branch if it leaves zero.
  pub legacy_conditional-runs :
      (condition if_true if_false : Bytecode) (before behind : Bytes) {s t : List ℕ × World}
      → length before + (len condition + len if_true + len if_false + 74) + length behind < 256 ^ 32
      → Decides condition.bytes if_true.bytes if_false.bytes s t
      → (c : Bytecode) × (legacy_conditional condition if_true if_false ≡ ok c)
        × Runs Acts (before ++ (c.bytes ++ behind)) (length before) s (length before + len c) t
  unfolding legacy_conditional concat new
  legacy_conditional-runs condition if_true if_false before behind {s} {t} small decides =
      let (skip, e, over) =
        jump_ahead-Jumps (len (concat jumpdest_op.bytecode if_true) + 3) (omega arith) in
      let long = length-append if_false.bytes skip.bytes in
      let (test, e', to_true, same, ahead) =
        jump_ahead-condition (len (concat if_false skip) + 3) condition
          (omega (arith, over.short)) in
      let branches = (0x5b ∷ []) ++ if_true.bytes in
      let inner = if_false.bytes ++ skip.bytes in
      let whole =
        concat (concat (concat test (concat if_false skip)) (concat jumpdest_op.bytecode if_true))
          jumpdest_op.bytecode in
      let code = layer (as_case condition if_true) to_true inner (0x5b ∷ []) in
      let laid : whole.bytes ≡ code =
        ap (λ b. ((b ++ inner) ++ branches) ++ (0x5b ∷ [])) same
        ∙ append_assoc ((condition.bytes ++ to_true) ++ inner) branches (0x5b ∷ []) in
      let size = length-layer (as_case condition if_true) to_true inner (0x5b ∷ []) in
      let fits : length (before ++ (code ++ behind)) < 256 ^ 32 =
        omega (arith, length-between before code behind, over.short, ahead.short) in
      (
        whole,
        rw (e, e') refl,
        subst
            (λ b.
              Runs Acts (before ++ (b ++ behind)) (length before) s (length before + length b) t)
            (sym laid)
            (run_layer condition if_true if_false.bytes to_true skip.bytes
              (before ++ (code ++ behind)) (length before) s t ahead
              (subst (λ n. Jumps 0x56 n skip.bytes) (omega arith) over) fits
              (At-whole before code behind) decides),
      )
