-- ===== src/Generators/Switches/Loop.antt =====
-- The loop of `Switch` of legacy code, and the switch (src/ethereum_test_tools/code/generators.py).
use execution_spec_tests_gno.Base.{
  ℕ, ◌+◌, ◌-◌, ◌^◌, ◌≤◌, ◌<◌, ◌≡◌, refl, sym, ◌∙◌, ap, List, [], ◌∷◌, ◌++◌, arith, ok, length,
  length-append, subst, reverse, reverse_onto,
}
use mathlib.Core.List.{append-nil}
use execution_spec_tests_gno.Base.Bytes.{Bytes}
use execution_spec_tests_gno.Bytecode.{Bytecode, concat}
use execution_spec_tests_gno.Opcode.Table.Memory.{jumpdest as jumpdest_op}
use execution_spec_tests_gno.Generators.{Case, legacy_lengths, legacy_loop, legacy_switch, len}
use execution_spec_tests_gno.Generators.Jumps.{Jumps, jump_ahead-Jumps, jump_ahead-condition}
use execution_spec_tests_gno.Generators.Machine.{
  At-left, At-right, At-same, At-bound, At-whole, length-between, Runs, stay, block, jumpdest,
  run_jump,
}
use execution_spec_tests_gno.Opcode.New.{new}
use execution_spec_tests_gno.Generators.Layers.{layer, length-layer}
use execution_spec_tests_gno.Generators.Switches.{layer-Serves, Serves, Chooses, otherwise}

-- What the layers of the cases may take: 36 bytes at most for the jump to an action, 6 around it.
abbrev pub sizes : List Case → ℕ
sizes [] = 0
sizes (c ∷ cs) = length c.condition.bytes + length c.action.bytes + 42 + sizes cs

legacy_lengths-reverse_onto :
    (acc cs : List Case)
    → legacy_lengths (reverse_onto acc cs) ≡ legacy_lengths acc + legacy_lengths cs
legacy_lengths-reverse_onto acc [] = omega arith
legacy_lengths-reverse_onto acc (c ∷ cs) = omega (arith, legacy_lengths-reverse_onto (c ∷ acc) cs)

sizes-reverse_onto : (acc cs : List Case) → sizes (reverse_onto acc cs) ≡ sizes acc + sizes cs
sizes-reverse_onto acc [] = omega arith
sizes-reverse_onto acc (c ∷ cs) = omega (arith, sizes-reverse_onto (c ∷ acc) cs)

reverse_onto-reverse_onto :
    (done acc cs : List Case)
    → reverse_onto done (reverse_onto acc cs) ≡ reverse_onto (cs ++ done) acc
reverse_onto-reverse_onto done acc [] = refl
reverse_onto-reverse_onto done acc (c ∷ cs) = reverse_onto-reverse_onto done (c ∷ acc) cs

module _ {World : Type 0} (Acts : Bytes → List ℕ × World → List ℕ × World → Type 0) where
  legacy_loop-Serves :
      (default_action : Bytes) (cs done : List Case) (action_jump condition_jump : ℕ)
      (inner : Bytecode)
      → action_jump ≡ legacy_lengths cs + 3
      → condition_jump ≡ length inner.bytes + 3
      → legacy_lengths cs + 3 < 256
      → length inner.bytes + sizes cs + 3 < 256 ^ 32
      → Serves Acts default_action done inner.bytes (legacy_lengths cs)
      → (whole : Bytecode) × (legacy_loop cs action_jump condition_jump inner ≡ ok whole)
        × Serves Acts default_action (reverse_onto done cs) whole.bytes 0
        × (len whole ≤ len inner + sizes cs)
  unfolding legacy_loop concat new
  legacy_loop-Serves default_action [] done action_jump condition_jump inner ea ec few small
        serves =
      (inner, refl, serves, omega arith)
  legacy_loop-Serves default_action (c ∷ cs) done action_jump condition_jump inner ea ec few small
        serves =
      let next_jump = action_jump - (len c.action + 6) in
      let (leave, e, away) = jump_ahead-Jumps next_jump (omega arith) in
      let (test, e', ahead, same, jumps) =
        jump_ahead-condition condition_jump c.condition (omega arith) in
      let five = away.five_bytes (omega arith) in
      let action = concat (concat jumpdest_op.bytecode c.action) leave in
      let step : Serves Acts default_action (c ∷ done) (layer c ahead inner.bytes leave.bytes)
          (legacy_lengths cs) =
        layer-Serves Acts default_action c done ahead inner.bytes leave.bytes (legacy_lengths cs)
          (subst (λ n. Jumps 0x57 n ahead) ec jumps)
          (subst (λ n. Jumps 0x56 n leave.bytes) (omega arith) away) five serves in
      let grown : (concat (concat test inner) action).bytes
          ≡ layer c ahead inner.bytes leave.bytes =
        ap (λ b. (b ++ inner.bytes) ++ (((0x5b ∷ []) ++ c.action.bytes) ++ leave.bytes)) same in
      let long = ap length grown ∙ length-layer c ahead inner.bytes leave.bytes in
      let tested = ap length same ∙ length-append c.condition.bytes ahead in
      let acted = length-append ((0x5b ∷ []) ++ c.action.bytes) leave.bytes in
      let (whole, e'', all, bound) =
        legacy_loop-Serves default_action cs (c ∷ done) next_jump
          (condition_jump + (len test + len action)) (concat (concat test inner) action)
          (omega arith) (omega arith) (omega arith) (omega (arith, jumps.short))
          (subst (λ b. Serves Acts default_action (c ∷ done) b (legacy_lengths cs)) (sym grown)
            step) in
      (whole, rw (e, e') e'', all, omega (arith, jumps.short))

  -- A jump behind the default action to the JUMPDEST so many bytes behind it.
  default-Serves :
      (default_action leave : Bytes) (r : ℕ)
      → Jumps 0x56 (r + 3) leave
      → Serves Acts default_action [] (default_action ++ leave) r
  unfolding Serves
  default-Serves default_action leave r away program p s t small at land (otherwise acts) =
      let long = length-append default_action leave in
      let finish = At-bound program land in
      block default_action (At-left program p default_action leave at) acts (
        run_jump Acts program away (At-right program p default_action leave at) (omega arith)
          (omega arith) land (jumpdest land stay))

  -- `Switch` of legacy code returns code for all cases whose actions take less than 253 bytes with their
  -- jumps. Between any other code, of less than 2 ** 256 bytes in all, it runs to its end and does what a
  -- switch is to do: it tests the conditions in the order of the cases, runs the action of the first that
  -- leaves a word that is not zero, and no other, and the default action where none does.
  pub legacy_switch-runs :
      (default_action : Bytecode) (cases : List Case) (before behind : Bytes) {s t : List ℕ × World}
      → legacy_lengths cases + 3 < 256
      → length before + (len default_action + sizes cases + 39) + length behind < 256 ^ 32
      → Chooses Acts default_action.bytes cases s t
      → (c : Bytecode) × (legacy_switch default_action cases ≡ ok c)
        × Runs Acts (before ++ (c.bytes ++ behind)) (length before) s (length before + len c) t
  unfolding legacy_switch concat new Serves
  legacy_switch-runs default_action cases before behind {s} {t} few small chooses =
      let lengths = legacy_lengths-reverse_onto [] cases in
      let total = sizes-reverse_onto [] cases in
      let (leave, e, away) = jump_ahead-Jumps (legacy_lengths cases + 3) (omega arith) in
      let start = concat default_action leave in
      let long = length-append default_action.bytes leave.bytes in
      let (whole, e', serves, bound) =
        legacy_loop-Serves default_action.bytes (reverse cases) [] (legacy_lengths cases + 3)
          (len start + 3) start (omega arith) refl (omega arith) (omega (arith, away.short))
          (default-Serves default_action.bytes leave.bytes (legacy_lengths (reverse cases))
            (subst (λ n. Jumps 0x56 n leave.bytes) (omega arith) away)) in
      let c = concat whole jumpdest_op.bytecode in
      let at = At-whole before c.bytes behind in
      let inside = At-left _ (length before) whole.bytes (0x5b ∷ []) at in
      let after = At-right _ (length before) whole.bytes (0x5b ∷ []) at in
      let all =
        subst (λ cs. Serves Acts default_action.bytes cs whole.bytes 0)
          (reverse_onto-reverse_onto [] [] cases ∙ append-nil cases) serves in
      let size = length-append whole.bytes (0x5b ∷ []) in
      let fits : length (before ++ (c.bytes ++ behind)) < 256 ^ 32 =
        omega (arith, length-between before c.bytes behind, away.short) in
      let done =
        all (before ++ (c.bytes ++ behind)) (length before) s t fits inside
          (At-same _ (omega arith) refl after) chooses in
      (
        c,
        rw (e, e') refl,
        subst (λ q. Runs Acts (before ++ (c.bytes ++ behind)) (length before) s q t) (omega arith)
            done,
      )
