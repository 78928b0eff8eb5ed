-- ===== src/Generators/Switches.antt =====
-- What `Switch` of legacy code does when it runs (src/ethereum_test_tools/code/generators.py).
pub mod Loop
use execution_spec_tests_gno.Base.{
  ℕ, zero, suc, ◌+◌, ◌-◌, ◌^◌, ◌≤◌, ◌<◌, ◌≡◌, ◌≢◌, refl, sym, ◌∙◌, ap, List, [], ◌∷◌, ◌++◌, arith,
  ok, length, length-append, subst, reverse, reverse_onto,
}
use mathlib.Core.List.{append_assoc}
use execution_spec_tests_gno.Base.Bytes.{Bytes}
use execution_spec_tests_gno.Bytecode.{Bytecode, concat}
use execution_spec_tests_gno.Opcode.Table.Memory.{jumpdest as jumpdest_op}
use execution_spec_tests_gno.Generators.{Case, legacy_lengths, legacy_loop, legacy_switch, len}
use execution_spec_tests_gno.Generators.Jumps.{Jumps, jump_ahead-Jumps, jump_ahead-condition}
use execution_spec_tests_gno.Generators.Layers.{layer, length-layer, layer_at}
use execution_spec_tests_gno.Generators.Machine.{
  At, At-left, At-right, At-same, At-bound, Runs, stay, block, jumpdest, run_jump, run_jumpi,
  run_past,
}

module _ {World : Type 0} (Acts : Bytes → List ℕ × World → List ℕ × World → Type 0)
    (default_action : Bytes) where
  -- What a switch is to do: the action of the first case whose condition leaves a word that is not
  -- zero, and no other; the default action where there is none.
  pub data Chooses : List Case → List ℕ × World → List ℕ × World → Type 0 where
    otherwise : {s t : List ℕ × World} → Acts default_action s t → Chooses [] s t
    matched :
        {s t : List ℕ × World} {v : ℕ} {stack : List ℕ} {w : World} {c : Case} {cs : List Case}
        → Acts c.condition.bytes s (v ∷ stack, w)
        → v ≢ 0
        → Acts c.action.bytes (stack, w) t
        → Chooses (c ∷ cs) s t
    passed :
        {s t : List ℕ × World} {stack : List ℕ} {w : World} {c : Case} {cs : List Case}
        → Acts c.condition.bytes s (0 ∷ stack, w)
        → Chooses cs (stack, w) t
        → Chooses (c ∷ cs) s t

  -- The code chooses among the cases, and gets past a JUMPDEST so many bytes behind itself, wherever in
  -- a program it stands.
  pub Serves : List Case → Bytes → ℕ → Type 0
  Serves cases b r =
      (program : Bytes) (p : ℕ) (s t : List ℕ × World)
      → length program < 256 ^ 32
      → At program p b
      → At program (p + length b + r) (0x5b ∷ [])
      → Chooses cases s t
      → Runs Acts program p s (p + length b + r + 1) t

  layer-Serves :
      (c : Case) (cases : List Case) (to_action inner leave : Bytes) (r : ℕ)
      → Jumps 0x57 (length inner + 3) to_action
      → Jumps 0x56 (r + 3) leave
      → length leave ≡ 5
      → Serves cases inner (length c.action.bytes + 6 + r)
      → Serves (c ∷ cases) (layer c to_action inner leave) r
  unfolding Serves
  layer-Serves c cases to_action inner leave r ahead away five ih program p s t small at land
        (matched {stack = stack} {w = w} condition taken acts) =
      let l = layer_at program p c to_action inner leave at in
      let size = length-layer c to_action inner leave in
      let start = At-bound program l.dest in
      let finish = At-bound program land in
      block c.condition.bytes l.condition condition (
        run_jumpi Acts program ahead l.test taken (omega arith) (omega arith) l.dest (
          jumpdest l.dest (
            block c.action.bytes l.action acts (
              run_jump Acts program away l.exit (omega arith) (omega arith) land
                (jumpdest land stay)))))
  layer-Serves c cases to_action inner leave r ahead away five ih program p s t small at land
        (passed {stack = stack} {w = w} condition next) =
      let l = layer_at program p c to_action inner leave at in
      let size = length-layer c to_action inner leave in
      let q = p + length c.condition.bytes + length to_action in
      let same : q + length inner + (length c.action.bytes + 6 + r)
          ≡ p + length (layer c to_action inner leave) + r =
        omega arith in
      block c.condition.bytes l.condition condition (
        run_past Acts program ahead l.test (
          subst (λ e. Runs Acts program q (stack, w) (e + 1) t) same
            (ih program q (stack, w) t small l.inside (At-same program (sym same) refl land) next)))
