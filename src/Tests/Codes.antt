-- ===== src/Tests/Codes.antt =====
-- Generated code at concrete inputs (src/ethereum_test_tools/code/generators.py).
use execution_spec_tests_gno.Base.{
  ℕ, suc, ◌+◌, ◌≡◌, refl, true, none, some, List, [], ◌∷◌, ◌++◌, arith, Result, ok, raise,
  not_implemented_error, value_error, replicate,
}
use execution_spec_tests_gno.Base.Int.{pos, negsuc}
use execution_spec_tests_gno.Base.Bytes.{Bytes}
use execution_spec_tests_gno.Bytecode.{Bytecode, concat}
use execution_spec_tests_gno.Opcode.Arg.{int, Opcode}
use execution_spec_tests_gno.Opcode.New.{new, get_item}
use execution_spec_tests_gno.Opcode.Push.{stack_argument_to_bytecode}
use execution_spec_tests_gno.Opcode.Call.{call}
use execution_spec_tests_gno.Opcode.Table.Arithmetic.{stop}
use execution_spec_tests_gno.Opcode.Table.Memory.{pop, gas, push0}
use execution_spec_tests_gno.Generators.{
  Case, len, legacy_switch, legacy_conditional, while_loop, legacy, eof_v1, eof_switch, conditional,
  code_gas_measure, initcode, Initcode, padding_of,
}
use execution_spec_tests_gno.Trie.{take, drop}
use execution_spec_tests_gno.Generators.Deploys.{head_code, initcode-deploys}
use execution_spec_tests_gno.Generators.Machine.{Runs}
use execution_spec_tests_gno.Generators.Branches.{holds, legacy_conditional-runs}
use execution_spec_tests_gno.Generators.Loops.{last, again}
use execution_spec_tests_gno.Generators.Loops.Run.{while_loop-runs}
use execution_spec_tests_gno.Generators.Switches.{matched, passed}
use execution_spec_tests_gno.Generators.Switches.Loop.{legacy_switch-runs}

abbrev map_bytes : Result Bytecode → Result Bytes
map_bytes (ok c) = ok c.bytes
map_bytes (raise e) = raise e

-- Pieces of code for a run: POP stands for code that counts down, GAS for code that leaves the count,
-- PUSH0 for code that leaves zero, and STOP for code that does nothing.
data Counts : Bytes → List ℕ × ℕ → List ℕ × ℕ → Type 0 where
  down : {stack : List ℕ} {n : ℕ} → Counts (0x50 ∷ []) (stack, suc n) (stack, n)
  count : {stack : List ℕ} {n : ℕ} → Counts (0x5a ∷ []) (stack, n) (n ∷ stack, n)
  no : {stack : List ℕ} {n : ℕ} → Counts (0x5f ∷ []) (stack, n) (0 ∷ stack, n)
  idle : {s : List ℕ × ℕ} → Counts (0x00 ∷ []) s s

abbrev case_of : Opcode → Opcode → Case
case_of condition action = record {
  condition = condition.bytecode;
  action = action.bytecode;
  terminating = none;
}

-- A case that does not hold, one that does, and one more that would.
abbrev three_cases : List Case
three_cases = case_of push0 stop ∷ case_of gas pop ∷ case_of gas stop ∷ []

legacy_switch-runs_example :
    (c : Bytecode) × (legacy_switch stop.bytecode three_cases ≡ ok c)
    × Runs Counts ((0xff ∷ []) ++ (c.bytes ++ 0xfe ∷ [])) 1 ([], 2) (1 + len c) ([], 1)
unfolding new
legacy_switch-runs_example =
    legacy_switch-runs Counts stop.bytecode three_cases (0xff ∷ []) (0xfe ∷ []) (omega arith)
      (omega arith) (passed no (matched count (omega arith) down))

legacy_conditional-runs_example :
    (c : Bytecode) × (legacy_conditional gas.bytecode pop.bytecode stop.bytecode ≡ ok c)
    × Runs Counts ((0xff ∷ []) ++ (c.bytes ++ [])) 1 ([], 1) (1 + len c) ([], 0)
unfolding new
legacy_conditional-runs_example =
    legacy_conditional-runs Counts gas.bytecode pop.bytecode stop.bytecode (0xff ∷ []) []
      (omega arith) (holds count (omega arith) down)

-- The count goes from 2 to 0, in two rounds.
while_loop-runs_example :
    (c : Bytecode) × (while_loop legacy pop.bytecode (some gas.bytecode) ≡ ok c)
    × Runs Counts ([] ++ (c.bytes ++ [])) 0 ([], 2) (0 + len c) ([], 0)
unfolding new
while_loop-runs_example =
    while_loop-runs Counts pop.bytecode gas.bytecode [] [] (omega arith) (omega arith)
      (again down count (omega arith) (last down count))

abbrev deployed_code : Bytes
deployed_code = 0x60 ∷ 0x01 ∷ 0x00 ∷ []

initcode-deploys_example :
    (i : Initcode) × (initcode (some deployed_code) (some 32) (some push0.bytecode) 2 (pos 0) ""
      ≡ ok i)
    × (take 12 i.bytecode.bytes ≡ 0x5f ∷ head_code 3 12)
    × (take 3 (drop 12 i.bytecode.bytes) ≡ deployed_code)
    × (drop 15 i.bytecode.bytes ≡ replicate 17 0)
    × (len i.bytecode ≡ 32)
    × (i.deployment_gas ≡ 600)
unfolding new
initcode-deploys_example =
    initcode-deploys deployed_code (some 32) push0.bytecode 2 0 "" (omega arith) (omega arith)
      (omega arith) (omega arith)

-- A padding byte that is no byte is refused where there is room for it, and ignored elsewhere.
padding_of-test :
    (padding_of (some 20) (pos 256) 15 ≡ raise value_error)
    × (padding_of (some 20) (negsuc 0) 15 ≡ raise value_error)
    × (padding_of (some 15) (pos 256) 15 ≡ ok [])
padding_of-test = (refl, refl, refl)

-- EOF code: the relative jump over the default action, and over the actions that follow.
eof_switch-test :
    map_bytes (eof_switch pop.bytecode (case_of push0 pop ∷ case_of gas stop ∷ []))
    ≡ ok (
        0x5f ∷ 0xe1 ∷ 0x00 ∷ 0x09 ∷ 0x5a ∷ 0xe1 ∷ 0x00 ∷ 0x04 ∷ 0x50 ∷ 0xe0 ∷ 0x00 ∷ 0x05 ∷ 0x00
        ∷ 0x50 ∷ 0xe0 ∷ 0x00 ∷ 0x00 ∷ 0x5b ∷ [])
unfolding eof_switch new get_item concat call stack_argument_to_bytecode
eof_switch-test = refl

eof_conditional-test :
    map_bytes (conditional eof_v1 gas.bytecode (some pop.bytecode) (some stop.bytecode))
    ≡ ok (0x5a ∷ 0xe1 ∷ 0x00 ∷ 0x01 ∷ 0x00 ∷ 0x50 ∷ [])
unfolding conditional new get_item concat call stack_argument_to_bytecode
eof_conditional-test = refl

eof_loop-test : while_loop eof_v1 pop.bytecode none ≡ raise not_implemented_error
unfolding while_loop
eof_loop-test = refl

-- The gas of two opcodes, of which one item is left.
code_gas_measure-test :
    map_bytes (code_gas_measure push0.bytecode 0 1 (int (pos 7)) true)
    ≡ ok (
        0x5a ∷ 0x5f ∷ 0x5a ∷ 0x90 ∷ 0x50 ∷ 0x90 ∷ 0x03 ∷ 0x60 ∷ 0x02 ∷ 0x90 ∷ 0x03 ∷ 0x60 ∷ 0x07
        ∷ 0x55 ∷ 0x00 ∷ [])
unfolding code_gas_measure new get_item concat call stack_argument_to_bytecode
code_gas_measure-test = refl
