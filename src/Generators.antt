-- ===== src/Generators.antt =====
-- Code generators (src/ethereum_test_tools/code/generators.py). The helpers take `Bytecode` and opcodes
-- alike, and an opcode is its bytecode.
pub mod Jumps
pub mod Machine
pub mod Layers
pub mod Branches
pub mod Loops
pub mod Deploys
pub mod Switches
use execution_spec_tests_gno.Base.{
  ℕ, zero, suc, ◌+◌, ◌-◌, ◌*◌, ◌/◌, Bool, true, false, not, Option, none, some, List, [], ◌∷◌, ◌++◌,
  String, ltb, leb, if◌then◌else◌, length, replicate, reverse, Result, ok, raise, assertion_error,
  value_error, not_implemented_error, ◌>>=◌, ◌>>◌, require,
}
use execution_spec_tests_gno.Base.Int.{ℤ, pos, negsuc}
use execution_spec_tests_gno.Base.Bytes.{Bytes}
use execution_spec_tests_gno.Bytecode.{Bytecode, empty, concat, mul}
use execution_spec_tests_gno.Opcode.Arg.{Arg, int, code, Opcode}
use execution_spec_tests_gno.Opcode.New.{get_item}
use execution_spec_tests_gno.Opcode.Call.{call}
use execution_spec_tests_gno.Opcode.Table.Arithmetic.{stop, add, sub, eq}
use execution_spec_tests_gno.Opcode.Table.Environment.{calldataload, codecopy}
use execution_spec_tests_gno.Opcode.Table.Memory.{pop, sstore, jump, jumpi, pc, gas, jumpdest}
use execution_spec_tests_gno.Opcode.Table.Pushes.{push1, push2, push4}
use execution_spec_tests_gno.Opcode.Table.Stack.{dup2, dup3, swap1}
use execution_spec_tests_gno.Opcode.Table.Calls.{return}
use execution_spec_tests_gno.Opcode.Table.Containers.{rjump, rjumpi}
use execution_spec_tests_gno.Fork.Gas.{ceiling_division}

-- `EVMCodeType`
pub data EvmCodeType : Type 0 where
  legacy eof_v1 : EvmCodeType

abbrev or_empty : Option Bytecode → Bytecode
or_empty none = empty
or_empty (some c) = c

abbrev code_or_none : Option Bytes → Bytes
code_or_none none = []
code_or_none (some b) = b

-- `op(a, …)`
abbrev pub run_op : Opcode → List Arg → Result Bytecode
run_op o args = call o args false []

-- `op[a]`
abbrev pub with_portion : Opcode → Arg → Result Bytecode
with_portion o a = do built ← get_item o (a ∷ []); ok built.bytecode

-- `Op.JUMP(Op.ADD(Op.PC, n))`, and `Op.JUMPI(Op.ADD(Op.PC, n), condition)`.
abbrev pub jump_ahead : Opcode → ℕ → List Arg → Result Bytecode
jump_ahead o n rest = do
  target ← run_op add (code pc.bytecode ∷ int (pos n) ∷ [])
  run_op o (code target ∷ rest)

-- `len(code)`
abbrev pub len : Bytecode → ℕ
len c = length c.bytes

pub record Initcode : Type 0 where
  pub bytecode : Bytecode
  pub deploy_code : Bytes
  pub execution_gas : ℕ
  pub deployment_gas : ℕ

abbrev pub gas_per_deployed_code_byte : ℕ
gas_per_deployed_code_byte = 0xc8

-- The gas of the code: five instructions of 3, and the copy.
abbrev pub initcode_gas : ℕ → ℕ
initcode_gas code_length =
    15
    + (3 + 3 * ceiling_division code_length 32 + 3 * code_length + code_length * code_length / 512)

-- `bytes([padding_byte] * n)`
abbrev pub repeat_byte : ℕ → ℤ → Result Bytes
repeat_byte zero padding_byte = ok []
repeat_byte (suc n) (pos b) = if ltb b 256 then ok (replicate (suc n) b) else raise value_error
repeat_byte (suc n) (negsuc b) = raise value_error

-- The padding, to a length where one is given.
abbrev pub padding_of : Option ℕ → ℤ → ℕ → Result Bytes
padding_of none padding_byte so_far = ok []
padding_of (some initcode_length) padding_byte so_far =
    if leb so_far initcode_length
    then repeat_byte (initcode_length - so_far) padding_byte
    else raise assertion_error

-- The code before the deployed code.
unfoldable pub initcode_head : Bytecode → ℕ → Result Bytecode
initcode_head initcode_prefix code_length = do
  size ← run_op push2 (int (pos code_length) ∷ [])
  offset ← run_op push1 (int (pos 0) ∷ [])
  require (leb (0x0b + len initcode_prefix) 0xff) assertion_error
  start ← run_op push1 (int (pos (0x0b + len initcode_prefix)) ∷ [])
  let sized = concat (concat (concat initcode_prefix size) offset) dup2.bytecode
  ok (concat (concat (concat (concat sized start) dup3.bytecode) codecopy.bytecode) return.bytecode)

-- `Initcode`. The gas of the prefix is an argument that the code overwrites.
unfoldable pub initcode :
    Option Bytes → Option ℕ → Option Bytecode → ℕ → ℤ → String → Result Initcode
unfolding initcode_head
initcode deploy_code initcode_length initcode_prefix prefix_execution_gas padding_byte label = do
  let deployed = code_or_none deploy_code
  head ← initcode_head (or_empty initcode_prefix) (length deployed)
  padding ← padding_of initcode_length padding_byte (length (head.bytes ++ deployed))
  ok (record {
    bytecode = record head {
      bytes = (head.bytes ++ deployed) ++ padding;
      terminating = false;
      name = label;
    };
    deploy_code = deployed;
    execution_gas = initcode_gas (length deployed);
    deployment_gas = gas_per_deployed_code_byte * length deployed;
  })

-- `CodeGasMeasure`
unfoldable pub code_gas_measure : Bytecode → ℕ → ℕ → Arg → Bool → Result Bytecode
unfolding mul
code_gas_measure measured overhead_cost extra_stack_items sstore_key stops = do
  let start = concat (concat gas.bytecode measured) gas.bytecode
  drops ← mul (concat swap1.bytecode pop.bytecode) (pos extra_stack_items)
  overhead ← run_op push1 (int (pos (overhead_cost + 2)) ∷ [])
  store ← run_op sstore (sstore_key ∷ code sub.bytecode ∷ [])
  let difference =
      concat (concat (concat (concat swap1.bytecode sub.bytecode) overhead) swap1.bytecode) store
  let res = concat (concat start drops) difference
  ok (if stops then concat res stop.bytecode else res)

-- `Conditional` of legacy code.
unfoldable pub legacy_conditional : Bytecode → Bytecode → Bytecode → Result Bytecode
legacy_conditional condition if_true if_false = do
  let true_branch = concat jumpdest.bytecode if_true
  skip ← jump_ahead jump (len true_branch + 3) []
  let false_branch = concat if_false skip
  test ← jump_ahead jumpi (len false_branch + 3) (code condition ∷ [])
  ok (concat (concat (concat test false_branch) true_branch) jumpdest.bytecode)

-- `Conditional` of EOF code.
unfoldable pub eof_conditional : Bytecode → Bytecode → Bytecode → Result Bytecode
eof_conditional condition if_true if_false = do
  skip ← with_portion rjump (int (pos (len if_true)))
  let false_branch = if if_false.terminating then if_false else concat if_false skip
  test_op ← get_item rjumpi (int (pos (len false_branch)) ∷ [])
  test ← run_op test_op (code condition ∷ [])
  ok (concat (concat test false_branch) if_true)

-- `Conditional`
unfoldable pub conditional :
    EvmCodeType → Bytecode → Option Bytecode → Option Bytecode → Result Bytecode
unfolding legacy_conditional eof_conditional
conditional legacy condition if_true if_false =
    legacy_conditional condition (or_empty if_true) (or_empty if_false)
conditional eof_v1 condition if_true if_false =
    eof_conditional condition (or_empty if_true) (or_empty if_false)

-- `Op.JUMP(Op.SUB(Op.PC, Op.PUSH4[n]))`, and with a condition.
abbrev pub jump_back : Opcode → ℕ → List Arg → Result Bytecode
jump_back o n rest = do
  distance ← with_portion push4 (int (pos n))
  target ← run_op sub (code pc.bytecode ∷ code distance ∷ [])
  run_op o (code target ∷ rest)

-- `While`
unfoldable pub while_loop : EvmCodeType → Bytecode → Option Bytecode → Result Bytecode
while_loop eof_v1 body condition = raise not_implemented_error
while_loop legacy body none = do
  back ← jump_back jump (len body + 6) []
  ok (concat (concat (concat empty jumpdest.bytecode) body) back)
while_loop legacy body (some condition) = do
  back ← jump_back jumpi (len body + len condition + 6) (code condition ∷ [])
  ok (concat (concat (concat empty jumpdest.bytecode) body) back)

-- `Case`
pub record Case : Type 0 where
  pub condition : Bytecode
  pub action : Bytecode
  pub terminating : Option Bool

-- `Case.is_terminating`
abbrev pub is_terminating : Case → Bool
is_terminating c = elim c.terminating [ none ↦ c.action.terminating | some b ↦ b ]

-- `CalldataCase`
unfoldable pub calldata_case : Arg → ℕ → Bytecode → Option Bool → Result Case
calldata_case value position action ends = do
  loaded ← run_op calldataload (int (pos position) ∷ [])
  condition ← run_op eq (code loaded ∷ value ∷ [])
  ok (record { condition = condition; action = action; terminating = ends })

-- `len(case.action) + 6`, summed over the cases.
abbrev pub legacy_lengths : List Case → ℕ
legacy_lengths [] = 0
legacy_lengths (c ∷ cs) = len c.action + 6 + legacy_lengths cs

-- The loop over `reversed(cases)` of legacy code.
unfoldable pub legacy_loop : List Case → ℕ → ℕ → Bytecode → Result Bytecode
legacy_loop [] action_jump condition_jump bytecode = ok bytecode
legacy_loop (c ∷ cs) action_jump condition_jump bytecode = do
  let action_jump_length = action_jump - (len c.action + 6)
  leave ← jump_ahead jump action_jump_length []
  let action = concat (concat jumpdest.bytecode c.action) leave
  condition ← jump_ahead jumpi condition_jump (code c.condition ∷ [])
  legacy_loop cs action_jump_length (condition_jump + (len condition + len action))
      (concat (concat condition bytecode) action)

-- `Switch` of legacy code, of a default action and at least its cases.
unfoldable pub legacy_switch : Bytecode → List Case → Result Bytecode
unfolding legacy_loop
legacy_switch default_action cases = do
  let action_jump = legacy_lengths cases + 3
  leave ← jump_ahead jump action_jump []
  let start = concat default_action leave
  whole ← legacy_loop (reverse cases) action_jump (len start + 3) start
  ok (concat whole jumpdest.bytecode)

-- What an action takes behind its own code in EOF: an RJUMP of 3 bytes, unless it ends.
abbrev pub rjump_length : Case → ℕ
rjump_length c = if is_terminating c then 0 else 3

abbrev pub eof_lengths : List Case → ℕ
eof_lengths [] = 0
eof_lengths (c ∷ cs) = len c.action + rjump_length c + eof_lengths cs

-- The loop over `reversed(cases)` of EOF code.
unfoldable pub eof_loop : List Case → ℕ → ℕ → Bytecode → Result Bytecode
eof_loop [] action_jump condition_jump bytecode = ok bytecode
eof_loop (c ∷ cs) action_jump condition_jump bytecode = do
  let action_jump_length = action_jump - (len c.action + rjump_length c)
  action ←
      (if is_terminating c then ok c.action else (do
        leave ← with_portion rjump (int (pos action_jump_length))
        ok (concat c.action leave)))
  test_op ← get_item rjumpi (int (pos condition_jump) ∷ [])
  condition ← run_op test_op (code c.condition ∷ [])
  eof_loop cs action_jump_length (condition_jump + (len condition + len action))
      (concat (concat condition bytecode) action)

-- `Switch` of EOF code.
unfoldable pub eof_switch : Bytecode → List Case → Result Bytecode
unfolding eof_loop
eof_switch default_action cases = do
  leave ← with_portion rjump (int (pos (eof_lengths cases)))
  let start = concat default_action leave
  whole ← eof_loop (reverse cases) (eof_lengths cases) (len start) start
  ok (concat whole jumpdest.bytecode)
