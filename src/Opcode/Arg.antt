-- ===== src/Opcode/Arg.antt =====
-- The arguments that opcodes and macros take (src/ethereum_test_vm/opcode.py).
use execution_spec_tests_gno.Base.{ℕ, Bool, Option, List, String, Result, none, false, []}
use execution_spec_tests_gno.Base.Int.{ℤ}
use execution_spec_tests_gno.Base.Bytes.{Bytes}
use execution_spec_tests_gno.Bytecode.{Bytecode}

-- `ints` is a list of integers; `raw` is `bytes`, or a hex string or object that converts to it.
pub data Arg : Type 0 where
  int : ℤ → Arg
  raw : Bytes → Arg
  ints : List ℤ → Arg
  code : Bytecode → Arg

-- What a `stack_properties_modifier` returns.
pub record StackProperties : Type 0 where
  pub popped : ℕ
  pub pushed : ℕ
  pub least : ℕ
  pub most : ℕ

pub record Opcode : Type 0 where
  pub bytecode : Bytecode
  pub data_portion_length : ℕ
  pub data_portion_formatter : Option (List Arg → Result Bytes)
  pub stack_properties_modifier : Option (Bytes → StackProperties)
  pub unchecked_stack : Bool
  pub kwargs : List String
  pub kwargs_defaults : List (String × Arg)

-- The keyword arguments of `Opcode.__new__`.
pub record Keywords : Type 0 where
  pub popped_stack_items : ℕ
  pub pushed_stack_items : ℕ
  pub max_stack_height : Option ℕ
  pub min_stack_height : Option ℕ
  pub data_portion_length : ℕ
  pub data_portion_formatter : Option (List Arg → Result Bytes)
  pub stack_properties_modifier : Option (Bytes → StackProperties)
  pub unchecked_stack : Bool
  pub terminating : Bool
  pub kwargs : List String
  pub kwargs_defaults : List (String × Arg)

abbrev pub defaults : Keywords
defaults = record {
  popped_stack_items = 0;
  pushed_stack_items = 0;
  max_stack_height = none;
  min_stack_height = none;
  data_portion_length = 0;
  data_portion_formatter = none;
  stack_properties_modifier = none;
  unchecked_stack = false;
  terminating = false;
  kwargs = [];
  kwargs_defaults = [];
}
