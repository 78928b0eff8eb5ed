-- ===== src/Opcode/Table/Calls.antt =====
-- The opcodes of the enum `Opcodes`: creation, calls and halting (src/ethereum_test_vm/opcode.py).
use execution_spec_tests_gno.Base.{List, [], ◌∷◌, true}
use execution_spec_tests_gno.Opcode.Arg.{Opcode, defaults, code}
use execution_spec_tests_gno.Opcode.New.{new}
use execution_spec_tests_gno.Opcode.Table.Memory.{gas}

abbrev pub create : Opcode
create = new 0xf0 (record defaults {
  popped_stack_items = 3;
  pushed_stack_items = 1;
  kwargs = "value" ∷ "offset" ∷ "size" ∷ [];
})

abbrev pub call : Opcode
call = new 0xf1 (record defaults {
  popped_stack_items = 7;
  pushed_stack_items = 1;
  kwargs =
      "gas" ∷ "address" ∷ "value" ∷ "args_offset" ∷ "args_size" ∷ "ret_offset" ∷ "ret_size" ∷ [];
  kwargs_defaults = ("gas", code gas.bytecode) ∷ [];
})

abbrev pub callcode : Opcode
callcode = new 0xf2 (record defaults {
  popped_stack_items = 7;
  pushed_stack_items = 1;
  kwargs =
      "gas" ∷ "address" ∷ "value" ∷ "args_offset" ∷ "args_size" ∷ "ret_offset" ∷ "ret_size" ∷ [];
  kwargs_defaults = ("gas", code gas.bytecode) ∷ [];
})

abbrev pub return : Opcode
return = new 0xf3 (record defaults {
  popped_stack_items = 2;
  terminating = true;
  kwargs = "offset" ∷ "size" ∷ [];
})

abbrev pub delegatecall : Opcode
delegatecall = new 0xf4 (record defaults {
  popped_stack_items = 6;
  pushed_stack_items = 1;
  kwargs = "gas" ∷ "address" ∷ "args_offset" ∷ "args_size" ∷ "ret_offset" ∷ "ret_size" ∷ [];
  kwargs_defaults = ("gas", code gas.bytecode) ∷ [];
})

abbrev pub create2 : Opcode
create2 = new 0xf5 (record defaults {
  popped_stack_items = 4;
  pushed_stack_items = 1;
  kwargs = "value" ∷ "offset" ∷ "size" ∷ "salt" ∷ [];
})

abbrev pub extcall : Opcode
extcall = new 0xf8 (record defaults {
  popped_stack_items = 4;
  pushed_stack_items = 1;
  kwargs = "address" ∷ "args_offset" ∷ "args_size" ∷ "value" ∷ [];
})

abbrev pub extdelegatecall : Opcode
extdelegatecall = new 0xf9 (record defaults {
  popped_stack_items = 3;
  pushed_stack_items = 1;
  kwargs = "address" ∷ "args_offset" ∷ "args_size" ∷ [];
})

abbrev pub staticcall : Opcode
staticcall = new 0xfa (record defaults {
  popped_stack_items = 6;
  pushed_stack_items = 1;
  kwargs = "gas" ∷ "address" ∷ "args_offset" ∷ "args_size" ∷ "ret_offset" ∷ "ret_size" ∷ [];
  kwargs_defaults = ("gas", code gas.bytecode) ∷ [];
})

abbrev pub extstaticcall : Opcode
extstaticcall = new 0xfb (record defaults {
  popped_stack_items = 3;
  pushed_stack_items = 1;
  kwargs = "address" ∷ "args_offset" ∷ "args_size" ∷ [];
})

abbrev pub returndataload : Opcode
returndataload =
    new 0xf7
      (record defaults { popped_stack_items = 1; pushed_stack_items = 1; kwargs = "offset" ∷ [] })

abbrev pub revert : Opcode
revert = new 0xfd (record defaults {
  popped_stack_items = 2;
  terminating = true;
  kwargs = "offset" ∷ "size" ∷ [];
})

abbrev pub invalid : Opcode
invalid = new 0xfe (record defaults { terminating = true })

abbrev pub selfdestruct : Opcode
selfdestruct = new 0xff (record defaults { popped_stack_items = 1; kwargs = "address" ∷ [] })

-- In the order of the source.
abbrev pub calls_opcodes : List Opcode
calls_opcodes =
    create ∷ call ∷ callcode ∷ return ∷ delegatecall ∷ create2 ∷ extcall ∷ extdelegatecall
    ∷ staticcall ∷ extstaticcall ∷ returndataload ∷ revert ∷ invalid ∷ selfdestruct ∷ []
