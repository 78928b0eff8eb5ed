-- ===== src/Opcode/Table/Containers.antt =====
-- The opcodes of the enum `Opcodes`: EOF containers (src/ethereum_test_vm/opcode.py).
use execution_spec_tests_gno.Base.{List, [], ◌∷◌, some, true}
use execution_spec_tests_gno.Opcode.Arg.{Opcode, defaults}
use execution_spec_tests_gno.Opcode.New.{new}
use execution_spec_tests_gno.Opcode.Encoders.{
  dupn_modifier, exchange_encoder, exchange_modifier, rjumpv_encoder, swapn_modifier,
}

abbrev pub rjump : Opcode
rjump = new 0xe0 (record defaults { data_portion_length = 2 })

abbrev pub dataload : Opcode
dataload =
    new 0xd0
      (record defaults { popped_stack_items = 1; pushed_stack_items = 1; kwargs = "offset" ∷ [] })

abbrev pub dataloadn : Opcode
dataloadn = new 0xd1 (record defaults { pushed_stack_items = 1; data_portion_length = 2 })

abbrev pub datasize : Opcode
datasize = new 0xd2 (record defaults { pushed_stack_items = 1 })

abbrev pub datacopy : Opcode
datacopy =
    new 0xd3
      (record defaults { popped_stack_items = 3; kwargs = "dest_offset" ∷ "offset" ∷ "size" ∷ [] })

abbrev pub rjumpi : Opcode
rjumpi = new 0xe1 (record defaults { popped_stack_items = 1; data_portion_length = 2 })

abbrev pub rjumpv : Opcode
rjumpv =
    new 0xe2
      (record defaults { popped_stack_items = 1; data_portion_formatter = some rjumpv_encoder })

abbrev pub callf : Opcode
callf = new 0xe3 (record defaults { data_portion_length = 2; unchecked_stack = true })

abbrev pub retf : Opcode
retf = new 0xe4 (record defaults { terminating = true })

abbrev pub jumpf : Opcode
jumpf =
    new 0xe5
      (record defaults { data_portion_length = 2; unchecked_stack = true; terminating = true })

abbrev pub dupn : Opcode
dupn = new 0xe6 (record defaults {
  pushed_stack_items = 1;
  data_portion_length = 1;
  stack_properties_modifier = some dupn_modifier;
})

abbrev pub swapn : Opcode
swapn =
    new 0xe7
      (record defaults { data_portion_length = 1; stack_properties_modifier = some swapn_modifier })

abbrev pub exchange : Opcode
exchange = new 0xe8 (record defaults {
  data_portion_length = 1;
  data_portion_formatter = some exchange_encoder;
  stack_properties_modifier = some exchange_modifier;
})

abbrev pub eofcreate : Opcode
eofcreate = new 0xec (record defaults {
  popped_stack_items = 4;
  pushed_stack_items = 1;
  data_portion_length = 1;
  kwargs = "salt" ∷ "input_offset" ∷ "input_size" ∷ "value" ∷ [];
})

abbrev pub txcreate : Opcode
txcreate = new 0xed (record defaults {
  popped_stack_items = 5;
  pushed_stack_items = 1;
  kwargs = "tx_initcode_hash" ∷ "salt" ∷ "input_offset" ∷ "input_size" ∷ "value" ∷ [];
})

abbrev pub returncode : Opcode
returncode = new 0xee (record defaults {
  popped_stack_items = 2;
  data_portion_length = 1;
  terminating = true;
  kwargs = "auxdata_offset" ∷ "auxdata_size" ∷ [];
})

-- In the order of the source.
abbrev pub containers_opcodes : List Opcode
containers_opcodes =
    rjump ∷ dataload ∷ dataloadn ∷ datasize ∷ datacopy ∷ rjumpi ∷ rjumpv ∷ callf ∷ retf ∷ jumpf
    ∷ dupn ∷ swapn ∷ exchange ∷ eofcreate ∷ txcreate ∷ returncode ∷ []
