-- ===== src/Opcode/Table/System.antt =====
-- The opcodes of the enum `Opcodes`: logs (src/ethereum_test_vm/opcode.py).
use execution_spec_tests_gno.Base.{List, [], ◌∷◌}
use execution_spec_tests_gno.Opcode.Arg.{Opcode, defaults}
use execution_spec_tests_gno.Opcode.New.{new}

abbrev pub log0 : Opcode
log0 = new 0xa0 (record defaults { popped_stack_items = 2; kwargs = "offset" ∷ "size" ∷ [] })

abbrev pub log1 : Opcode
log1 =
    new 0xa1
      (record defaults { popped_stack_items = 3; kwargs = "offset" ∷ "size" ∷ "topic_1" ∷ [] })

abbrev pub log2 : Opcode
log2 = new 0xa2 (record defaults {
  popped_stack_items = 4;
  kwargs = "offset" ∷ "size" ∷ "topic_1" ∷ "topic_2" ∷ [];
})

abbrev pub log3 : Opcode
log3 = new 0xa3 (record defaults {
  popped_stack_items = 5;
  kwargs = "offset" ∷ "size" ∷ "topic_1" ∷ "topic_2" ∷ "topic_3" ∷ [];
})

abbrev pub log4 : Opcode
log4 = new 0xa4 (record defaults {
  popped_stack_items = 6;
  kwargs = "offset" ∷ "size" ∷ "topic_1" ∷ "topic_2" ∷ "topic_3" ∷ "topic_4" ∷ [];
})

-- In the order of the source.
abbrev pub system_opcodes : List Opcode
system_opcodes = log0 ∷ log1 ∷ log2 ∷ log3 ∷ log4 ∷ []
