-- ===== src/Tests/Eofs.antt =====
-- EOF code at concrete inputs (src/ethereum_test_types/eof/v1/__init__.py).
use execution_spec_tests_gno.Base.{
  ℕ, ◌-◌, ◌≡◌, refl, some, List, [], ◌∷◌, All, true, ok, ◌*◌, length, filter, map, ◌++◌,
}
use execution_spec_tests_gno.Base.Bytes.{Bytes, to_bytes_unsigned}
use execution_spec_tests_gno.Base.Int.{◌-ℤ◌}
use execution_spec_tests_gno.Bytecode.{empty, concat}
use execution_spec_tests_gno.Opcode.New.{new, int_of}
use execution_spec_tests_gno.Opcode.Table.Arithmetic.{add}
use execution_spec_tests_gno.Opcode.Table.Pushes.{push1}
use execution_spec_tests_gno.Eof.Stack.{
  compute_code_stack_values, stack_loop, opcode_map, after_opcode, next_index,
}
use execution_spec_tests_gno.Eof.Stack.Returns.{compute_code_stack_values-returns}
use execution_spec_tests_gno.Eof.Stack.Straight.{
  Instruction, IsInstruction, code_of, counts_from, top_from, compute_code_stack_values-straight,
}
use execution_spec_tests_gno.Eof.Section.{
  Section, header_size, section_of, code_kind, container_section, data_section, header, headers,
  sizes, list_header, type_definition, entry_of,
}
use execution_spec_tests_gno.Eof.Container.{
  container_of, bytecode, assemble, with_types, group_headers, body_bytes, type_entries, type_entry,
}
use execution_spec_tests_gno.Eof.Headers.{read_header, is_listed, list_header-roundtrip}
use execution_spec_tests_gno.Eof.Entries.{length-type_entries, sizes_type, writes_type}

-- `PUSH1[7] + ADD`
abbrev push_and_add : List Instruction
push_and_add =
    record { opcode = push1; immediate = 7 ∷ [] } ∷ record { opcode = add; immediate = [] } ∷ []

push_and_add-AreInstructions : All IsInstruction push_and_add
unfolding new int_of opcode_map
push_and_add-AreInstructions = (
  record { known = refl; no_table = refl; long_enough = refl },
  (record { known = refl; no_table = refl; long_enough = refl }, tt),
)

compute_code_stack_values-straight_example :
    compute_code_stack_values (code_of push_and_add)
    ≡ some (
      (counts_from empty push_and_add).popped_stack_items,
      (counts_from empty push_and_add).pushed_stack_items
          - (counts_from empty push_and_add).popped_stack_items,
      top_from 0 empty push_and_add,
    )
compute_code_stack_values-straight_example =
    compute_code_stack_values-straight push_and_add push_and_add-AreInstructions

compute_code_stack_values-returns_example :
    (v : ℕ × ℕ × ℕ) × (compute_code_stack_values (0x60 ∷ []) ≡ some v)
compute_code_stack_values-returns_example = compute_code_stack_values-returns (0x60 ∷ [])

-- The values of `PUSH1[7] + ADD`. The sum of the opcodes pops one item, leaves one and is two items high
-- in between; the outputs and the height are counted without the item that is there at the start.
push_and_add-test :
    ((counts_from empty push_and_add).popped_stack_items ≡ 1)
    × ((counts_from empty push_and_add).pushed_stack_items ≡ 1)
    × ((counts_from empty push_and_add).max_stack_height ≡ 2)
unfolding new concat
push_and_add-test = (refl, refl, refl)

compute_code_stack_values-test : compute_code_stack_values (0x60 ∷ 7 ∷ 1 ∷ []) ≡ some (1, 0, 1)
unfolding compute_code_stack_values stack_loop opcode_map after_opcode next_index new int_of
compute_code_stack_values-test = refl

-- Behind `PUSH0 + RJUMPV[0x5050]` the loop reads the bytes of the table as opcodes, two of them `POP`.
rjumpv-test : compute_code_stack_values (0x5f ∷ 0xe2 ∷ 0 ∷ 0x50 ∷ 0x50 ∷ 0 ∷ []) ≡ some (2, 0, 1)
unfolding compute_code_stack_values stack_loop opcode_map after_opcode next_index new int_of
rjumpv-test = refl

abbrev one_entry : Bytes
one_entry = 0 ∷ 0x80 ∷ 0 ∷ 0 ∷ []

-- Code, code whose entry is not written, and data.
abbrev three_sections : List Section
three_sections =
    section_of code_kind (0 ∷ [])
    ∷ record (section_of code_kind (0 ∷ [])) { skip_types_body_listing = true }
    ∷ data_section []
    ∷ []

three_sections-entries : type_entries three_sections ≡ ok (8, one_entry)
unfolding type_entries type_entry type_definition entry_of to_bytes_unsigned ◌-ℤ◌
three_sections-entries = refl

length-type_entries_example :
    (8 ≡ 4 * length (filter sizes_type three_sections))
    × (length one_entry ≡ 4 * length (filter writes_type three_sections))
length-type_entries_example = length-type_entries three_sections 8 one_entry three_sections-entries

-- A container section of two bytes and one of one byte.
abbrev second_container : List Section
second_container = container_section (0xb ∷ []) ∷ []

abbrev two_containers : Bytes
two_containers = 3 ∷ 0 ∷ 2 ∷ 0 ∷ 0 ∷ 0 ∷ 2 ∷ 0 ∷ 0 ∷ 0 ∷ 1 ∷ []

two_containers-list_header :
    list_header (container_section (0 ∷ 1 ∷ [])) second_container ≡ ok two_containers
unfolding list_header headers header sizes to_bytes_unsigned
two_containers-list_header = refl

list_header-roundtrip_example :
    read_header (two_containers ++ 0xff ∷ [])
    ≡ some (
      3,
      map header_size (filter is_listed (container_section (0 ∷ 1 ∷ []) ∷ second_container)),
      0xff ∷ [],
    )
list_header-roundtrip_example =
    list_header-roundtrip (container_section (0 ∷ 1 ∷ [])) second_container two_containers
      (0xff ∷ []) refl refl (refl, tt) two_containers-list_header

-- Code, data and a container: the container comes before the data in the header and in the body.
bytecode-test :
    bytecode (
      container_of (
        section_of code_kind (0x0a ∷ [])
        ∷ data_section (0x0c ∷ [])
        ∷ container_section (0x0b ∷ [])
        ∷ []))
    ≡ ok (
        0xef ∷ 0 ∷ 1 ∷ 1 ∷ 0 ∷ 4 ∷ 2 ∷ 0 ∷ 1 ∷ 0 ∷ 1 ∷ 3 ∷ 0 ∷ 1 ∷ 0 ∷ 0 ∷ 0 ∷ 1 ∷ 0xff ∷ 0 ∷ 1 ∷ 0
        ∷ 0 ∷ 0x80 ∷ 0 ∷ 0 ∷ 0x0a ∷ 0x0b ∷ 0x0c ∷ [])
unfolding bytecode assemble with_types group_headers body_bytes type_entries type_entry
    type_definition entry_of list_header headers header sizes to_bytes_unsigned
    compute_code_stack_values stack_loop opcode_map after_opcode next_index new int_of ◌-ℤ◌
bytecode-test = refl
