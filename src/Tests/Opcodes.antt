-- ===== src/Tests/Opcodes.antt =====
-- Opcodes and their arguments at concrete inputs (src/ethereum_test_vm/opcode.py).
use execution_spec_tests_gno.Base.{
  List, ◌↔◌, ◌-◌, ◌^◌, ◌<◌, ◌≤◌, ◌≡◌, refl, true, false, ◌&&◌, not, ◌==◌, if◌then◌else◌, [], ◌∷◌,
  some, none, length, ok, raise, value_error, arith,
}
use execution_spec_tests_gno.Base.Int.{ℤ, pos, negsuc}
use execution_spec_tests_gno.Base.Bytes.{
  Bytes, to_bytes_signed, to_bytes_auto, to_bytes_unsigned, to_be,
}
use execution_spec_tests_gno.Bytecode.{Bytecode}
use execution_spec_tests_gno.Bytecode.Valid.{IsValid}
use execution_spec_tests_gno.Opcode.Arg.{Opcode, int, raw, ints}
use execution_spec_tests_gno.Opcode.New.{new, has_data_portion, with_data, get_item}
use execution_spec_tests_gno.Opcode.Encoders.{
  exchange_encoder, exchange_modifier, rjumpv_encoder, jump_table, branch_offsets,
}
use execution_spec_tests_gno.Opcode.Encoders.Exchange.{exchange-roundtrip}
use execution_spec_tests_gno.Opcode.Encoders.JumpTable.{
  read_table, as_list, as_arguments, rjumpv-roundtrip,
}
use execution_spec_tests_gno.Opcode.Encoders.Accepted.{IsEncodable, get_item-rjumpv_iff}
use execution_spec_tests_gno.Opcode.Table.Containers.{rjumpv}
use execution_spec_tests_gno.Opcode.Table.{opcodes, undefined_opcodes}
use execution_spec_tests_gno.Opcode.Table.Facts.{is_member, opcodes-cover}
use execution_spec_tests_gno.Opcode.Table.Memory.{sstore}
use execution_spec_tests_gno.Opcode.Push.{stack_argument_to_bytecode}
use execution_spec_tests_gno.Opcode.Push.Read.{Pushes}
use execution_spec_tests_gno.Opcode.Push.Word.{word_of, argument-Pushes, argument_refused}
use execution_spec_tests_gno.Opcode.Call.{call}
use execution_spec_tests_gno.Opcode.Call.Constants.{Words, Calls, call-Calls}

exchange-roundtrip_example :
    (b : Bytes) × (exchange_encoder (int (pos 2) ∷ int (pos 18) ∷ []) ≡ ok b)
    × (length b ≡ 1)
    × (exchange_modifier b ≡ record { popped = 0; pushed = 0; least = 18; most = 18 })
exchange-roundtrip_example =
    exchange-roundtrip 2 18 (omega arith) (omega arith) (omega arith) (omega arith)

-- `RJUMPV[3, -1]`
abbrev two_offsets : List ℤ
two_offsets = pos 3 ∷ negsuc 0 ∷ []

abbrev two_offsets_opcode : Opcode
unfolding with_data
two_offsets_opcode = with_data rjumpv (1 ∷ 0 ∷ 3 ∷ 255 ∷ 255 ∷ [])

two_offsets-encoded : get_item rjumpv (ints two_offsets ∷ []) ≡ ok two_offsets_opcode
unfolding get_item new with_data rjumpv_encoder jump_table branch_offsets to_bytes_signed
    to_bytes_unsigned to_bytes_auto to_be
two_offsets-encoded = refl

rjumpv-roundtrip_example :
    (b : Bytes) × (two_offsets_opcode.bytecode.bytes ≡ 0xe2 ∷ b)
    × (read_table b ≡ some two_offsets)
    × (length b ≡ 5)
    × (0 < 2)
    × (2 ≤ 256)
rjumpv-roundtrip_example =
    rjumpv-roundtrip two_offsets (ints two_offsets ∷ []) two_offsets_opcode (as_list refl)
      two_offsets-encoded

get_item-rjumpv_iff_example :
    ((o : Opcode) × (get_item rjumpv (int (pos 3) ∷ int (negsuc 0) ∷ []) ≡ ok o))
    ↔ IsEncodable two_offsets
get_item-rjumpv_iff_example =
    get_item-rjumpv_iff two_offsets (int (pos 3) ∷ int (negsuc 0) ∷ []) (as_arguments refl)

-- An argument that is no integer is counted, and has no offset in the table.
rjumpv_encoder-test : rjumpv_encoder (int (pos 1) ∷ raw [] ∷ []) ≡ ok (1 ∷ 0 ∷ 1 ∷ [])
unfolding rjumpv_encoder jump_table branch_offsets to_bytes_signed to_bytes_unsigned to_bytes_auto
    to_be
rjumpv_encoder-test = refl

minus_one-word : word_of (int (negsuc 0)) ≡ some (256 ^ 32 - 1)
unfolding word_of
minus_one-word = refl

argument-Pushes_example :
    (c : Bytecode) × (stack_argument_to_bytecode (int (negsuc 0)) ≡ ok c) × Pushes (256 ^ 32 - 1) c
argument-Pushes_example = argument-Pushes (int (negsuc 0)) (256 ^ 32 - 1) minus_one-word

too_large-word : word_of (int (pos (256 ^ 32))) ≡ none
unfolding word_of
too_large-word = refl

argument_refused_example : stack_argument_to_bytecode (int (pos (256 ^ 32))) ≡ raise value_error
argument_refused_example = argument_refused (int (pos (256 ^ 32))) refl too_large-word

opcodes-cover_example :
    (if 0x0c == 0x1e
      then is_member opcodes 0x0c && is_member undefined_opcodes 0x0c
      else (if is_member opcodes 0x0c
          then not (is_member undefined_opcodes 0x0c)
          else is_member undefined_opcodes 0x0c))
    ≡ true
opcodes-cover_example = opcodes-cover 0x0c (omega arith)

sstore-IsValid : IsValid sstore.bytecode
unfolding new
sstore-IsValid = omega arith

two-Words : Words (int (pos 300) ∷ int (pos 1) ∷ []) (300 ∷ 1 ∷ [])
unfolding word_of
two-Words = (refl, (refl, tt))

sstore-plain : has_data_portion sstore ≡ false
unfolding new has_data_portion
sstore-plain = refl

sstore-pops : 2 ≡ sstore.bytecode.popped_stack_items
unfolding new
sstore-pops = refl

call-Calls_example :
    (c : Bytecode) × (call sstore (int (pos 1) ∷ int (pos 300) ∷ []) false [] ≡ ok c)
    × Calls sstore (300 ∷ 1 ∷ []) c
call-Calls_example =
    call-Calls sstore (int (pos 1) ∷ int (pos 300) ∷ []) (300 ∷ 1 ∷ []) sstore-IsValid sstore-plain
      two-Words sstore-pops
