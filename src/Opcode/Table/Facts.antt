-- ===== src/Opcode/Table/Facts.antt =====
-- What holds of every member of the enums `Opcodes` and `UndefinedOpcodes`
-- (src/ethereum_test_vm/opcode.py).
use execution_spec_tests_gno.Base.{
  ℕ, ◌+◌, ◌<◌, ◌≡◌, refl, if◌then◌else◌, Bool, true, ◌&&◌, List, [], ◌∷◌, ◌++◌, arith, ◌==◌, leb,
  any, every, All, not, length, all_below, all_below_sound, &&-eq-true,
}
use execution_spec_tests_gno.Bytecode.{Bytecode}
use execution_spec_tests_gno.Bytecode.Valid.{IsValid}
use execution_spec_tests_gno.Opcode.Arg.{Opcode}
use execution_spec_tests_gno.Opcode.New.{new, int_of}
use execution_spec_tests_gno.Opcode.Table.{opcodes, undefined_opcodes}

-- Some member of the enum is the byte.
abbrev pub is_member : List Opcode → ℕ → Bool
is_member os b = any (λ o. int_of o == b) os

abbrev single_byte : Opcode → Bool
single_byte o = length o.bytecode.bytes == 1

abbrev counts_valid : Bytecode → Bool
counts_valid b =
    leb b.popped_stack_items b.min_stack_height
    && (leb b.min_stack_height b.max_stack_height
        && leb (b.min_stack_height + b.pushed_stack_items)
            (b.max_stack_height + b.popped_stack_items))

abbrev entry_valid : Opcode → Bool
entry_valid o = counts_valid o.bytecode && single_byte o

entry_valid_sound :
    (os : List Opcode)
    → every entry_valid os ≡ true
    → All (λ o. IsValid o.bytecode × (length o.bytecode.bytes ≡ 1)) os
entry_valid_sound [] h = tt
entry_valid_sound (o ∷ os) h =
    let (here, rest) = &&-eq-true (entry_valid o) (every entry_valid os) h in
    (ground arith, entry_valid_sound os rest)

-- The stack counts of every member of `Opcodes` and `UndefinedOpcodes` are consistent, and each is
-- one byte.
opcodes-IsValid :
    All (λ o. IsValid o.bytecode × (length o.bytecode.bytes ≡ 1)) (opcodes ++ undefined_opcodes)
unfolding new
opcodes-IsValid = entry_valid_sound (opcodes ++ undefined_opcodes) refl

-- Each byte is in one enum, and in both where it is that of `CLZ`.
abbrev classified : ℕ → Bool
classified b =
    if b == 0x1e
    then is_member opcodes b && is_member undefined_opcodes b
    else (if is_member opcodes b
        then not (is_member undefined_opcodes b)
        else is_member undefined_opcodes b)

classified_table : all_below 256 classified ≡ true
unfolding new int_of all_below
classified_table = refl

-- A byte other than that of `CLZ`, 0x1e, is a member of exactly one of `Opcodes` and
-- `UndefinedOpcodes`; the byte 0x1e is a member of both.
pub opcodes-cover :
    (b : ℕ)
    → b < 256
    → (if b == 0x1e
        then is_member opcodes b && is_member undefined_opcodes b
        else (if is_member opcodes b
            then not (is_member undefined_opcodes b)
            else is_member undefined_opcodes b))
      ≡ true
opcodes-cover b h = all_below_sound 256 classified b classified_table h
