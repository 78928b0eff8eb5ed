-- ===== src/Eof/Stack.antt =====
-- `compute_code_stack_values` (src/ethereum_test_types/eof/v1/__init__.py).
pub mod Returns
pub mod Straight
use execution_spec_tests_gno.Base.{
  ℕ, zero, suc, ◌+◌, ◌*◌, Bool, Option, none, some, List, [], ◌∷◌, ◌==◌, if◌then◌else◌, length,
  get_elem?,
}
use execution_spec_tests_gno.Base.Bytes.{Bytes}
use execution_spec_tests_gno.Base.Int.{ℤ, pos, ◌+ℤ◌, ◌-ℤ◌, leb_ℤ, pos_part, neg_part}
use execution_spec_tests_gno.Opcode.Arg.{Opcode}
use execution_spec_tests_gno.Opcode.New.{int_of}
use execution_spec_tests_gno.Opcode.Table.{opcodes}
use execution_spec_tests_gno.Opcode.Table.Containers.{rjumpv}

-- The three heights of the loop.
pub record Heights : Type 0 where
  pub stack_height : ℤ
  pub min_stack_height : ℤ
  pub max_stack_height : ℤ

-- `OPCODE_MAP.get`, of a list of opcodes.
abbrev pub find_opcode : ℕ → List Opcode → Option Opcode
find_opcode b [] = none
find_opcode b (o ∷ os) = if int_of o == b then some o else find_opcode b os

-- `OPCODE_MAP.get(b)`
unfoldable pub opcode_map : ℕ → Option Opcode
unfolding int_of
opcode_map b = find_opcode b opcodes

abbrev pub min_ℤ : ℤ → ℤ → ℤ
min_ℤ a b = if leb_ℤ a b then a else b

abbrev pub max_ℤ : ℤ → ℤ → ℤ
max_ℤ a b = if leb_ℤ a b then b else a

-- What an opcode does to the heights.
unfoldable pub after_opcode : Opcode → Heights → Heights
unfolding ◌+ℤ◌ ◌-ℤ◌
after_opcode o h =
    let popped = h.stack_height -ℤ pos o.bytecode.popped_stack_items in
    let pushed = popped +ℤ pos o.bytecode.pushed_stack_items in
    record {
      stack_height = pushed;
      min_stack_height = min_ℤ popped h.min_stack_height;
      max_stack_height = max_ℤ pushed h.max_stack_height;
    }

-- `op == Op.RJUMPV`
abbrev pub is_rjumpv : Opcode → Bool
is_rjumpv o = int_of o == int_of rjumpv

-- The index after an opcode at an index.
unfoldable pub next_index : Bytes → ℕ → Opcode → ℕ
unfolding int_of
next_index code_bytes i o =
    if is_rjumpv o
    then (elim (get_elem? code_bytes (i + 1)) [ none ↦ i + 1 | some count ↦ i + 1 + count * 2 ])
    else i + (1 + o.data_portion_length)

-- The values that are returned. The largest height is never below zero.
abbrev pub values_of : Heights → ℕ × ℕ × ℕ
values_of h = (
  pos_part h.min_stack_height + neg_part h.min_stack_height,
  pos_part h.stack_height,
  pos_part h.max_stack_height,
)

-- `while i < len(code)`, on fuel; `none` when it runs out.
unfoldable pub stack_loop : ℕ → Bytes → ℕ → Heights → Option (ℕ × ℕ × ℕ)
unfolding opcode_map after_opcode next_index
stack_loop zero code_bytes i h = none
stack_loop (suc fuel) code_bytes i h = elim (get_elem? code_bytes i) [
  | none ↦ some (values_of h)
  | some b ↦ elim (opcode_map b) [
    | none ↦ some (0, 0, 0)
    | some o ↦ stack_loop fuel code_bytes (next_index code_bytes i o) (after_opcode o h)
  ]
]

abbrev pub no_heights : Heights
no_heights = record { stack_height = pos 0; min_stack_height = pos 0; max_stack_height = pos 0 }

-- `compute_code_stack_values`: each round moves on by a byte at least.
unfoldable pub compute_code_stack_values : Bytes → Option (ℕ × ℕ × ℕ)
unfolding stack_loop
compute_code_stack_values code_bytes = stack_loop (length code_bytes + 1) code_bytes 0 no_heights
