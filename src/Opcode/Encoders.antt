-- ===== src/Opcode/Encoders.antt =====
-- The encoders of data portions and the modifiers of stack counts (src/ethereum_test_vm/opcode.py).
pub mod Exchange
pub mod JumpTable
pub mod Accepted
use Prim.Native.Nat.{bit_or}
use execution_spec_tests_gno.Base.{
  ℕ, zero, suc, ◌+◌, ◌-◌, ◌*◌, ◌/◌, ◌%◌, ◌≤◌, ◌<◌, ◌≡◌, refl, Bool, true, false, ◌&&◌, Option, none,
  some, List, [], ◌∷◌, ◌++◌, ltb, leb, if◌then◌else◌, Result, ok, raise, assertion_error,
  type_error, ◌>>=◌, ◌==◌, ◌^◌, ◌>>◌, require, length, map, arith,
}
use execution_spec_tests_gno.Base.Int.{ℤ, pos, negsuc, pos_part, ltb_ℤ, leb_ℤ, ◌-ℤ◌, ◌+ℤ◌}
use execution_spec_tests_gno.Base.Bytes.{Bytes, from_be, to_bytes_unsigned, to_bytes_signed}
use execution_spec_tests_gno.Opcode.Arg.{Arg, int, raw, ints, code, StackProperties}

-- `b"".join([i.to_bytes(2, "big", signed=True) for i in …])`
unfoldable pub branch_offsets : List ℤ → Result Bytes
unfolding to_bytes_signed
branch_offsets [] = ok []
branch_offsets (n ∷ ns) = do
  first ← to_bytes_signed 2 n
  rest ← branch_offsets ns
  ok (first ++ rest)

-- `[i for i in args if isinstance(i, int)]`
unfoldable pub ints_of : List Arg → List ℤ
ints_of [] = []
ints_of (int n ∷ args) = n ∷ ints_of args
ints_of (_ ∷ args) = ints_of args

-- A jump table: the largest index in one byte, and two bytes for each offset.
unfoldable pub jump_table : ℤ → List ℤ → Result Bytes
unfolding to_bytes_unsigned branch_offsets
jump_table max_index offsets = do
  first ← to_bytes_unsigned 1 max_index
  rest ← branch_offsets offsets
  ok (first ++ rest)

-- `len(xs) - 1`
abbrev last_index {ℓ} : {A : Type ℓ} → List A → ℤ
last_index [] = negsuc 0
last_index (x ∷ xs) = pos (length xs)

-- `_rjumpv_encoder`. An argument that is no integer is counted in the first byte, and skipped.
unfoldable pub rjumpv_encoder : List Arg → Result Bytes
unfolding jump_table ints_of
rjumpv_encoder (raw b ∷ []) = ok b
rjumpv_encoder (code b ∷ []) = ok b.bytes
rjumpv_encoder (ints ns ∷ []) = jump_table (last_index ns) ns
rjumpv_encoder args = jump_table (last_index args) (ints_of args)

abbrev between : ℤ → ℤ → ℤ → Bool
between lo n hi = leb_ℤ lo n && leb_ℤ n hi

-- The immediate of a pair x < y of stack positions, `(n - 1) << 4 | m - 1` for n = x - 1 and
-- m = y - x; the assertions make both positive.
unfoldable pub exchange_pair : ℤ → ℤ → Result Bytes
unfolding ◌+ℤ◌ to_bytes_unsigned
exchange_pair x y = do
  require (between (pos 2) x (pos 0x11)) assertion_error
  require (between (x +ℤ pos 1) y (x +ℤ pos 0x10)) assertion_error
  let n = pos_part x - 1
  let m = pos_part y - pos_part x
  to_bytes_unsigned 1 (pos (bit_or ((n - 1) * 2 ^ 4) (m - 1)))

-- `_exchange_encoder`
unfoldable pub exchange_encoder : List Arg → Result Bytes
unfolding exchange_pair to_bytes_unsigned
exchange_encoder (int imm ∷ []) = to_bytes_unsigned 1 imm
exchange_encoder (int x ∷ int y ∷ []) = exchange_pair x y
exchange_encoder (_ ∷ []) = raise type_error
exchange_encoder (_ ∷ _ ∷ []) = raise type_error
exchange_encoder _ = raise assertion_error

-- `_swapn_stack_properties_modifier`
unfoldable pub swapn_modifier : Bytes → StackProperties
unfolding from_be
swapn_modifier portion =
    let n = from_be 0 portion + 1 in record { popped = 0; pushed = 0; least = n + 1; most = n + 1 }

-- `_dupn_stack_properties_modifier`
unfoldable pub dupn_modifier : Bytes → StackProperties
unfolding from_be
dupn_modifier portion =
    let n = from_be 0 portion + 1 in record { popped = 0; pushed = 1; least = n; most = n + 1 }

-- `_exchange_stack_properties_modifier`; `imm >> 4` and `imm & 0x0F` by division.
unfoldable pub exchange_modifier : Bytes → StackProperties
unfolding from_be
exchange_modifier portion =
    let imm = from_be 0 portion in
    let n = imm / 2 ^ 4 + 1 in
    let m = imm % 2 ^ 4 + 1 in
    record { popped = 0; pushed = 0; least = n + m + 1; most = n + m + 1 }
