-- ===== src/Conversions.antt =====
-- Conversions between bytes, numbers and text, and the types of fixed size
-- (src/ethereum_test_base_types/conversions.py, src/ethereum_test_base_types/base_types.py).
pub mod Hex
pub mod Numbers
pub mod Sized
use execution_spec_tests_gno.Base.{
  ℕ, zero, suc, ◌+◌, ◌-◌, ◌*◌, ◌%◌, ◌^◌, Bool, true, false, ◌||◌, ◌&&◌, Option, none, some, List,
  [], ◌∷◌, ◌++◌, ◌==◌, ltb, leb, if◌then◌else◌, length, replicate, Result, ok, raise,
  assertion_error, value_error, exception, ◌>>=◌, ◌>>◌, require,
}
use execution_spec_tests_gno.Base.Int.{ℤ, pos, negsuc}
use execution_spec_tests_gno.Base.Bytes.{Bytes, bytes_eq, from_be, rjust, to_bytes_auto}
use execution_spec_tests_gno.Base.Text.{
  Str, without_spaces, hex_of, from_hex, hex_digits, hex, parse_int,
}
use execution_spec_tests_gno.Opcode.Push.{bytes_of_ints}

-- What is converted: `None`, bytes or an object with bytes, a list of integers, text, or an integer.
pub data Input : Type 0 where
  nothing : Input
  raw : Bytes → Input
  ints : List ℤ → Input
  text : Str → Input
  number : ℤ → Input

-- `"0x"`
abbrev pub prefixed : Str → Str
prefixed s = 0x30 ∷ 0x78 ∷ s

abbrev pub without_prefix : Str → Str
without_prefix (c ∷ x ∷ s) = if c == 0x30 && x == 0x78 then s else c ∷ x ∷ s
without_prefix s = s

abbrev pub even_length : Str → Str
even_length s = if length s % 2 == 1 then 0x30 ∷ s else s

-- `to_bytes`
unfoldable pub to_bytes : Input → Result Bytes
unfolding without_spaces from_hex bytes_of_ints
to_bytes nothing = raise exception
to_bytes (raw b) = ok b
to_bytes (ints ns) = bytes_of_ints ns
to_bytes (text s) = from_hex (even_length (without_prefix (without_spaces s)))
to_bytes (number n) = raise exception

-- `b.ljust(size, b"\0")`
abbrev pub ljust : ℕ → Bytes → Bytes
ljust size b = b ++ replicate (size - length b) 0

-- What `to_fixed_size_bytes` does with bytes.
unfoldable pub pad : ℕ → Bool → Bool → Bytes → Result Bytes
unfolding rjust
pad size left_padding right_padding b =
    if ltb size (length b)
    then raise exception
    else (if ltb (length b) size
        then (if left_padding
            then ok (rjust size b)
            else (if right_padding then ok (ljust size b) else raise exception))
        else ok b)

-- `to_fixed_size_bytes`
unfoldable pub to_fixed_size_bytes : Input → ℕ → Bool → Bool → Result Bytes
unfolding to_bytes to_bytes_auto pad
to_fixed_size_bytes (number n) size left_padding right_padding = to_bytes_auto size n
to_fixed_size_bytes input size left_padding right_padding = do
  b ← to_bytes input
  pad size left_padding right_padding b

-- `to_hex`
unfoldable pub to_hex : Input → Result Str
unfolding to_bytes hex_of
to_hex input = do b ← to_bytes input; ok (prefixed (hex_of b))

-- `to_number`
unfoldable pub to_number : Input → Result ℤ
unfolding parse_int from_be
to_number (number n) = ok n
to_number (text s) = parse_int s
to_number (raw b) = ok (pos (from_be 0 b))
to_number _ = raise exception

-- `hex(self)[2:]`: of a negative number this drops the sign and the 0.
abbrev pub hex_tail : ℤ → Str
unfolding hex_digits
hex_tail (pos n) = hex_digits n
hex_tail (negsuc m) = 0x78 ∷ hex_digits (m + 1)

-- `ZeroPaddedHexNumber.hex`
unfoldable pub zero_padded_hex : ℤ → Str
unfolding hex_tail
zero_padded_hex (pos zero) = prefixed (0x30 ∷ 0x30 ∷ [])
zero_padded_hex n = prefixed (even_length (hex_tail n))

-- `max_value` of the class of a length.
abbrev pub max_value : ℕ → ℕ
max_value byte_length = 2 ^ (8 * byte_length) - 1

-- The checks of `FixedSizeHexNumber.__new__`.
unfoldable pub fixed_size_number : ℕ → ℤ → Result ℕ
fixed_size_number byte_length (pos i) =
    if ltb (max_value byte_length) i then raise value_error else ok i
fixed_size_number byte_length (negsuc m) =
    if leb (max_value byte_length + 1) (m + 1)
    then raise value_error
    else ok (max_value byte_length + 1 - (m + 1))

-- `FixedSizeHexNumber.__new__`
unfoldable pub fixed_size_hex_number : ℕ → Input → Result ℕ
unfolding to_number fixed_size_number
fixed_size_hex_number byte_length input_number = do
  i ← to_number input_number
  fixed_size_number byte_length i

-- What a `FixedSizeBytes` is compared with: another one, or what is converted.
pub data Other : Type 0 where
  sized : Bytes → Other
  converted : Input → Other

-- `FixedSizeBytes.__eq__`
unfoldable pub fixed_size_eq : ℕ → Bytes → Other → Result Bool
unfolding to_fixed_size_bytes
fixed_size_eq byte_length b (sized other) = ok (bytes_eq b other)
fixed_size_eq byte_length b (converted nothing) = ok false
fixed_size_eq byte_length b (converted (ints ns)) = raise assertion_error
fixed_size_eq byte_length b (converted input) = do
  other ← to_fixed_size_bytes input byte_length false false
  ok (bytes_eq b other)
