-- ===== src/Tests/Conversions.antt =====
-- Conversions at concrete inputs (src/ethereum_test_base_types/conversions.py,
-- src/ethereum_test_base_types/base_types.py).
use execution_spec_tests_gno.Base.{
  ◌-◌, ◌%◌, ◌^◌, ◌≡◌, ◌↔◌, ◌⊎◌, refl, true, false, [], ◌∷◌, arith, ok, raise, value_error,
  exception, length, ◌==◌,
}
use execution_spec_tests_gno.Base.Int.{pos, negsuc}
use execution_spec_tests_gno.Base.Bytes.{Bytes}
use execution_spec_tests_gno.Base.Text.{Str}
use execution_spec_tests_gno.Conversions.{
  raw, text, number, to_bytes, to_hex, to_number, to_fixed_size_bytes, zero_padded_hex,
  fixed_size_hex_number, fixed_size_eq, converted,
}
use execution_spec_tests_gno.Conversions.Hex.{to_bytes-to_hex}
use execution_spec_tests_gno.Conversions.Numbers.{zero_padded_hex-roundtrip}
use execution_spec_tests_gno.Conversions.Sized.{
  Accepts, Stands, to_fixed_size_bytes-raw, to_fixed_size_bytes-number, fixed_size_hex_number_iff,
}

to_bytes-to_hex_example :
    (h : Str) × (to_hex (raw (0x0a ∷ 0xff ∷ [])) ≡ ok h)
    × (length h ≡ 6)
    × (to_bytes (text h) ≡ ok (0x0a ∷ 0xff ∷ []))
to_bytes-to_hex_example = to_bytes-to_hex (0x0a ∷ 0xff ∷ []) (omega arith, (omega arith, tt))

zero_padded_hex-roundtrip_example :
    (to_number (text (zero_padded_hex (pos 0xabc))) ≡ ok (pos 0xabc))
    × (length (zero_padded_hex (pos 0xabc)) % 2 ≡ 0)
zero_padded_hex-roundtrip_example = zero_padded_hex-roundtrip 0xabc

to_fixed_size_bytes-raw_example :
    (Accepts 4 true false (1 ∷ 2 ∷ [])
      × (out : Bytes) × (to_fixed_size_bytes (raw (1 ∷ 2 ∷ [])) 4 true false ≡ ok out)
      × (length out ≡ 4))
    ⊎ ((¬ Accepts 4 true false (1 ∷ 2 ∷ []))
        × (to_fixed_size_bytes (raw (1 ∷ 2 ∷ [])) 4 true false ≡ raise exception))
to_fixed_size_bytes-raw_example = to_fixed_size_bytes-raw 4 true false (1 ∷ 2 ∷ [])

to_fixed_size_bytes-number_example :
    (b : Bytes) × (to_fixed_size_bytes (number (pos 0x1234)) 20 false false ≡ ok b)
    × (length b ≡ 20)
    × (to_number (raw b) ≡ ok (pos 0x1234))
    × (fixed_size_eq 20 b (converted (number (pos 7))) ≡ ok (0x1234 == 7))
to_fixed_size_bytes-number_example =
    to_fixed_size_bytes-number 20 0x1234 7 false false (omega arith) (omega arith)

fixed_size_hex_number_iff_example :
    (fixed_size_hex_number 32 (number (negsuc 0)) ≡ ok (256 ^ 32 - 1))
    ↔ Stands 32 (negsuc 0) (256 ^ 32 - 1)
fixed_size_hex_number_iff_example = fixed_size_hex_number_iff 32 (negsuc 0) (256 ^ 32 - 1)

-- "0xA b" and "0b"
to_bytes-test : to_bytes (text (0x30 ∷ 0x78 ∷ 0x41 ∷ 0x20 ∷ 0x62 ∷ [])) ≡ ok (0xab ∷ [])
unfolding to_bytes
to_bytes-test = refl

not_hex-test : to_bytes (text (0x7a ∷ 0x7a ∷ [])) ≡ raise value_error
unfolding to_bytes
not_hex-test = refl

-- "1_000", "0x_ff", "-0b11", "010"
to_number-test :
    (to_number (text (0x31 ∷ 0x5f ∷ 0x30 ∷ 0x30 ∷ 0x30 ∷ [])) ≡ ok (pos 1000))
    × (to_number (text (0x30 ∷ 0x78 ∷ 0x5f ∷ 0x66 ∷ 0x66 ∷ [])) ≡ ok (pos 255))
    × (to_number (text (0x2d ∷ 0x30 ∷ 0x62 ∷ 0x31 ∷ 0x31 ∷ [])) ≡ ok (negsuc 2))
    × (to_number (text (0x30 ∷ 0x31 ∷ 0x30 ∷ [])) ≡ raise value_error)
unfolding to_number
to_number-test = (refl, refl, refl, refl)

-- The text of a negative number: "0xx5", of -5.
negative-test : zero_padded_hex (negsuc 4) ≡ 0x30 ∷ 0x78 ∷ 0x78 ∷ 0x35 ∷ []
unfolding zero_padded_hex
negative-test = refl
