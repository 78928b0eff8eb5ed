-- ===== src/Conversions/Hex.antt =====
-- Text of hexadecimal digits reads back (src/ethereum_test_base_types/conversions.py,
-- src/ethereum_test_base_types/base_types.py).
use execution_spec_tests_gno.Base.{
  ℕ, ◌+◌, ◌*◌, ◌/◌, ◌%◌, ◌<◌, ◌≡◌, refl, sym, ap, ◌∙◌, Bool, true, false, ◌&&◌, Option, none, some,
  [], ◌∷◌, ◌==◌, all_below, all_below_sound, length, All, arith, not, ==_iff, ok,
}
use execution_spec_tests_gno.Base.Bytes.{Bytes, IsBytes}
use execution_spec_tests_gno.Base.Text.{
  Str, is_space, without_spaces, digit_of, below, hex_digit, hex_of, from_hex,
}
use execution_spec_tests_gno.Conversions.{
  raw, text, to_bytes, to_hex, prefixed, without_prefix, even_length,
}

abbrev is_digit : ℕ → Option ℕ → Bool
is_digit d none = false
is_digit d (some e) = d == e

is_digit-true : (d : ℕ) (o : Option ℕ) → is_digit d o ≡ true → o ≡ some d
is_digit-true d none h = cc
is_digit-true d (some e) h = ap some (sym ((==_iff d e).0 h))

pub read_hex_digit : (d : ℕ) → d < 16 → below 16 (digit_of (hex_digit d)) ≡ some d
unfolding digit_of hex_digit all_below
read_hex_digit d h =
    is_digit-true d (below 16 (digit_of (hex_digit d)))
      (all_below_sound 16 (λ x. is_digit x (below 16 (digit_of (hex_digit x)))) d refl h)

-- A character of hexadecimal text, which is no space and no underscore.
abbrev pub is_plain : ℕ → Bool
is_plain c = not (is_space c) && not (c == 0x5f)

unfoldable pub AllPlain : Str → Type 0
AllPlain = All (λ c. is_plain c ≡ true)

pub hex_digit_plain : (d : ℕ) → d < 16 → is_plain (hex_digit d) ≡ true
unfolding is_space hex_digit all_below
hex_digit_plain d h = all_below_sound 16 (λ x. is_plain (hex_digit x)) d refl h

pub plain-space : (c : ℕ) → is_plain c ≡ true → is_space c ≡ false
plain-space c h = ground arith

without_spaces-plain : (s : Str) → AllPlain s → without_spaces s ≡ s
unfolding without_spaces AllPlain
without_spaces-plain [] h = refl
without_spaces-plain (c ∷ s) (here, rest) =
    rw (without_spaces-plain s rest, plain-space c here) refl

AllPlain-hex_of : (b : Bytes) → IsBytes b → AllPlain (hex_of b)
unfolding hex_of AllPlain
AllPlain-hex_of [] h = tt
AllPlain-hex_of (b ∷ bs) (here, rest) = (
  hex_digit_plain (b / 16) (omega arith),
  (hex_digit_plain (b % 16) (omega arith), AllPlain-hex_of bs rest),
)

from_hex-hex_of : (b : Bytes) → IsBytes b → from_hex (hex_of b) ≡ ok b
unfolding from_hex hex_of
from_hex-hex_of [] h = refl
from_hex-hex_of (b ∷ bs) (here, rest) =
    rw
      (
        read_hex_digit (b / 16) (omega arith),
        read_hex_digit (b % 16) (omega arith),
        from_hex-hex_of bs rest,
      )
      (ap (λ x. ok (x ∷ bs)) (omega arith))

length-hex_of : (b : Bytes) → length (hex_of b) ≡ 2 * length b
unfolding hex_of
length-hex_of [] = omega arith
length-hex_of (b ∷ bs) = omega (arith, length-hex_of bs)

even_length-eq : (s : Str) (n : ℕ) → length s ≡ 2 * n → even_length s ≡ s
even_length-eq s n h = let even : (length s % 2 == 1) ≡ false = ground arith in rw even refl

-- The text of any bytes has two digits for each, behind its prefix, and converts back to them.
pub to_bytes-to_hex :
    (b : Bytes)
    → IsBytes b
    → (h : Str) × (to_hex (raw b) ≡ ok h)
      × (length h ≡ 2 * length b + 2)
      × (to_bytes (text h) ≡ ok b)
unfolding to_hex to_bytes is_space AllPlain
to_bytes-to_hex b h = (
  prefixed (hex_of b),
  refl,
  omega (arith, length-hex_of b),
  ap (λ s. from_hex (even_length (without_prefix s)))
        (without_spaces-plain (prefixed (hex_of b)) (refl, (refl, AllPlain-hex_of b h)))
      ∙ ap from_hex (even_length-eq (hex_of b) (length b) (length-hex_of b))
      ∙ from_hex-hex_of b h,
)
