-- ===== src/Conversions/Numbers.antt =====
-- Zero-padded hexadecimal numbers read back (src/ethereum_test_base_types/base_types.py,
-- src/ethereum_test_base_types/conversions.py).
use execution_spec_tests_gno.Base.{
  ℕ, zero, suc, ◌+◌, ◌*◌, ◌/◌, ◌%◌, ◌≤◌, ◌<◌, ◌≡◌, refl, ap, ◌∙◌, Bool, true, false, Option, none,
  some, [], ◌∷◌, ◌==◌, if◌then◌else◌, length, arith, Bool-cases, inl, inr, ==_iff, ok,
}
use execution_spec_tests_gno.Base.Int.{pos}
use execution_spec_tests_gno.Base.Text.{
  Str, is_space, hex_digit, digit_of, hex_loop, hex_digits, Reading, read_char, read_chars,
  read_prefixed, read_unsigned, read_signed, parse_int, strip_left, strip_right, start, finish,
}
use execution_spec_tests_gno.Conversions.{text, to_number, prefixed, even_length, zero_padded_hex}
use execution_spec_tests_gno.Conversions.Hex.{
  is_plain, AllPlain, read_hex_digit, hex_digit_plain, plain-space,
}

-- What has been read of hexadecimal text.
abbrev reading : ℕ → Bool → Option Reading
reading n b = some (record { value = n; on_digit = b })

plain-underscore : (c : ℕ) → is_plain c ≡ true → (c == 0x5f) ≡ false
plain-underscore c h = ground arith

abbrev value_of : Option Reading → ℕ
value_of none = 0
value_of (some r) = r.value

read_char-hex_digit :
    (n d : ℕ) (b : Bool)
    → d < 16
    → read_char 16 (reading n b) (hex_digit d) ≡ reading (n * 16 + d) true
unfolding read_char
read_char-hex_digit n d b h =
    rw (plain-underscore (hex_digit d) (hex_digit_plain d h), read_hex_digit d h) refl

read_step :
    (n : ℕ) (acc : Str) (b : Bool)
    → read_chars 16 (reading (n / 16) b) (hex_digit (n % 16) ∷ acc)
      ≡ read_chars 16 (reading n true) acc
unfolding read_chars
read_step n acc b =
    ap (λ r. read_chars 16 r acc)
      (read_char-hex_digit (n / 16) (n % 16) b (omega arith)
        ∙ ap (λ m. reading m true) (omega arith))

read_chars-hex_loop :
    (fuel n : ℕ) (acc : Str) (b : Bool)
    → n ≤ fuel
    → read_chars 16 (reading 0 b) (hex_loop fuel n acc)
      ≡ read_chars 16 (reading n (if n == 0 then b else true)) acc
unfolding hex_loop
read_chars-hex_loop zero n acc b h = let none_left : n ≡ 0 = omega arith in rw none_left refl
read_chars-hex_loop (suc fuel) n acc b h = elim (Bool-cases (n == 0)) [
  | inl done ↦ rw (done, (==_iff n 0).0 done) refl
  | inr more ↦
      let less : n / 16 ≤ fuel = ground arith in
      rw more (
        read_chars-hex_loop fuel (n / 16) (hex_digit (n % 16) ∷ acc) b less
        ∙ read_step n acc (if n / 16 == 0 then b else true))
]

read_prefixed-ok :
    (s : Str) (n : ℕ)
    → 0 < n
    → read_chars 16 (start true) s ≡ reading n true
    → read_prefixed 16 s ≡ ok n
unfolding read_prefixed read_chars
read_prefixed-ok [] n h e = let same : 0 ≡ n = ap value_of e in absurd (omega arith)
read_prefixed-ok (c ∷ s) n h e = ap finish e

hex_loop-AllPlain : (fuel n : ℕ) (acc : Str) → AllPlain acc → AllPlain (hex_loop fuel n acc)
unfolding hex_loop AllPlain
hex_loop-AllPlain zero n acc h = h
hex_loop-AllPlain (suc fuel) n acc h = elim (Bool-cases (n == 0)) [
  | inl done ↦ rw done h
  | inr more ↦ rw more (
      hex_loop-AllPlain fuel (n / 16) (hex_digit (n % 16) ∷ acc)
        (hex_digit_plain (n % 16) (omega arith), h))
]

strip_left-plain : (s : Str) → AllPlain s → strip_left s ≡ s
unfolding strip_left AllPlain
strip_left-plain [] h = refl
strip_left-plain (c ∷ s) (here, rest) = rw (plain-space c here) refl

strip_right-plain : (s : Str) → AllPlain s → strip_right s ≡ s
unfolding strip_right AllPlain
strip_right-plain [] h = refl
strip_right-plain (c ∷ s) (here, rest) = rw (strip_right-plain s rest, plain-space c here) refl

even_length-AllPlain : (s : Str) → AllPlain s → AllPlain (even_length s)
unfolding AllPlain is_space
even_length-AllPlain s h = elim (Bool-cases (length s % 2 == 1)) [
  | inl odd ↦ rw odd (refl, h)
  | inr even ↦ rw even h
]

read_chars-even_length :
    (s : Str) → read_chars 16 (start true) (even_length s) ≡ read_chars 16 (start true) s
unfolding read_chars read_char digit_of
read_chars-even_length s = elim (Bool-cases (length s % 2 == 1)) [
  | inl odd ↦ rw odd refl
  | inr even ↦ rw even refl
]

even_length-length : (s : Str) → length (even_length s) % 2 ≡ 0
even_length-length s = elim (Bool-cases (length s % 2 == 1)) [
  | inl odd ↦ let one = (==_iff (length s % 2) 1).0 odd in rw odd (omega arith)
  | inr even ↦ rw even (ground arith)
]

parse_int-prefixed :
    (t : Str) (n : ℕ) → AllPlain t → read_prefixed 16 t ≡ ok n → parse_int (prefixed t) ≡ ok (pos n)
unfolding parse_int read_signed read_unsigned AllPlain is_space
parse_int-prefixed t n plain reads =
    let whole : AllPlain (prefixed t) = (refl, (refl, plain)) in
    ap (λ s. read_signed (strip_right s)) (strip_left-plain (prefixed t) whole)
    ∙ ap read_signed (strip_right-plain (prefixed t) whole)
    ∙ rw reads refl

both_true : (b : Bool) → (if b then true else true) ≡ true
both_true true = refl
both_true false = refl

zeros-AllPlain : AllPlain (0x30 ∷ 0x30 ∷ [])
unfolding AllPlain is_space
zeros-AllPlain = (refl, (refl, tt))

zeros-read : read_prefixed 16 (0x30 ∷ 0x30 ∷ []) ≡ ok 0
unfolding read_prefixed read_chars read_char digit_of
zeros-read = refl

-- The text of a `ZeroPaddedHexNumber` that is not negative is of even length, and `to_number` reads the number
-- back from it.
pub zero_padded_hex-roundtrip :
    (n : ℕ)
    → (to_number (text (zero_padded_hex (pos n))) ≡ ok (pos n))
      × (length (zero_padded_hex (pos n)) % 2 ≡ 0)
unfolding zero_padded_hex to_number parse_int hex_digits read_chars AllPlain
zero_padded_hex-roundtrip zero =
    (parse_int-prefixed (0x30 ∷ 0x30 ∷ []) 0 zeros-AllPlain zeros-read, refl)
zero_padded_hex-roundtrip (suc n) =
    let digits = hex_digits (suc n) in
    let plain = even_length-AllPlain digits (hex_loop-AllPlain (suc n) (suc n) [] tt) in
    let reads =
      read_chars-even_length digits ∙ read_chars-hex_loop (suc n) (suc n) [] true (omega arith) in
    (
      parse_int-prefixed (even_length digits) (suc n) plain (
          read_prefixed-ok (even_length digits) (suc n) (omega arith)
            (reads ∙ ap (reading (suc n)) (both_true (suc n == 0)))),
      omega (arith, even_length-length digits),
    )
