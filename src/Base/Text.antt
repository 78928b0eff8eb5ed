-- ===== src/Base/Text.antt =====
-- Python's `str` as a list of code points, with the conversions of the language between text, numbers and
-- bytes. Letters and digits are those of ASCII.
use execution_spec_tests_gno.Base.Tests.{◌==◌, ltb, leb, if◌then◌else◌}
use execution_spec_tests_gno.Base.Lists.{length, any}
use execution_spec_tests_gno.Base.Raised.{Result, ok, raise, value_error, ◌>>=◌}
use execution_spec_tests_gno.Base.Int.{ℤ, pos, negsuc}
use execution_spec_tests_gno.Base.Bytes.{Bytes}
use Prim.Native.Nat.{ℕ, zero, suc, ◌+◌, ◌-◌, ◌*◌, ◌/◌, ◌%◌}
use mathlib.Core.Bool.{Bool, true, false, ◌&&◌, ◌||◌}
use mathlib.Core.Option.{Option, none, some}
use mathlib.Core.List.{List, [], ◌∷◌}

abbrev pub Str : Type 0
Str = List ℕ

abbrev pub between : ℕ → ℕ → ℕ → Bool
between low high c = leb low c && leb c high

-- What `\s` matches.
unfoldable pub is_space : ℕ → Bool
is_space c =
    between 0x09 0x0d c
    || (between 0x1c 0x20 c
        || (between 0x2000 0x200a c
            || any (λ x. x == c)
                (0x85 ∷ 0xa0 ∷ 0x1680 ∷ 0x2028 ∷ 0x2029 ∷ 0x202f ∷ 0x205f ∷ 0x3000 ∷ [])))

-- `re.sub(r"\s+", "", s)`
unfoldable pub without_spaces : Str → Str
unfolding is_space
without_spaces [] = []
without_spaces (c ∷ s) = let rest = without_spaces s in if is_space c then rest else c ∷ rest

-- A digit or letter as a digit: from 0 to 35.
unfoldable pub digit_of : ℕ → Option ℕ
digit_of c =
    if between 0x30 0x39 c
    then some (c - 0x30)
    else (if between 0x61 0x7a c
        then some (c - 0x57)
        else (if between 0x41 0x5a c then some (c - 0x37) else none))

abbrev pub below : ℕ → Option ℕ → Option ℕ
below base none = none
below base (some d) = if ltb d base then some d else none

-- A lower-case hexadecimal digit.
unfoldable pub hex_digit : ℕ → ℕ
hex_digit d = if ltb d 10 then 0x30 + d else 0x57 + d

-- `b.hex()`
unfoldable pub hex_of : Bytes → Str
unfolding hex_digit
hex_of [] = []
hex_of (b ∷ bs) = hex_digit (b / 16) ∷ hex_digit (b % 16) ∷ hex_of bs

abbrev pub cons_byte : Option ℕ → Option ℕ → Result Bytes → Result Bytes
cons_byte (some high) (some low) (ok rest) = ok ((16 * high + low) ∷ rest)
cons_byte (some high) (some low) (raise e) = raise e
cons_byte _ _ _ = raise value_error

-- `bytes.fromhex(s)` of a text without spaces.
unfoldable pub from_hex : Str → Result Bytes
unfolding digit_of
from_hex [] = ok []
from_hex (c ∷ []) = raise value_error
from_hex (c ∷ d ∷ s) = cons_byte (below 16 (digit_of c)) (below 16 (digit_of d)) (from_hex s)

-- The hexadecimal digits of a number before those that are there, on fuel.
unfoldable pub hex_loop : ℕ → ℕ → Str → Str
unfolding hex_digit
hex_loop zero n digits = digits
hex_loop (suc fuel) n digits =
    if n == 0 then digits else hex_loop fuel (n / 16) (hex_digit (n % 16) ∷ digits)

-- `hex(n)[2:]` of a number that is not zero: n rounds are enough.
unfoldable pub hex_digits : ℕ → Str
unfolding hex_loop
hex_digits n = hex_loop n n []

-- `hex(n)`
unfoldable pub hex : ℤ → Str
hex (pos zero) = 0x30 ∷ 0x78 ∷ 0x30 ∷ []
hex (pos (suc n)) = 0x30 ∷ 0x78 ∷ hex_digits (suc n)
hex (negsuc m) = 0x2d ∷ 0x30 ∷ 0x78 ∷ hex_digits (m + 1)

-- The digits read so far, and whether the last character was one: an underscore may stand between two.
pub record Reading : Type 0 where
  pub value : ℕ
  pub on_digit : Bool

abbrev read_digit : Reading → Option ℕ → ℕ → Option Reading
read_digit r none base = none
read_digit r (some d) base = some (record { value = r.value * base + d; on_digit = true })

unfoldable pub read_char : ℕ → Option Reading → ℕ → Option Reading
unfolding digit_of
read_char base none c = none
read_char base (some r) c =
    if c == 0x5f
    then (if r.on_digit then some (record r { on_digit = false }) else none)
    else read_digit r (below base (digit_of c)) base

unfoldable pub read_chars : ℕ → Option Reading → Str → Option Reading
unfolding read_char
read_chars base r [] = r
read_chars base r (c ∷ s) = read_chars base (read_char base r c) s

abbrev pub finish : Option Reading → Result ℕ
finish none = raise value_error
finish (some r) = if r.on_digit then ok r.value else raise value_error

abbrev pub start : Bool → Option Reading
start after_prefix = some (record { value = 0; on_digit = after_prefix })

-- The digits behind a prefix, of which there is one at least.
unfoldable pub read_prefixed : ℕ → Str → Result ℕ
unfolding read_chars
read_prefixed base [] = raise value_error
read_prefixed base (c ∷ s) = finish (read_chars base (start true) (c ∷ s))

-- A decimal number that starts with 0 has no other digits.
abbrev only_zeros : Result ℕ → Result ℕ
only_zeros (ok zero) = ok 0
only_zeros (ok (suc n)) = raise value_error
only_zeros (raise e) = raise e

unfoldable pub read_decimal : Str → Result ℕ
unfolding read_chars
read_decimal [] = raise value_error
read_decimal (c ∷ s) =
    let whole = finish (read_chars 10 (start false) (c ∷ s)) in
    if c == 0x30 then only_zeros whole else whole

-- A text with the prefix of its base, or decimal.
unfoldable pub read_unsigned : Str → Result ℕ
unfolding read_prefixed read_decimal
read_unsigned (c ∷ p ∷ s) =
    if c == 0x30 && (p == 0x78 || p == 0x58)
    then read_prefixed 16 s
    else (if c == 0x30 && (p == 0x6f || p == 0x4f)
        then read_prefixed 8 s
        else (if c == 0x30 && (p == 0x62 || p == 0x42)
            then read_prefixed 2 s
            else read_decimal (c ∷ p ∷ s)))
read_unsigned s = read_decimal s

abbrev negated : ℕ → ℤ
negated zero = pos 0
negated (suc m) = negsuc m

unfoldable pub read_signed : Str → Result ℤ
unfolding read_unsigned
read_signed [] = raise value_error
read_signed (c ∷ s) =
    if c == 0x2d
    then (do n ← read_unsigned s; ok (negated n))
    else (if c == 0x2b
        then (do n ← read_unsigned s; ok (pos n))
        else (do n ← read_unsigned (c ∷ s); ok (pos n)))

-- `s.lstrip()`, and `s.rstrip()` from the last character on.
unfoldable pub strip_left : Str → Str
unfolding is_space
strip_left [] = []
strip_left (c ∷ s) = if is_space c then strip_left s else c ∷ s

unfoldable pub strip_right : Str → Str
unfolding is_space
strip_right [] = []
strip_right (c ∷ s) =
    let rest = strip_right s in if is_space c && length rest == 0 then [] else c ∷ rest

-- `int(s, 0)`
unfoldable pub parse_int : Str → Result ℤ
unfolding strip_left strip_right read_signed
parse_int s = read_signed (strip_right (strip_left s))
