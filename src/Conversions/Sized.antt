-- ===== src/Conversions/Sized.antt =====
-- Bytes and numbers of a fixed size (src/ethereum_test_base_types/conversions.py,
-- src/ethereum_test_base_types/base_types.py).
use execution_spec_tests_gno.Base.{
  ℕ, zero, suc, ◌+◌, ◌-◌, ◌*◌, ◌^◌, ◌≤◌, ◌<◌, ◌≡◌, ◌↔◌, ◌⊎◌, inl, inr, refl, sym, ap, ◌∙◌, Bool,
  true, false, ◌||◌, ◌==◌, ltb, leb, lt→ltb, ltb→lt, length, length-append, length-replicate,
  replicate, arith, Bool-cases, ok, raise, ok-injective, exception,
}
use native.Mathlib.Nat.{pow-suc, one-le-pow}
use execution_spec_tests_gno.Base.Int.{ℤ, pos, negsuc}
use execution_spec_tests_gno.Base.Bytes.{
  Bytes, bytes_eq-to_be, rjust, to_be, to_bytes_auto, length-to_be, from_be-to_be,
}
use execution_spec_tests_gno.Conversions.{
  raw, number, pad, ljust, to_bytes, to_fixed_size_bytes, to_number, fixed_size_number,
  fixed_size_hex_number, converted, fixed_size_eq, max_value,
}

length-rjust : (k : ℕ) (b : Bytes) → length b ≤ k → length (rjust k b) ≡ k
unfolding rjust
length-rjust k b h =
    omega (
      arith,
      length-append (replicate (k - length b) 0) b,
      length-replicate {A = ℕ} (k - length b) 0,
    )

length-ljust : (k : ℕ) (b : Bytes) → length b ≤ k → length (ljust k b) ≡ k
length-ljust k b h =
    omega (
      arith,
      length-append b (replicate (k - length b) 0),
      length-replicate {A = ℕ} (k - length b) 0,
    )

-- The bytes are accepted: they have the size, or are shorter and may be padded.
abbrev pub Accepts : ℕ → Bool → Bool → Bytes → Type 0
Accepts size left right b = (length b ≡ size) ⊎ ((length b < size) × ((left || right) ≡ true))

pad-Accepts :
    (size : ℕ) (left right : Bool) (b : Bytes)
    → Accepts size left right b
    → (out : Bytes) × (pad size left right b ≡ ok out) × (length out ≡ size)
unfolding pad
pad-Accepts size left right b (inl same) =
    let whole : ltb size (length b) ≡ false = ground arith in
    let whole' : ltb (length b) size ≡ false = ground arith in (b, rw (whole, whole') refl, same)
pad-Accepts size true right b (inr (short, padded)) =
    let fits : ltb size (length b) ≡ false = ground arith in
    (rjust size b, rw (fits, lt→ltb (length b) size short) refl, length-rjust size b (omega arith))
pad-Accepts size false true b (inr (short, padded)) =
    let fits : ltb size (length b) ≡ false = ground arith in
    (ljust size b, rw (fits, lt→ltb (length b) size short) refl, length-ljust size b (omega arith))
pad-Accepts size false false b (inr (short, padded)) = cc

never_padded :
    (size : ℕ) (left right : Bool) (b : Bytes)
    → ltb size (length b) ≡ false
    → ltb (length b) size ≡ true
    → (left || right) ≡ false
    → pad size left right b ≡ raise exception
unfolding pad
never_padded size true right b fits short never = cc
never_padded size false true b fits short never = cc
never_padded size false false b fits short never = rw (fits, short) refl

pad-refused :
    (size : ℕ) (left right : Bool) (b : Bytes)
    → Accepts size left right b ⊎ (pad size left right b ≡ raise exception)
unfolding pad
pad-refused size left right b = elim (Bool-cases (ltb size (length b))) [
  | inl long ↦ inr (rw long refl)
  | inr fits ↦ elim (Bool-cases (ltb (length b) size)) [
    | inl short ↦ elim (Bool-cases (left || right)) [
      | inl padded ↦ inl (inr (ltb→lt (length b) size short, padded))
      | inr never ↦ inr (never_padded size left right b fits short never)
    ]
    | inr whole ↦ inl (inl (ground arith))
  ]
]

-- Bytes are converted to bytes of a size exactly if they have the size, or are shorter and some padding is
-- allowed, and what is returned has the size. All other bytes are refused with an exception.
pub to_fixed_size_bytes-raw :
    (size : ℕ) (left right : Bool) (b : Bytes)
    → (Accepts size left right b
        × (out : Bytes) × (to_fixed_size_bytes (raw b) size left right ≡ ok out)
        × (length out ≡ size))
      ⊎ ((¬ Accepts size left right b)
          × (to_fixed_size_bytes (raw b) size left right ≡ raise exception))
unfolding to_fixed_size_bytes to_bytes
to_fixed_size_bytes-raw size left right b = elim (pad-refused size left right b) [
  | inl accepts ↦
      let (out, returns, long) = pad-Accepts size left right b accepts in
      inl (accepts, out, returns, long)
  | inr refused ↦
      inr
        (λ accepts. let (out, returns, long) = pad-Accepts size left right b accepts in cc, refused)
]

-- A number that fits becomes bytes of the size, which read back as the number, and which are equal to any
-- number that fits exactly if it is the same.
pub to_fixed_size_bytes-number :
    (size m n : ℕ) (left right : Bool)
    → m < 256 ^ size
    → n < 256 ^ size
    → (b : Bytes) × (to_fixed_size_bytes (number (pos m)) size left right ≡ ok b)
      × (length b ≡ size)
      × (to_number (raw b) ≡ ok (pos m))
      × (fixed_size_eq size b (converted (number (pos n))) ≡ ok (m == n))
unfolding to_fixed_size_bytes to_bytes_auto to_number fixed_size_eq
to_fixed_size_bytes-number size m n left right hm hn = (
  to_be size m,
  rw (lt→ltb m (256 ^ size) hm) refl,
  length-to_be size m,
  ap (λ x. ok (pos x)) (from_be-to_be size m hm),
  rw (lt→ltb n (256 ^ size) hn) (ap ok (bytes_eq-to_be size m n hm hn)),
)

eight_bits : (k : ℕ) → 2 ^ (8 * k) ≡ 256 ^ k
eight_bits zero = refl
eight_bits (suc k) =
    let e : 8 * suc k ≡ suc (suc (suc (suc (suc (suc (suc (suc (8 * k)))))))) = omega arith in
    ap (λ n. 2 ^ n) e ∙ simp pow-suc (let ih = eight_bits k in omega arith)

max_value-suc : (k : ℕ) → max_value k + 1 ≡ 256 ^ k
max_value-suc k =
    let e = eight_bits k in let some_value = one-le-pow k 256 (omega arith) in omega arith

-- The number that stands for an integer in so many bytes: itself, or its two's complement.
abbrev pub Stands : ℕ → ℤ → ℕ → Type 0
Stands k (pos n) v = (n < 256 ^ k) × (v ≡ n)
Stands k (negsuc m) v = (0 < v) × (v + (m + 1) ≡ 256 ^ k)

-- A `FixedSizeHexNumber` of a length is made of exactly the integers between minus and plus the least number that
-- needs more bytes, both excluded; a negative one becomes its two's complement in the length.
pub fixed_size_hex_number_iff :
    (k : ℕ) (i : ℤ) (v : ℕ) → (fixed_size_hex_number k (number i) ≡ ok v) ↔ Stands k i v
unfolding fixed_size_hex_number fixed_size_number to_number
fixed_size_hex_number_iff k (pos n) v =
    let e = max_value-suc k in
    elim (Bool-cases (ltb (max_value k) n)) [
      | inl large ↦ (λ h. cc (rw large at h), λ h. absurd (ground arith))
      | inr fits ↦ (
        λ h. let same : n ≡ v = ok-injective (rw fits at h) in (ground arith, sym same),
        λ h. rw fits (ap ok (sym h.1)),
      )
    ]
fixed_size_hex_number_iff k (negsuc m) v =
    let e = max_value-suc k in
    elim (Bool-cases (leb (max_value k + 1) (m + 1))) [
      | inl low ↦ (λ h. cc (rw low at h), λ h. absurd (ground arith))
      | inr fits ↦ (
        λ h.
            let same : max_value k + 1 - (m + 1) ≡ v = ok-injective (rw fits at h) in
            (ground arith, ground arith),
        λ h. rw fits (ap ok (ground arith)),
      )
    ]
