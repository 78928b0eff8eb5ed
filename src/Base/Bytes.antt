-- ===== src/Base/Bytes.antt =====
-- Python's `bytes`: lists of numbers, with the conversions from and to integers, padding,
-- stripping and comparison of the language.
use execution_spec_tests_gno.Base.Tests.{
  Bool-cases, ==_iff, &&-eq-true, ◌==◌, ltb, leb, if◌then◌else◌,
}
use execution_spec_tests_gno.Base.Lists.{length, length-append, replicate, All, All-append}
use execution_spec_tests_gno.Base.Raised.{Result, ok, raise, overflow_error}
use execution_spec_tests_gno.Base.Int.{ℤ, pos, negsuc}
use Prim.Native.Nat.{ℕ, zero, suc, ◌+◌, ◌-◌, ◌*◌, ◌/◌, ◌%◌, ◌^◌, ◌<◌}
use native.Mathlib.Nat.{pow-suc}
use mathlib.Core.Path.{◌≡◌, refl, sym, ap, ap₂, ◌∙◌}
use mathlib.Core.Logic.{inl, inr}
use mathlib.Core.Bool.{Bool, true, false, ◌&&◌}
use mathlib.Core.List.{List, [], ◌∷◌, ◌++◌}
use native.Mathlib.Omega.{arith}

abbrev pub Bytes : Type 0
Bytes = List ℕ

-- Every element is a byte.
abbrev pub IsBytes : Bytes → Type 0
IsBytes = All (λ b. b < 256)

abbrev pub bytes_eq : Bytes → Bytes → Bool
bytes_eq [] [] = true
bytes_eq (x ∷ xs) (y ∷ ys) = x == y && bytes_eq xs ys
bytes_eq _ _ = false

pub bytes_eq-true : (xs ys : Bytes) → bytes_eq xs ys ≡ true → xs ≡ ys
bytes_eq-true [] [] h = refl
bytes_eq-true [] (y ∷ ys) h = cc
bytes_eq-true (x ∷ xs) [] h = cc
bytes_eq-true (x ∷ xs) (y ∷ ys) h =
    let (here, rest) = &&-eq-true _ _ h in ap₂ ◌∷◌ ((==_iff x y).0 here) (bytes_eq-true xs ys rest)

pub bytes_eq_refl : (xs : Bytes) → bytes_eq xs xs ≡ true
bytes_eq_refl [] = refl
bytes_eq_refl (x ∷ xs) = rw ((==_iff x x).1 refl) (bytes_eq_refl xs)

-- `int.from_bytes(b, "big")`
unfoldable pub from_be : ℕ → Bytes → ℕ
from_be acc [] = acc
from_be acc (b ∷ bs) = from_be (acc * 256 + b) bs

-- The big-endian bytes of a number below 256 ^ k.
unfoldable pub to_be : ℕ → ℕ → Bytes
to_be zero n = []
to_be (suc k) n = to_be k (n / 256) ++ (n % 256) ∷ []

-- `n.to_bytes(k, "big", signed=n < 0)`: a negative number is written in two's complement.
unfoldable pub to_bytes_auto : ℕ → ℤ → Result Bytes
unfolding to_be
to_bytes_auto k (pos n) = if ltb n (256 ^ k) then ok (to_be k n) else raise overflow_error
to_bytes_auto k (negsuc m) =
    if leb (2 * (m + 1)) (256 ^ k) then ok (to_be k (256 ^ k - (m + 1))) else raise overflow_error

-- `n.to_bytes(k, "big")`
unfoldable pub to_bytes_unsigned : ℕ → ℤ → Result Bytes
unfolding to_be to_bytes_auto
to_bytes_unsigned k (pos n) = to_bytes_auto k (pos n)
to_bytes_unsigned k (negsuc m) = raise overflow_error

-- `n.to_bytes(k, "big", signed=True)`
unfoldable pub to_bytes_signed : ℕ → ℤ → Result Bytes
unfolding to_be to_bytes_auto
to_bytes_signed k (pos n) = if ltb (2 * n) (256 ^ k) then ok (to_be k n) else raise overflow_error
to_bytes_signed k (negsuc m) = to_bytes_auto k (negsuc m)

-- `b.lstrip(b"\0")`
unfoldable pub lstrip : Bytes → Bytes
lstrip [] = []
lstrip (b ∷ bs) = if b == 0 then lstrip bs else b ∷ bs

-- `b.rjust(k, b"\0")`
unfoldable pub rjust : ℕ → Bytes → Bytes
rjust k b = replicate (k - length b) 0 ++ b

pub length-to_be : (k n : ℕ) → length (to_be k n) ≡ k
unfolding to_be
length-to_be zero n = refl
length-to_be (suc k) n =
    omega (arith, length-append (to_be k (n / 256)) ((n % 256) ∷ []), length-to_be k (n / 256))

pub from_be-append :
    (acc : ℕ) (xs ys : Bytes) → from_be acc (xs ++ ys) ≡ from_be (from_be acc xs) ys
unfolding from_be
from_be-append acc [] ys = refl
from_be-append acc (x ∷ xs) ys = from_be-append (acc * 256 + x) xs ys

pub to_be-IsBytes : (k n : ℕ) → IsBytes (to_be k n)
unfolding to_be
to_be-IsBytes zero n = tt
to_be-IsBytes (suc k) n =
    All-append (λ b. b < 256) (to_be k (n / 256)) ((n % 256) ∷ []) (to_be-IsBytes k (n / 256))
      (omega arith)

-- Reading back what was written.
pub from_be-to_be : (k n : ℕ) → n < 256 ^ k → from_be 0 (to_be k n) ≡ n
unfolding to_be from_be
from_be-to_be zero n h = omega arith
from_be-to_be (suc k) n h =
    let bound : n < 256 ^ k * 256 = rw (← pow-suc 256 k) h in
    from_be-append 0 (to_be k (n / 256)) ((n % 256) ∷ [])
    ∙ rw (from_be-to_be k (n / 256) (omega arith)) (omega arith)

from_be-zeros : (k : ℕ) → from_be 0 (replicate k 0) ≡ 0
unfolding from_be
from_be-zeros zero = refl
from_be-zeros (suc k) = from_be-zeros k

pub from_be-rjust : (k : ℕ) (b : Bytes) → from_be 0 (rjust k b) ≡ from_be 0 b
unfolding rjust
from_be-rjust k b =
    from_be-append 0 (replicate (k - length b) 0) b
    ∙ ap (λ acc. from_be acc b) (from_be-zeros (k - length b))

pub from_be-lstrip : (b : Bytes) → from_be 0 (lstrip b) ≡ from_be 0 b
unfolding lstrip from_be
from_be-lstrip [] = refl
from_be-lstrip (b ∷ bs) = ground (arith, from_be-lstrip bs)

-- Numbers that fit are told apart by their bytes.
pub bytes_eq-to_be :
    (k m n : ℕ) → m < 256 ^ k → n < 256 ^ k → bytes_eq (to_be k m) (to_be k n) ≡ (m == n)
bytes_eq-to_be k m n hm hn = elim (Bool-cases (m == n)) [
  | inl same ↦ rw (same, (==_iff m n).0 same) (bytes_eq_refl (to_be k n))
  | inr other ↦ elim (Bool-cases (bytes_eq (to_be k m) (to_be k n))) [
    | inl e ↦
        let equal =
          sym (from_be-to_be k m hm)
          ∙ ap (from_be 0) (bytes_eq-true (to_be k m) (to_be k n) e)
          ∙ from_be-to_be k n hn in
        cc ((==_iff m n).1 equal)
    | inr e ↦ e ∙ sym other
  ]
]
