-- ===== src/Eof/Headers.antt =====
-- Reading the joined headers of code and container sections, as EIP-3540 lays them out
-- (src/ethereum_test_types/eof/v1/__init__.py).
use execution_spec_tests_gno.Base.{
  ℕ, zero, suc, ◌+◌, ◌*◌, ◌^◌, ◌≡◌, ◌∙◌, refl, sym, ap, Bool, true, false, not, ◌||◌, Option, none,
  some, List, [], ◌∷◌, ◌++◌, ◌==◌, ltb, if◌then◌else◌, length, filter, map, All, Result, ok, ◌>>=◌,
  >>=-eq-ok, ok-injective, inl, inr, Bool-cases, ltb→lt,
}
use mathlib.Core.List.{append_assoc}
use execution_spec_tests_gno.Base.Bytes.{
  Bytes, to_be, from_be, to_bytes_auto, to_bytes_unsigned, length-to_be, from_be-to_be,
}
use execution_spec_tests_gno.Base.Int.{pos}
use execution_spec_tests_gno.Eof.Section.{
  Section, code_kind, container_kind, header_size, size_length, sizes, headers, list_header,
}

-- A number of a width, from the bytes before it as `acc`, and the bytes behind it.
unfoldable read_be : ℕ → ℕ → Bytes → Option (ℕ × Bytes)
read_be zero acc b = some (acc, b)
read_be (suc w) acc [] = none
read_be (suc w) acc (x ∷ xs) = read_be w (acc * 256 + x) xs

read_be-append :
    (acc : ℕ) (xs rest : Bytes) → read_be (length xs) acc (xs ++ rest) ≡ some (from_be acc xs, rest)
unfolding read_be from_be
read_be-append acc [] rest = refl
read_be-append acc (x ∷ xs) rest = read_be-append (acc * 256 + x) xs rest

read_be-to_bytes_unsigned :
    (k n : ℕ) (rest : Bytes) {b : Bytes}
    → to_bytes_unsigned k (pos n) ≡ ok b
    → read_be k 0 (b ++ rest) ≡ some (n, rest)
unfolding to_bytes_unsigned to_bytes_auto
read_be-to_bytes_unsigned k n rest h = elim (Bool-cases (ltb n (256 ^ k))) [
  | inl fits ↦
      let same = ok-injective (rw fits at h) in
      rw (← same) (
        ap (λ w. read_be w 0 (to_be k n ++ rest)) (sym (length-to_be k n))
        ∙ read_be-append 0 (to_be k n) rest
        ∙ ap (λ v. some (v, rest)) (from_be-to_be k n (ltb→lt _ _ fits)))
  | inr large ↦ cc (rw large at h)
]

-- Sizes of a width, as many as the count.
unfoldable read_sizes : ℕ → ℕ → Bytes → Option (List ℕ × Bytes)
unfolding read_be
read_sizes w zero b = some ([], b)
read_sizes w (suc n) b = elim (read_be w 0 b) [
  | none ↦ none
  | some first ↦ elim (read_sizes w n first.1) [
    | none ↦ none
    | some others ↦ some (first.0 ∷ others.0, others.1)
  ]
]

abbrev pub is_listed : Section → Bool
is_listed s = not s.skip_header_listing

read_sizes-first :
    (c : Bool) (s : Section) (fs : List Section) (w : ℕ) (call others : Result Bytes) (rest : Bytes)
    {b : Bytes}
    → ((x r : Bytes) → call ≡ ok x → read_be w 0 (x ++ r) ≡ some (header_size s, r))
    → ((x : Bytes)
        → others ≡ ok x
        → read_sizes w (length fs) (x ++ rest) ≡ some (map header_size fs, rest))
    → ((if c then ok [] else call) >>= λ x. others >>= λ r. ok (x ++ r)) ≡ ok b
    → read_sizes w (length (if not c then s ∷ fs else fs)) (b ++ rest)
      ≡ some (map header_size (if not c then s ∷ fs else fs), rest)
unfolding read_sizes
read_sizes-first true s fs w call others rest one more h =
    let (tail, e, whole) = >>=-eq-ok others _ h in rw (← ok-injective whole) (more tail e)
read_sizes-first false s fs w call others rest one more h =
    let (first, e1, h1) = >>=-eq-ok call _ h in
    let (tail, e2, whole) = >>=-eq-ok others _ h1 in
    rw
      (
        ← ok-injective whole,
        append_assoc first tail rest,
        read_sizes,
        one first (tail ++ rest) e1,
        more tail e2,
      )
      refl

read_sizes-sizes :
    (w : ℕ) (ss : List Section) (rest : Bytes) {b : Bytes}
    → All (λ s. size_length s ≡ w) ss
    → sizes ss ≡ ok b
    → read_sizes w (length (filter is_listed ss)) (b ++ rest)
      ≡ some (map header_size (filter is_listed ss), rest)
unfolding sizes read_sizes
read_sizes-sizes w [] rest wide h = rw (← ok-injective h) refl
read_sizes-sizes w (s ∷ ss) rest (same, wide) h =
    read_sizes-first s.skip_header_listing s (filter is_listed ss) w
      (to_bytes_unsigned (size_length s) (pos (header_size s))) (sizes ss) rest
      (λ x r e.
        ap (λ k. read_be k 0 (x ++ r)) (sym same)
        ∙ read_be-to_bytes_unsigned (size_length s) (header_size s) r e)
      (λ x e. read_sizes-sizes w ss rest wide e) h

-- The header of sections of one kind: the kind, the sizes and the bytes behind it.
unfoldable pub read_header : Bytes → Option (ℕ × List ℕ × Bytes)
unfolding read_be read_sizes
read_header b = elim (read_be 1 0 b) [
  | none ↦ none
  | some kind ↦ elim (read_be 2 0 kind.1) [
    | none ↦ none
    | some count ↦ elim (read_sizes (if kind.0 == container_kind then 4 else 2) count.0 count.1) [
      | none ↦ none
      | some found ↦ some (kind.0, found.0, found.1)
    ]
  ]
]

equal_widths :
    (s : Section) (ss : List Section)
    → All (λ t. t.kind ≡ s.kind) ss
    → All (λ t. size_length t ≡ size_length s) ss
equal_widths s [] same = tt
equal_widths s (t ∷ ts) (e, same) = (rw e refl, equal_widths s ts same)

innermost :
    (c d : Bool) (x y z : Result Bytes)
    → c ≡ false
    → d ≡ true
    → (if c then x else (if not d then y else z)) ≡ z
innermost false true x y z h k = refl
innermost true d x y z h k = cc
innermost false false x y z h k = cc

-- The header that list_header makes of code sections, or of container sections, the first of them not
-- skipped, reads back as the kind and the sizes of the sections that are not skipped, whatever bytes
-- come behind it.
pub list_header-roundtrip :
    (s : Section) (ss : List Section) (b rest : Bytes)
    → (s.kind == code_kind || s.kind == container_kind) ≡ true
    → s.skip_header_listing ≡ false
    → All (λ t. t.kind ≡ s.kind) ss
    → list_header s ss ≡ ok b
    → read_header (b ++ rest) ≡ some (s.kind, map header_size (filter is_listed (s ∷ ss)), rest)
unfolding list_header read_header
list_header-roundtrip s ss b rest multi listed same h =
    let n = length (filter is_listed (s ∷ ss)) in
    let joined = to_bytes_unsigned 1 (pos s.kind) >>= λ kind_byte.
    to_bytes_unsigned 2 (pos n) >>= λ count.
    sizes (s ∷ ss) >>= λ others. ok (kind_byte ++ (count ++ others)) in
    let (kind_byte, e1, h1) = >>=-eq-ok (to_bytes_unsigned 1 (pos s.kind)) _ (
      sym (
        innermost s.skip_header_listing (s.kind == code_kind || s.kind == container_kind) (ok [])
          (headers (s ∷ ss)) joined listed multi)
      ∙ h) in
    let (count, e2, h2) = >>=-eq-ok (to_bytes_unsigned 2 (pos n)) _ h1 in
    let (others, e3, whole) = >>=-eq-ok (sizes (s ∷ ss)) _ h2 in
    rw
      (
        ← ok-injective whole,
        append_assoc kind_byte (count ++ others) rest,
        append_assoc count others rest,
        read_header,
        read_be-to_bytes_unsigned 1 s.kind (count ++ (others ++ rest)) e1,
        read_be-to_bytes_unsigned 2 n (others ++ rest) e2,
        read_sizes-sizes (size_length s) (s ∷ ss) rest (refl, equal_widths s ss same) e3,
      )
      refl
