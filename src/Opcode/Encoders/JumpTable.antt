-- ===== src/Opcode/Encoders/JumpTable.antt =====
-- The data portion of `RJUMPV` (src/ethereum_test_vm/opcode.py, `_rjumpv_encoder`), and the table
-- that an EVM reads from it.
use execution_spec_tests_gno.Base.{
  ℕ, ◌+◌, ◌-◌, ◌*◌, ◌/◌, ◌%◌, ◌^◌, ◌≤◌, ◌<◌, ◌≡◌, refl, sym, ◌∙◌, ap, Option, none, some, List, [],
  ◌∷◌, ◌++◌, ltb, if◌then◌else◌, ok, length, arith, ◌==◌, inl, inr, Bool-cases, ltb→lt, leb→le, leb,
  ok-injective, >>=-eq-ok, ◌>>=◌, map, ap₂, suc,
}
use execution_spec_tests_gno.Base.Int.{ℤ, pos, negsuc}
use execution_spec_tests_gno.Base.Bytes.{
  Bytes, to_be, to_bytes_auto, to_bytes_unsigned, to_bytes_signed,
}
use execution_spec_tests_gno.Opcode.Arg.{Arg, Opcode, int, ints}
use execution_spec_tests_gno.Opcode.New.{
  new, new_of_bytes, format_data, data_portion, has_data_portion, with_data, get_item,
}
use execution_spec_tests_gno.Opcode.Table.Containers.{rjumpv}
use execution_spec_tests_gno.Opcode.Encoders.{branch_offsets, ints_of, jump_table, rjumpv_encoder}

-- The signed number of two bytes.
pub read_offset : ℕ → ℕ → ℤ
read_offset hi lo =
    let n = hi * 256 + lo in if ltb n (2 ^ 15) then pos n else negsuc (2 ^ 16 - 1 - n)

pub read_offsets : Bytes → Option (List ℤ)
read_offsets [] = some []
read_offsets (hi ∷ []) = none
read_offsets (hi ∷ lo ∷ rest) = elim (read_offsets rest) [
  | none ↦ none
  | some ns ↦ some (read_offset hi lo ∷ ns)
]

-- The first byte is the largest index; the table has one more offset.
pub read_table : Bytes → Option (List ℤ)
read_table [] = none
read_table (max_index ∷ rest) = elim (read_offsets rest) [
  | none ↦ none
  | some ns ↦ if length ns == max_index + 1 then some ns else none
]

-- The two bytes of a value below 2 ^ 16.
abbrev two_bytes : ℕ → Bytes
two_bytes n = (n / 256 % 256) ∷ (n % 256) ∷ []

read_pos : (n : ℕ) → 2 * n < 2 ^ 16 → read_offset (n / 256 % 256) (n % 256) ≡ pos n
unfolding read_offset
read_pos n h = ground arith

read_neg :
    (m v : ℕ)
    → 2 * (m + 1) ≤ 2 ^ 16
    → v ≡ 2 ^ 16 - (m + 1)
    → read_offset (v / 256 % 256) (v % 256) ≡ negsuc m
unfolding read_offset
read_neg m v h e = ground arith

read-to_bytes_signed :
    (n : ℤ) {b : Bytes}
    → to_bytes_signed 2 n ≡ ok b
    → (hi lo : ℕ) × (b ≡ hi ∷ lo ∷ []) × (read_offset hi lo ≡ n)
unfolding to_bytes_signed to_be
read-to_bytes_signed (pos n) h = elim (Bool-cases (ltb (2 * n) (2 ^ 16))) [
  | inl fits ↦
      (n / 256 % 256, n % 256, ok-injective (sym (rw fits at h)), read_pos n (ltb→lt _ _ fits))
  | inr large ↦ cc (rw large at h)
]
read-to_bytes_signed (negsuc m) h = elim (Bool-cases (leb (2 * (m + 1)) (2 ^ 16))) [
  | inl fits ↦
      let v = 2 ^ 16 - (m + 1) in
      (
        v / 256 % 256,
        v % 256,
        ok-injective (sym (rw fits at h)),
        read_neg m v (leb→le _ _ fits) refl,
      )
  | inr large ↦ cc (rw large at h)
]

read_first :
    (n : ℤ) (ns : List ℤ) (hi lo : ℕ) (rest : Bytes)
    → read_offset hi lo ≡ n
    → (read_offsets rest ≡ some ns) × (length rest ≡ 2 * length ns)
    → (read_offsets (hi ∷ lo ∷ rest) ≡ some (n ∷ ns))
      × (length (hi ∷ lo ∷ rest) ≡ 2 * length (n ∷ ns))
unfolding read_offsets
read_first n ns hi lo rest same ih = (rw (ih.0, same), omega arith)

offsets-roundtrip :
    (ns : List ℤ) {b : Bytes}
    → branch_offsets ns ≡ ok b
    → (read_offsets b ≡ some ns) × (length b ≡ 2 * length ns)
unfolding branch_offsets read_offsets
offsets-roundtrip [] h = (rw (← ok-injective h), rw (← ok-injective h))
offsets-roundtrip (n ∷ ns) {b} h =
    let (first, h1, rest_h) = >>=-eq-ok (to_bytes_signed 2 n) _ h in
    let (rest, h2, whole) = >>=-eq-ok (branch_offsets ns) _ rest_h in
    let (hi, lo, e, same) = read-to_bytes_signed n h1 in
    let ih = offsets-roundtrip ns h2 in
    let split : b ≡ hi ∷ lo ∷ rest = sym (ok-injective whole) ∙ ap (λ f. f ++ rest) e in
    rw split (read_first n ns hi lo rest same ih)

table_reads :
    (n : ℤ) (ns : List ℤ) (rest : Bytes)
    → length ns < 256
    → (read_offsets rest ≡ some (n ∷ ns)) × (length rest ≡ 2 * length (n ∷ ns))
    → (read_table (to_be 1 (length ns) ++ rest) ≡ some (n ∷ ns))
      × (length (to_be 1 (length ns) ++ rest) ≡ 1 + 2 * length (n ∷ ns))
unfolding to_be read_table
table_reads n ns rest small (back, long) = (rw (back, read_table) (ground arith), omega arith)

encoded-reads :
    (ns : List ℤ) (b : Bytes)
    → rjumpv_encoder (ints ns ∷ []) ≡ ok b
    → (read_table b ≡ some ns)
      × (length b ≡ 1 + 2 * length ns)
      × (0 < length ns)
      × (length ns ≤ 256)
unfolding rjumpv_encoder jump_table to_bytes_unsigned to_bytes_auto
encoded-reads [] b h = cc
encoded-reads (n ∷ ns) b h = elim (Bool-cases (ltb (length ns) 256)) [
  | inl fits ↦
      let (rest, h2, whole) = >>=-eq-ok (branch_offsets (n ∷ ns)) _ (rw fits at h) in
      let small : length ns < 256 = ltb→lt _ _ fits in
      let (back, long) = table_reads n ns rest small (offsets-roundtrip (n ∷ ns) h2) in
      let same = ok-injective whole in
      (ap read_table (sym same) ∙ back, ap length (sym same) ∙ long, omega arith, omega arith)
  | inr large ↦ cc (rw large at h)
]

-- The arguments of `RJUMPV[…]` that give a table as integers: one list of them (a tuple, as `RJUMPV[1, 2]`
-- has, a list or a range), or the integers in turn.
pub data IsTable (ns : List ℤ) (args : List Arg) : Type 0 where
  as_list : args ≡ ints ns ∷ [] → IsTable ns args
  as_arguments : args ≡ map int ns → IsTable ns args

length-map_int : (ns : List ℤ) → length (map int ns) ≡ length ns
length-map_int [] = refl
length-map_int (n ∷ ns) = omega (arith, length-map_int ns)

ints_of-map : (ns : List ℤ) → ints_of (map int ns) ≡ ns
unfolding ints_of
ints_of-map [] = refl
ints_of-map (n ∷ ns) = ap (λ ms. n ∷ ms) (ints_of-map ns)

-- The two ways in which the encoder counts and reads its arguments agree on integers.
encoder_arguments : (ns : List ℤ) → rjumpv_encoder (map int ns) ≡ rjumpv_encoder (ints ns ∷ [])
unfolding rjumpv_encoder ints_of
encoder_arguments [] = refl
encoder_arguments (n ∷ []) = refl
encoder_arguments (n ∷ m ∷ ns) =
    ap₂ (λ k ms. jump_table (pos (suc k)) (n ∷ m ∷ ms)) (length-map_int ns) (ints_of-map ns)

format_arguments :
    (ns : List ℤ) → format_data rjumpv_encoder (map int ns) ≡ rjumpv_encoder (map int ns)
unfolding format_data
format_arguments [] = refl
format_arguments (n ∷ []) = refl
format_arguments (n ∷ m ∷ ns) = refl

format_table :
    (ns : List ℤ) (args : List Arg)
    → IsTable ns args
    → format_data rjumpv_encoder args ≡ rjumpv_encoder (ints ns ∷ [])
unfolding format_data
format_table ns args (as_list e) = rw e (encoder_arguments ns)
format_table ns args (as_arguments e) = rw e (format_arguments ns ∙ encoder_arguments ns)

pub get_item_table :
    (ns : List ℤ) (args : List Arg)
    → IsTable ns args
    → get_item rjumpv args ≡ (rjumpv_encoder (ints ns ∷ []) >>= λ b. ok (with_data rjumpv b))
unfolding get_item data_portion has_data_portion new new_of_bytes
get_item_table ns args table = rw (format_table ns args table) refl

-- An opcode `RJUMPV` with a table of integers, given as one list or in turn, is its byte and then a table
-- that reads back as these integers, with two bytes for each of them behind the first byte; it has at
-- least one offset and at most 256.
pub rjumpv-roundtrip :
    (ns : List ℤ) (args : List Arg) (o : Opcode)
    → IsTable ns args
    → get_item rjumpv args ≡ ok o
    → (b : Bytes) × (o.bytecode.bytes ≡ 0xe2 ∷ b)
      × (read_table b ≡ some ns)
      × (length b ≡ 1 + 2 * length ns)
      × (0 < length ns)
      × (length ns ≤ 256)
unfolding with_data new new_of_bytes
rjumpv-roundtrip ns args o table h =
    let (b, encoded, whole) =
      >>=-eq-ok (rjumpv_encoder (ints ns ∷ [])) _ (sym (get_item_table ns args table) ∙ h) in
    let (back, long, some_offset, few) = encoded-reads ns b encoded in
    (b, sym (ap (λ p. p.bytecode.bytes) (ok-injective whole)), back, long, some_offset, few)
