-- ===== src/Opcode/Encoders/Accepted.antt =====
-- The jump tables that `RJUMPV` takes (src/ethereum_test_vm/opcode.py, `_rjumpv_encoder`).
use execution_spec_tests_gno.Base.{
  ◌+◌, ◌-◌, ◌*◌, ◌^◌, ◌++◌, ◌≤◌, ◌<◌, ◌≡◌, ◌↔◌, refl, sym, ◌∙◌, List, [], ◌∷◌, ok, All, length,
  arith, inl, inr, Bool-cases, ltb, leb, ltb→lt, leb→le, lt→ltb, le→leb, >>=-eq-ok,
}
use execution_spec_tests_gno.Base.Int.{ℤ, pos, negsuc}
use execution_spec_tests_gno.Base.Bytes.{
  Bytes, to_be, to_bytes_auto, to_bytes_unsigned, to_bytes_signed,
}
use execution_spec_tests_gno.Opcode.Arg.{Arg, Opcode, ints}
use execution_spec_tests_gno.Opcode.New.{get_item, with_data}
use execution_spec_tests_gno.Opcode.Encoders.{branch_offsets, jump_table, rjumpv_encoder}
use execution_spec_tests_gno.Opcode.Encoders.JumpTable.{IsTable, get_item_table}
use execution_spec_tests_gno.Opcode.Table.Containers.{rjumpv}

-- A signed number of two bytes.
abbrev pub IsOffset : ℤ → Type 0
IsOffset (pos n) = n < 2 ^ 15
IsOffset (negsuc m) = m < 2 ^ 15

to_bytes_signed-IsOffset : (n : ℤ) {b : Bytes} → to_bytes_signed 2 n ≡ ok b → IsOffset n
unfolding to_bytes_signed to_bytes_auto
to_bytes_signed-IsOffset (pos n) h = elim (Bool-cases (ltb (2 * n) (2 ^ 16))) [
  | inl fits ↦ omega (arith, ltb→lt _ _ fits)
  | inr large ↦ cc (rw large at h)
]
to_bytes_signed-IsOffset (negsuc m) h = elim (Bool-cases (leb (2 * (m + 1)) (2 ^ 16))) [
  | inl fits ↦ omega (arith, leb→le _ _ fits)
  | inr large ↦ cc (rw large at h)
]

IsOffset-to_bytes_signed : (n : ℤ) → IsOffset n → (b : Bytes) × (to_bytes_signed 2 n ≡ ok b)
unfolding to_bytes_signed to_bytes_auto
IsOffset-to_bytes_signed (pos n) h = (to_be 2 n, rw (lt→ltb (2 * n) (256 ^ 2) (omega arith)) refl)
IsOffset-to_bytes_signed (negsuc m) h =
    (to_be 2 (256 ^ 2 - (m + 1)), rw (le→leb (2 * (m + 1)) (256 ^ 2) (omega arith)) refl)

branch_offsets-All : (ns : List ℤ) {b : Bytes} → branch_offsets ns ≡ ok b → All IsOffset ns
unfolding branch_offsets
branch_offsets-All [] h = tt
branch_offsets-All (n ∷ ns) h =
    let (first, h1, rest_h) = >>=-eq-ok (to_bytes_signed 2 n) _ h in
    let (rest, h2, whole) = >>=-eq-ok (branch_offsets ns) _ rest_h in
    (to_bytes_signed-IsOffset n h1, branch_offsets-All ns h2)

All-branch_offsets : (ns : List ℤ) → All IsOffset ns → (b : Bytes) × (branch_offsets ns ≡ ok b)
unfolding branch_offsets
All-branch_offsets [] h = (_, refl)
All-branch_offsets (n ∷ ns) (h, hs) =
    let (first, e) = IsOffset-to_bytes_signed n h in
    let (rest, e') = All-branch_offsets ns hs in (first ++ rest, rw (e, e') refl)

-- What a table needs for it to be encoded.
abbrev pub IsEncodable : List ℤ → Type 0
IsEncodable ns = (0 < length ns) × (length ns ≤ 256) × All IsOffset ns

encoder-IsEncodable :
    (ns : List ℤ) {b : Bytes} → rjumpv_encoder (ints ns ∷ []) ≡ ok b → IsEncodable ns
unfolding rjumpv_encoder jump_table to_bytes_unsigned to_bytes_auto
encoder-IsEncodable [] h = cc
encoder-IsEncodable (n ∷ ns) h = elim (Bool-cases (ltb (length ns) 256)) [
  | inl fits ↦
      let (rest, h2, whole) = >>=-eq-ok (branch_offsets (n ∷ ns)) _ (rw fits at h) in
      let few : length ns < 256 = ltb→lt _ _ fits in
      (omega arith, omega arith, branch_offsets-All (n ∷ ns) h2)
  | inr large ↦ cc (rw large at h)
]

IsEncodable-encoder :
    (ns : List ℤ) → IsEncodable ns → (b : Bytes) × (rjumpv_encoder (ints ns ∷ []) ≡ ok b)
unfolding rjumpv_encoder jump_table to_bytes_unsigned to_bytes_auto
IsEncodable-encoder [] (h, few, fit) = absurd (omega arith)
IsEncodable-encoder (n ∷ ns) (h, few, fit) =
    let (rest, e) = All-branch_offsets (n ∷ ns) fit in
    (to_be 1 (length ns) ++ rest, rw (lt→ltb (length ns) 256 (omega arith), e) refl)

-- `RJUMPV` takes a table of integers, given as one list or in turn, exactly if it has at least one offset
-- and at most 256 and each is a signed number of two bytes; it raises an exception otherwise.
pub get_item-rjumpv_iff :
    (ns : List ℤ) (args : List Arg)
    → IsTable ns args
    → ((o : Opcode) × (get_item rjumpv args ≡ ok o)) ↔ IsEncodable ns
get_item-rjumpv_iff ns args table = (
  λ (o, h).
      let (b, encoded, whole) =
        >>=-eq-ok (rjumpv_encoder (ints ns ∷ [])) _ (sym (get_item_table ns args table) ∙ h) in
      encoder-IsEncodable ns encoded,
  λ fit.
      let (b, e) = IsEncodable-encoder ns fit in
      (with_data rjumpv b, get_item_table ns args table ∙ rw e refl),
)
