-- ===== src/Eof/Entries.antt =====
-- The type entries of a container (src/ethereum_test_types/eof/v1/__init__.py).
use execution_spec_tests_gno.Base.{
  ℕ, ◌+◌, ◌*◌, ◌^◌, ◌≡◌, ◌∙◌, refl, sym, ap, Bool, true, false, not, ◌&&◌, List, [], ◌∷◌, ◌++◌, ltb,
  if◌then◌else◌, length, length-append, filter, Result, ok, assertion_error, require, >>=-eq-ok,
  ok-injective, arith, inl, inr, Bool-cases,
}
use execution_spec_tests_gno.Base.Bytes.{Bytes, to_bytes_auto, to_bytes_unsigned, length-to_be}
use execution_spec_tests_gno.Base.Int.{ℤ, pos, negsuc, leb_ℤ}
use execution_spec_tests_gno.Eof.Section.{
  Section, lists_type, entry_of, type_definition, increase_of, auto_increase, inputs_of, outputs_of,
}
use execution_spec_tests_gno.Eof.Container.{type_entry, type_entries}

length-to_bytes_unsigned : (k : ℕ) (n : ℤ) {b : Bytes} → to_bytes_unsigned k n ≡ ok b → length b ≡ k
unfolding to_bytes_unsigned to_bytes_auto
length-to_bytes_unsigned k (pos n) h = elim (Bool-cases (ltb n (256 ^ k))) [
  | inl fits ↦ ap length (sym (ok-injective (rw fits at h))) ∙ length-to_be k n
  | inr large ↦ cc (rw large at h)
]
length-to_bytes_unsigned k (negsuc m) h = cc

length-entry_of :
    (inputs outputs : ℤ) (computed : Result ℤ) {b : Bytes}
    → entry_of inputs outputs computed ≡ ok b
    → length b ≡ 4
unfolding entry_of
length-entry_of inputs outputs computed {b} h =
    let (increase, _, h1) = >>=-eq-ok computed _ h in
    let (_, _, h2) = >>=-eq-ok (require (leb_ℤ (pos 0) increase) assertion_error) _ h1 in
    let (first, e1, h3) = >>=-eq-ok (to_bytes_unsigned 1 inputs) _ h2 in
    let (second, e2, h4) = >>=-eq-ok (to_bytes_unsigned 1 outputs) _ h3 in
    let (third, e3, h5) = >>=-eq-ok (to_bytes_unsigned 2 increase) _ h4 in
    let l1 = length-to_bytes_unsigned 1 inputs e1 in
    let l2 = length-to_bytes_unsigned 1 outputs e2 in
    let l3 = length-to_bytes_unsigned 2 increase e3 in
    ap length (sym (ok-injective h5))
    ∙ omega (arith, length-append first (second ++ third), length-append second third, l1, l2, l3)

length-chosen :
    (lists : Bool) (inputs outputs : ℤ) (computed : Result ℤ) {b : Bytes}
    → (if lists then entry_of inputs outputs computed else ok []) ≡ ok b
    → length b ≡ (if lists then 4 else 0)
length-chosen true inputs outputs computed h = length-entry_of inputs outputs computed h
length-chosen false inputs outputs computed h = ap length (sym (ok-injective h))

length-type_definition :
    (s : Section) {b : Bytes}
    → type_definition s ≡ ok b
    → length b ≡ (if lists_type s then 4 else 0)
unfolding type_definition
length-type_definition s h =
    length-chosen (lists_type s) (inputs_of s) (outputs_of s)
      (increase_of s (inputs_of s) (auto_increase s (inputs_of s))) h

-- Whether the type entry of a section counts for the size, and whether it is written.
abbrev pub sizes_type : Section → Bool
sizes_type s = lists_type s && not s.skip_types_header_listing

abbrev pub writes_type : Section → Bool
writes_type s = lists_type s && not s.skip_types_body_listing

length-unless_skipped :
    (lists no_size no_bytes : Bool) (call : Result Bytes) {b : Bytes}
    → ((c : Bytes) → call ≡ ok c → length c ≡ (if lists then 4 else 0))
    → (if no_size && no_bytes then ok [] else call) ≡ ok b
    → ((if no_size then 0 else length b) ≡ (if lists && not no_size then 4 else 0))
      × ((if no_bytes then 0 else length b) ≡ (if lists && not no_bytes then 4 else 0))
length-unless_skipped true true true call long h = (refl, refl)
length-unless_skipped false true true call long h = (refl, refl)
length-unless_skipped true true false call long h = (refl, long _ h)
length-unless_skipped false true false call long h = (refl, long _ h)
length-unless_skipped true false true call long h = (long _ h, refl)
length-unless_skipped false false true call long h = (long _ h, refl)
length-unless_skipped true false false call long h = (long _ h, long _ h)
length-unless_skipped false false false call long h = (long _ h, long _ h)

length-type_entry :
    (s : Section) {b : Bytes}
    → type_entry s ≡ ok b
    → ((if s.skip_types_header_listing then 0 else length b) ≡ (if sizes_type s then 4 else 0))
      × ((if s.skip_types_body_listing then 0 else length b) ≡ (if writes_type s then 4 else 0))
unfolding type_entry
length-type_entry s h =
    length-unless_skipped (lists_type s) s.skip_types_header_listing s.skip_types_body_listing
      (type_definition s) (λ c. length-type_definition s) h

add_choice : (c : Bool) (m n : ℕ) → (if c then n else m + n) ≡ (if c then 0 else m) + n
add_choice true m n = omega arith
add_choice false m n = refl

length-choice :
    (c : Bool) (b rest : Bytes)
    → length (if c then rest else b ++ rest) ≡ (if c then 0 else length b) + length rest
length-choice true b rest = omega arith
length-choice false b rest = length-append b rest

count-choice :
    (c : Bool) (s : Section) (ss : List Section)
    → 4 * length (if c then s ∷ ss else ss) ≡ (if c then 4 else 0) + 4 * length ss
count-choice true s ss = omega arith
count-choice false s ss = omega arith

-- Where type_entries returns, the size for the header is four times the number of sections that have a type
-- entry and do not skip it in the header, and the bytes are four for each section that
-- has a type entry and does not skip it in the body.
pub length-type_entries :
    (ss : List Section) (n : ℕ) (b : Bytes)
    → type_entries ss ≡ ok (n, b)
    → (n ≡ 4 * length (filter sizes_type ss)) × (length b ≡ 4 * length (filter writes_type ss))
unfolding type_entries
length-type_entries [] n b h =
    (sym (ap (λ p. p.0) (ok-injective h)), sym (ap (λ p. length p.1) (ok-injective h)))
length-type_entries (s ∷ ss) n b h =
    let (entry, e1, h1) = >>=-eq-ok (type_entry s) _ h in
    let ((size, entries), e2, whole) = >>=-eq-ok (type_entries ss) _ h1 in
    let (same_size, same_bytes) = length-type_entry s e1 in
    let (ih_size, ih_bytes) = length-type_entries ss size entries e2 in
    (
      sym (ap (λ p. p.0) (ok-injective whole))
          ∙ omega (
            arith,
            add_choice s.skip_types_header_listing (length entry) size,
            count-choice (sizes_type s) s (filter sizes_type ss),
            same_size,
            ih_size,
          ),
      sym (ap (λ p. length p.1) (ok-injective whole))
          ∙ omega (
            arith,
            length-choice s.skip_types_body_listing entry entries,
            count-choice (writes_type s) s (filter writes_type ss),
            same_bytes,
            ih_bytes,
          ),
    )
