-- ===== src/Eof/Stack/Returns.antt =====
-- That `compute_code_stack_values` returns (src/ethereum_test_types/eof/v1/__init__.py).
use execution_spec_tests_gno.Base.{
  ℕ, zero, suc, ◌+◌, ◌*◌, ◌<◌, ◌≤◌, ◌≡◌, ◌∙◌, subst, Bool, true, false, Option, none, some, List,
  [], ◌∷◌, if◌then◌else◌, length, get_elem?, arith, Option-cases, inl, inr,
}
use execution_spec_tests_gno.Base.Bytes.{Bytes}
use execution_spec_tests_gno.Opcode.Arg.{Opcode}
use execution_spec_tests_gno.Eof.Stack.{
  Heights, opcode_map, after_opcode, is_rjumpv, next_index, values_of, stack_loop, no_heights,
  compute_code_stack_values,
}

get_elem?-lt {ℓ} :
    {A : Type ℓ} (xs : List A) (i : ℕ) {x : A} → get_elem? xs i ≡ some x → i < length xs
get_elem?-lt [] i h = cc
get_elem?-lt (x ∷ xs) zero h = omega arith
get_elem?-lt (x ∷ xs) (suc i) h = let rest = get_elem?-lt xs i h in omega arith

one_of-lt :
    (i width : ℕ) (b : Bool) (o : Option ℕ)
    → i
      < (if b then (elim o [ none ↦ i + 1 | some count ↦ i + 1 + count * 2 ]) else i + (1 + width))
one_of-lt i width true none = omega arith
one_of-lt i width true (some count) = omega arith
one_of-lt i width false o = omega arith

next_index-lt : (code_bytes : Bytes) (i : ℕ) (o : Opcode) → i < next_index code_bytes i o
unfolding next_index
next_index-lt code_bytes i o =
    one_of-lt i o.data_portion_length (is_rjumpv o) (get_elem? code_bytes (i + 1))

module _ (fuel : ℕ) (code_bytes : Bytes) (i : ℕ) (h : Heights) where
  pub loop-end :
      get_elem? code_bytes i ≡ none → stack_loop (suc fuel) code_bytes i h ≡ some (values_of h)
  unfolding stack_loop
  loop-end past = rw (stack_loop, past)

  loop-unknown :
      (b : ℕ)
      → get_elem? code_bytes i ≡ some b
      → opcode_map b ≡ none
      → stack_loop (suc fuel) code_bytes i h ≡ some (0, 0, 0)
  unfolding stack_loop
  loop-unknown b found unknown = rw (stack_loop, found, unknown)

  pub loop-step :
      (b : ℕ) (o : Opcode)
      → get_elem? code_bytes i ≡ some b
      → opcode_map b ≡ some o
      → stack_loop (suc fuel) code_bytes i h
        ≡ stack_loop fuel code_bytes (next_index code_bytes i o) (after_opcode o h)
  unfolding stack_loop
  loop-step b o found known = rw (stack_loop, found, known)

-- One round is enough behind the last byte, and each byte takes one at most.
loop-returns :
    (fuel : ℕ) (code_bytes : Bytes) (i : ℕ) (h : Heights)
    → length code_bytes ≤ i + fuel
    → (v : ℕ × ℕ × ℕ) × (stack_loop (suc fuel) code_bytes i h ≡ some v)
loop-returns zero code_bytes i h enough = elim (Option-cases (get_elem? code_bytes i)) [
  | inl past ↦ (values_of h, loop-end zero code_bytes i h past)
  | inr (b, found) ↦ let within = get_elem?-lt code_bytes i found in absurd (omega arith)
]
loop-returns (suc fuel) code_bytes i h enough = elim (Option-cases (get_elem? code_bytes i)) [
  | inl past ↦ (values_of h, loop-end (suc fuel) code_bytes i h past)
  | inr (b, found) ↦ elim (Option-cases (opcode_map b)) [
    | inl unknown ↦ ((0, 0, 0), loop-unknown (suc fuel) code_bytes i h b found unknown)
    | inr (o, known) ↦
        let later = next_index-lt code_bytes i o in
        let (v, returned) =
          loop-returns fuel code_bytes (next_index code_bytes i o) (after_opcode o h)
            (omega arith) in
        (v, loop-step (suc fuel) code_bytes i h b o found known ∙ returned)
  ]
]

-- `compute_code_stack_values` returns for all code.
pub compute_code_stack_values-returns :
    (code_bytes : Bytes) → (v : ℕ × ℕ × ℕ) × (compute_code_stack_values code_bytes ≡ some v)
unfolding compute_code_stack_values
compute_code_stack_values-returns code_bytes =
    let enough : suc (length code_bytes) ≡ length code_bytes + 1 = omega arith in
    subst (λ n. (v : ℕ × ℕ × ℕ) × (stack_loop n code_bytes 0 no_heights ≡ some v)) enough
      (loop-returns (length code_bytes) code_bytes 0 no_heights (omega arith))
