-- ===== src/Eof/Stack/Straight.antt =====
-- The stack values of code without jump tables (src/ethereum_test_types/eof/v1/__init__.py).
use execution_spec_tests_gno.Base.{
  ℕ, zero, suc, ◌+◌, ◌-◌, ◌≤◌, max, ◌≡◌, refl, sym, ap, ap₂, ◌∙◌, subst, false, Option, none, some,
  List, [], ◌∷◌, ◌++◌, length, get_elem?, All, arith, length-append,
}
use mathlib.Core.List.{append_assoc}
use execution_spec_tests_gno.Base.Bytes.{Bytes}
use execution_spec_tests_gno.Base.Int.{◌+ℤ◌, ◌-ℤ◌, pos_part, neg_part}
use execution_spec_tests_gno.Bytecode.{Bytecode, empty, concat}
use execution_spec_tests_gno.Opcode.Arg.{Opcode}
use execution_spec_tests_gno.Opcode.New.{int_of}
use execution_spec_tests_gno.Eof.Stack.{
  Heights, opcode_map, after_opcode, is_rjumpv, next_index, values_of, stack_loop, no_heights,
  compute_code_stack_values,
}
use execution_spec_tests_gno.Eof.Stack.Returns.{loop-end, loop-step}

-- An opcode that is no jump table, with its immediate bytes.
pub record Instruction : Type 0 where
  pub opcode : Opcode
  pub immediate : Bytes

pub record IsInstruction (x : Instruction) : Type 0 where
  pub known : opcode_map (int_of x.opcode) ≡ some x.opcode
  pub no_table : is_rjumpv x.opcode ≡ false
  pub long_enough : length x.immediate ≡ x.opcode.data_portion_length

abbrev pub code_of : List Instruction → Bytes
code_of [] = []
code_of (x ∷ xs) = int_of x.opcode ∷ (x.immediate ++ code_of xs)

-- The bytecode of the opcodes in turn, for its counts.
abbrev pub counts_from : Bytecode → List Instruction → Bytecode
counts_from s [] = s
counts_from s (x ∷ xs) = counts_from (concat s x.opcode.bytecode) xs

-- The largest growth of the stack over its height at the start, behind an opcode.
abbrev pub top_from : ℕ → Bytecode → List Instruction → ℕ
top_from top s [] = top
top_from top s (x ∷ xs) =
    let next = concat s x.opcode.bytecode in
    top_from (max top (next.pushed_stack_items - next.popped_stack_items)) next xs

-- The heights after code of which the counts are those of s.
record Reached (s : Bytecode) (top : ℕ) (h : Heights) : Type 0 where
  height :
      pos_part h.stack_height + s.popped_stack_items
      ≡ neg_part h.stack_height + s.pushed_stack_items
  one_sign : (pos_part h.stack_height ≡ s.pushed_stack_items - s.popped_stack_items)
  least : (pos_part h.min_stack_height ≡ 0) × (neg_part h.min_stack_height ≡ s.popped_stack_items)
  most : (pos_part h.max_stack_height ≡ top) × (neg_part h.max_stack_height ≡ 0)

Reached-after :
    (s : Bytecode) (top : ℕ) (h : Heights) (o : Opcode)
    → Reached s top h
    → Reached
        (concat s o.bytecode)
        (max top
          ((concat s o.bytecode).pushed_stack_items - (concat s o.bytecode).popped_stack_items))
        (after_opcode o h)
unfolding after_opcode ◌+ℤ◌ ◌-ℤ◌ concat
Reached-after s top h o r = record {
  height = ground arith;
  one_sign = ground arith;
  least = ground arith;
  most = ground arith;
}

values-Reached :
    (s : Bytecode) (top : ℕ) (h : Heights)
    → Reached s top h
    → values_of h ≡ (s.popped_stack_items, s.pushed_stack_items - s.popped_stack_items, top)
values-Reached s top h r =
    let least : pos_part h.min_stack_height + neg_part h.min_stack_height ≡ s.popped_stack_items =
      omega (arith, r.least.0, r.least.1) in
    λ i. (least i, r.one_sign i, r.most.0 i)

get_elem?-append {ℓ} :
    {A : Type ℓ} (front : List A) (x : A) (back : List A)
    → get_elem? (front ++ x ∷ back) (length front) ≡ some x
get_elem?-append [] x back = refl
get_elem?-append (y ∷ front) x back = get_elem?-append front x back

get_elem?-end {ℓ} : {A : Type ℓ} (front : List A) → get_elem? (front ++ []) (length front) ≡ none
get_elem?-end [] = refl
get_elem?-end (y ∷ front) = get_elem?-end front

next_index-straight :
    (code_bytes : Bytes) (i : ℕ) (x : Instruction)
    → IsInstruction x
    → next_index code_bytes i x.opcode ≡ i + (1 + length x.immediate)
unfolding next_index
next_index-straight code_bytes i x v = rw (v.no_table, v.long_enough)

values_from : ℕ → Bytecode → List Instruction → Option (ℕ × ℕ × ℕ)
values_from top s xs = some (
  (counts_from s xs).popped_stack_items,
  (counts_from s xs).pushed_stack_items - (counts_from s xs).popped_stack_items,
  top_from top s xs,
)

loop-values_from :
    (fuel : ℕ) (front : Bytes) (xs : List Instruction) (s : Bytecode) (top : ℕ) (h : Heights)
    → All IsInstruction xs
    → Reached s top h
    → length xs ≤ fuel
    → stack_loop (suc fuel) (front ++ code_of xs) (length front) h ≡ values_from top s xs
unfolding values_from
loop-values_from fuel front [] s top h vs r enough =
    loop-end fuel (front ++ []) (length front) h (get_elem?-end front)
    ∙ ap some (values-Reached s top h r)
loop-values_from zero front (x ∷ xs) s top h vs r enough = absurd (omega arith)
loop-values_from (suc fuel) front (x ∷ xs) s top h (v, vs) r enough =
    let code_bytes = front ++ code_of (x ∷ xs) in
    let front' = front ++ (int_of x.opcode ∷ x.immediate) in
    let same : front' ++ code_of xs ≡ code_bytes =
      append_assoc front (int_of x.opcode ∷ x.immediate) (code_of xs) in
    let place : length front' ≡ next_index code_bytes (length front) x.opcode =
      length-append front (int_of x.opcode ∷ x.immediate)
      ∙ omega arith
      ∙ sym (next_index-straight code_bytes (length front) x v) in
    let next =
      loop-values_from fuel front' xs (concat s x.opcode.bytecode) _ (after_opcode x.opcode h) vs
        (Reached-after s top h x.opcode r) (omega arith) in
    loop-step (suc fuel) code_bytes (length front) h (int_of x.opcode) x.opcode
      (get_elem?-append front (int_of x.opcode) (x.immediate ++ code_of xs)) v.known
    ∙ sym (ap₂ (λ c i. stack_loop (suc fuel) c i (after_opcode x.opcode h)) same place)
    ∙ next

start-Reached : Reached empty 0 no_heights
start-Reached = record { height = refl; one_sign = refl; least = (refl, refl); most = (refl, refl) }

length-code_of : (xs : List Instruction) → length xs ≤ length (code_of xs)
length-code_of [] = omega arith
length-code_of (x ∷ xs) =
    let rest = length-code_of xs in
    let whole = length-append x.immediate (code_of xs) in omega arith

-- For a sequence of opcodes with their immediate bytes, none of them `RJUMPV`, the first number is the
-- count of items that the sum of the opcodes pops. The second is the net growth of the stack, the items
-- that the sum pushes less those that it pops, or 0 if it pops more; it is not the count of items that
-- the sum leaves. The third is the largest net growth behind an opcode, or 0; it is counted from the
-- height at the start, without the items that are there.
pub compute_code_stack_values-straight :
    (xs : List Instruction)
    → All IsInstruction xs
    → compute_code_stack_values (code_of xs)
      ≡ some (
        (counts_from empty xs).popped_stack_items,
        (counts_from empty xs).pushed_stack_items - (counts_from empty xs).popped_stack_items,
        top_from 0 empty xs,
      )
unfolding compute_code_stack_values values_from
compute_code_stack_values-straight xs vs =
    let enough : suc (length (code_of xs)) ≡ length (code_of xs) + 1 = omega arith in
    subst (λ n. stack_loop n (code_of xs) 0 no_heights ≡ values_from 0 empty xs) enough
      (loop-values_from (length (code_of xs)) [] xs empty 0 no_heights vs start-Reached
        (length-code_of xs))
