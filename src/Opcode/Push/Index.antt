-- ===== src/Opcode/Push/Index.antt =====
-- The list of the push opcodes at any index (src/ethereum_test_vm/opcode.py).
use execution_spec_tests_gno.Base.{
  ℕ, zero, suc, ◌+◌, ◌-◌, ◌≤◌, ◌<◌, ◌≡◌, refl, ◌∙◌, ap, false, none, some, List, [], ◌∷◌, map,
  arith, ok, length, get_elem?, get_elem?-none,
}
use native.Mathlib.Nat.{add-zero}
use execution_spec_tests_gno.Base.Bytes.{Bytes, rjust}
use execution_spec_tests_gno.Bytecode.{Bytecode}
use execution_spec_tests_gno.Opcode.Arg.{Opcode, defaults}
use execution_spec_tests_gno.Opcode.New.{new}
use execution_spec_tests_gno.Opcode.Push.{push_opcodes_byte_list, push_with, push_constant}

range_from : ℕ → ℕ → List ℕ
range_from a zero = []
range_from a (suc n) = a ∷ range_from (a + 1) n

get_elem?-range_from :
    {A : Type 0} (f : ℕ → A) (a n i : ℕ)
    → i < n
    → get_elem? (map f (range_from a n)) i ≡ some (f (a + i))
unfolding range_from
get_elem?-range_from f a zero i h = absurd (omega arith)
get_elem?-range_from f a (suc n) zero h = rw (add-zero a)
get_elem?-range_from f a (suc n) (suc i) h =
    get_elem?-range_from f (a + 1) n i (omega arith) ∙ ap (λ j. some (f j)) (omega arith)

-- `PUSH1` to `PUSH32`, by the number of data bytes less one.
abbrev push_of : ℕ → Opcode
push_of i = new (0x60 + i) (record defaults { pushed_stack_items = 1; data_portion_length = i + 1 })

push_list : push_opcodes_byte_list ≡ map push_of (range_from 0 32)
unfolding range_from new
push_list = refl

push_at : (i : ℕ) → i < 32 → get_elem? push_opcodes_byte_list i ≡ some (push_of i)
push_at i h =
    ap (λ l. get_elem? l i) push_list
    ∙ get_elem?-range_from push_of 0 32 i h
    ∙ ap (λ j. some (push_of j)) (omega arith)

pub push_past : (i : ℕ) → 32 ≤ i → get_elem? push_opcodes_byte_list i ≡ none
push_past i h = get_elem?-none push_opcodes_byte_list i h

-- Code that pushes one constant: the byte of the opcode, and the data.
abbrev pub constant_push : ℕ → Bytes → Bytecode
constant_push i portion = record {
  bytes = (0x60 + i) ∷ portion;
  popped_stack_items = 0;
  pushed_stack_items = 1;
  max_stack_height = 1;
  min_stack_height = 0;
  terminating = false;
  name = "";
}

push_with_lem :
    (i : ℕ) (b : Bytes)
    → length b ≤ i + 1
    → push_with (some (push_of i)) b ≡ ok (constant_push i (rjust (i + 1) b))
unfolding push_with new
push_with_lem i b h = ground arith

pub push_constant-eq :
    (i : ℕ) (b : Bytes)
    → i < 32
    → length b ≤ i + 1
    → push_constant (suc i) b ≡ ok (constant_push i (rjust (i + 1) b))
unfolding push_constant
push_constant-eq i b hi hb =
    let e : suc i - 1 ≡ i = omega arith in
    ap (λ j. push_with (get_elem? push_opcodes_byte_list j) b) e
    ∙ ap (λ o. push_with o b) (push_at i hi)
    ∙ push_with_lem i b hb
