-- ===== src/Opcode/Call/Constants.antt =====
-- A call of an opcode on constants: the code that `Opcode.__call__` returns, as an EVM reads it
-- (src/ethereum_test_vm/opcode.py).
use execution_spec_tests_gno.Base.{
  ℕ, zero, suc, ◌+◌, ◌≡◌, refl, sym, ◌∙◌, ap, true, false, Option, none, some, List, [], ◌∷◌, ◌++◌,
  ◌==◌, arith, ok, length, reverse, length-reverse_onto,
}
use mathlib.Core.List.{append_assoc, append-nil}
use execution_spec_tests_gno.Base.Bytes.{Bytes}
use execution_spec_tests_gno.Bytecode.{Bytecode, empty, concat}
use execution_spec_tests_gno.Bytecode.Valid.{
  IsValid, concat-IsValid, empty-IsValid, pop-concat, push-concat, min-concat-le,
}
use execution_spec_tests_gno.Opcode.Arg.{Arg, Opcode}
use execution_spec_tests_gno.Opcode.New.{has_data_portion}
use execution_spec_tests_gno.Opcode.Push.Read.{read_push, Pushes}
use execution_spec_tests_gno.Opcode.Push.Word.{word_of, argument-Pushes}
use execution_spec_tests_gno.Opcode.Call.{build, call}

-- The words of a list of constants.
abbrev pub Words : List Arg → List ℕ → Type 0
Words [] [] = Unit
Words [] (w ∷ ws) = ⊥
Words (a ∷ args) [] = ⊥
Words (a ∷ args) (w ∷ ws) = (word_of a ≡ some w) × Words args ws

length-Words : (args : List Arg) (ws : List ℕ) → Words args ws → length ws ≡ length args
length-Words [] [] h = refl
length-Words [] (w ∷ ws) h = absurd h
length-Words (a ∷ args) [] h = absurd h
length-Words (a ∷ args) (w ∷ ws) h = ap suc (length-Words args ws h.1)

-- The next n instructions of the code, which are all to be pushes: their words, and the code behind
-- them.
pub read_pushes : ℕ → Bytes → Option (List ℕ × Bytes)
read_pushes zero rest = some ([], rest)
read_pushes (suc n) b = elim (read_push b) [
  | none ↦ none
  | some (w, rest) ↦ elim (read_pushes n rest) [
    | none ↦ none
    | some (ws, rest') ↦ some (w ∷ ws, rest')
  ]
]

-- What the loop of pushes does to the code before it.
record Extends (pre : Bytecode) (ws : List ℕ) (c : Bytecode) : Type 0 where
  portion : Bytes
  bytes_added : c.bytes ≡ pre.bytes ++ portion
  reads : (rest : Bytes) → read_pushes (length ws) (portion ++ rest) ≡ some (ws, rest)
  pops_none : c.popped_stack_items ≡ 0
  needs_none : c.min_stack_height ≡ 0
  pushes_all : c.pushed_stack_items ≡ pre.pushed_stack_items + length ws
  valid : IsValid c

Pushes-IsValid : (w : ℕ) (c : Bytecode) → Pushes w c → IsValid c
Pushes-IsValid w c p = omega arith

read_pushes_step :
    (n : ℕ) (b : Bytes) (w : ℕ) (ws : List ℕ) (rest rest' : Bytes)
    → read_push b ≡ some (w, rest)
    → read_pushes n rest ≡ some (ws, rest')
    → read_pushes (suc n) b ≡ some (w ∷ ws, rest')
unfolding read_pushes
read_pushes_step n b w ws rest rest' h k = rw (h, read_pushes, k) refl

Extends-step :
    (w : ℕ) (ws : List ℕ) (pre b c : Bytecode)
    → Pushes w b
    → Extends (concat pre b) ws c
    → Extends pre (w ∷ ws) c
unfolding concat
Extends-step w ws pre b c p x = record {
  portion = b.bytes ++ x.portion;
  bytes_added = x.bytes_added ∙ append_assoc pre.bytes b.bytes x.portion;
  reads = λ rest. rw (append_assoc b.bytes x.portion rest) (
      read_pushes_step (length ws) (b.bytes ++ (x.portion ++ rest)) w ws (x.portion ++ rest) rest
        (p.reads (x.portion ++ rest)) (x.reads rest));
  pops_none = x.pops_none;
  needs_none = x.needs_none;
  pushes_all = omega (arith, x.pushes_all, push-concat pre b, p.pushes_one, p.pops_none);
  valid = x.valid;
}

build-Extends :
    (args : List Arg) (ws : List ℕ) (pre : Bytecode)
    → Words args ws
    → pre.popped_stack_items ≡ 0
    → pre.min_stack_height ≡ 0
    → IsValid pre
    → (c : Bytecode) × (build pre args ≡ ok c) × Extends pre ws c
unfolding build read_pushes
build-Extends [] [] pre h hp hm v = (
  pre,
  refl,
  record {
    portion = [];
    bytes_added = sym (append-nil pre.bytes);
    reads = λ rest. refl;
    pops_none = hp;
    needs_none = hm;
    pushes_all = omega arith;
    valid = v;
  },
)
build-Extends [] (w ∷ ws) pre h hp hm v = absurd h
build-Extends (a ∷ args) [] pre h hp hm v = absurd h
build-Extends (a ∷ args) (w ∷ ws) pre h hp hm v =
    let (b, e, p) = argument-Pushes a w h.0 in
    let next = concat pre b in
    let vb = Pushes-IsValid w b p in
    let hp' : next.popped_stack_items ≡ 0 = omega (arith, pop-concat pre b, p.pops_none) in
    let hm' : next.min_stack_height ≡ 0 =
      omega (arith, (min-concat-le pre b 0).1 (omega arith, omega (arith, p.needs_none))) in
    let (c, built, x) = build-Extends args ws next h.1 hp' hm' (concat-IsValid pre b v vb) in
    (c, rw e built, Extends-step w ws pre b c p x)

-- The code of a call on constants: the pushes of the words in order, then the opcode.
pub record Calls (o : Opcode) (ws : List ℕ) (c : Bytecode) : Type 0 where
  pub reads : read_pushes (length ws) c.bytes ≡ some (ws, o.bytecode.bytes)
  pub pops_none : c.popped_stack_items ≡ 0
  pub pushes_same : c.pushed_stack_items ≡ o.bytecode.pushed_stack_items
  pub needs_rest : c.min_stack_height + o.bytecode.popped_stack_items ≡ o.bytecode.min_stack_height
  pub valid : IsValid c

concat-Calls :
    (o : Opcode) (ws : List ℕ) (pre : Bytecode)
    → IsValid o.bytecode
    → length ws ≡ o.bytecode.popped_stack_items
    → Extends empty ws pre
    → Calls o ws (concat pre o.bytecode)
unfolding concat
concat-Calls o ws pre v n x = record {
  reads = rw x.bytes_added (x.reads o.bytecode.bytes);
  pops_none = omega (arith, pop-concat pre o.bytecode);
  pushes_same = omega (arith, push-concat pre o.bytecode);
  needs_rest = omega arith;
  valid = concat-IsValid pre o.bytecode x.valid v;
}

-- A call of a valid opcode without a data portion, on as many constants as the opcode pops, is
-- accepted. The code pushes the words of the arguments, the last argument first, and ends with the
-- opcode; it pops nothing, pushes what the opcode pushes, and needs on the stack only what the
-- opcode needs beyond the items that it pops.
pub call-Calls :
    (o : Opcode) (args : List Arg) (ws : List ℕ)
    → IsValid o.bytecode
    → has_data_portion o ≡ false
    → Words (reverse args) ws
    → length args ≡ o.bytecode.popped_stack_items
    → (c : Bytecode) × (call o args false [] ≡ ok c) × Calls o ws c
unfolding call
call-Calls o args ws v plain hw n =
    let (pre, e, x) = build-Extends (reverse args) ws empty hw refl refl empty-IsValid in
    let same : (length args == o.bytecode.popped_stack_items) ≡ true = ground arith in
    (
      concat pre o.bytecode,
      rw (plain, same, e),
      concat-Calls o ws pre v
          (length-Words (reverse args) ws hw ∙ length-reverse_onto [] args ∙ omega arith) x,
    )
