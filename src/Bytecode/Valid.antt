-- ===== src/Bytecode/Valid.antt =====
-- The invariant of the stack counts of a `Bytecode`, and what `__add__` and `__mul__` do to it
-- (src/ethereum_test_vm/bytecode.py).
use execution_spec_tests_gno.Base.{ℕ, ◌+◌, ◌-◌, ◌≤◌, ◌≡◌, ◌↔◌, List, [], ◌∷◌, max, arith, All}
use execution_spec_tests_gno.Bytecode.{Bytecode, empty, concat, sum_from}
use mathlib.Core.List.{append_assoc}

-- The stack never falls below what is required, and the largest height is reached within the code:
-- it is no lower than where the code starts and where it ends.
pub record IsValid (b : Bytecode) : Type 0 where
  pub covered : b.popped_stack_items ≤ b.min_stack_height
  pub start_counted : b.min_stack_height ≤ b.max_stack_height
  pub end_counted :
      b.min_stack_height + b.pushed_stack_items ≤ b.max_stack_height + b.popped_stack_items

pub empty-IsValid : IsValid empty
empty-IsValid = omega arith

-- The sum of two valid bytecodes is valid.
pub concat-IsValid : (a b : Bytecode) → IsValid a → IsValid b → IsValid (concat a b)
unfolding concat
concat-IsValid a b va vb = ground arith

pub sum_from-IsValid :
    (a : Bytecode) (bs : List Bytecode) → IsValid a → All IsValid bs → IsValid (sum_from a bs)
unfolding sum_from
sum_from-IsValid a [] va vs = va
sum_from-IsValid a (b ∷ bs) va vs =
    sum_from-IsValid (concat a b) bs (concat-IsValid a b va vs.0) vs.1

-- The counts of a sum as maxima, with no test.
pub pop-concat :
    (a b : Bytecode)
    → (concat a b).popped_stack_items
      ≡ max a.popped_stack_items
          (a.popped_stack_items + b.popped_stack_items - a.pushed_stack_items)
unfolding concat
pop-concat a b = ground arith

pub push-concat :
    (a b : Bytecode)
    → (concat a b).pushed_stack_items
      ≡ max b.pushed_stack_items
          (a.pushed_stack_items + b.pushed_stack_items - b.popped_stack_items)
unfolding concat
push-concat a b = ground arith

pub net-concat :
    (a b : Bytecode)
    → (concat a b).pushed_stack_items + a.popped_stack_items + b.popped_stack_items
      ≡ (concat a b).popped_stack_items + a.pushed_stack_items + b.pushed_stack_items
net-concat a b = omega (arith, pop-concat a b, push-concat a b)

-- The least height that is enough for both, and the least rise above it that covers both.
pub min-concat-le :
    (a b : Bytecode) (n : ℕ)
    → ((concat a b).min_stack_height ≤ n) ↔ (
        (a.min_stack_height ≤ n)
        × (b.min_stack_height + a.popped_stack_items ≤ n + a.pushed_stack_items))
unfolding concat
min-concat-le a b n = (λ h. omega arith, λ h. omega arith)

pub max-concat-le :
    (a b : Bytecode)
    → IsValid a
    → IsValid b
    → (n : ℕ)
    → ((concat a b).max_stack_height ≤ (concat a b).min_stack_height + n) ↔ (
        (a.max_stack_height ≤ a.min_stack_height + n)
        × (b.max_stack_height + a.pushed_stack_items
            ≤ b.min_stack_height + a.popped_stack_items + n))
unfolding concat
max-concat-le a b va vb n = (λ h. omega arith, λ h. omega arith)

module _ (a b c : Bytecode) where
  pop_assoc :
      (concat (concat a b) c).popped_stack_items ≡ (concat a (concat b c)).popped_stack_items
  pop_assoc = omega (
    arith,
    pop-concat a b,
    push-concat a b,
    pop-concat b c,
    pop-concat (concat a b) c,
    pop-concat a (concat b c),
  )

  push_assoc :
      (concat (concat a b) c).pushed_stack_items ≡ (concat a (concat b c)).pushed_stack_items
  push_assoc = omega (
    arith,
    push-concat a b,
    push-concat b c,
    pop-concat b c,
    push-concat (concat a b) c,
    push-concat a (concat b c),
  )

  module _ (va : IsValid a) (vb : IsValid b) (vc : IsValid c) where
    min_left : (concat a (concat b c)).min_stack_height ≤ (concat (concat a b) c).min_stack_height
    min_left =
        let n = (concat (concat a b) c).min_stack_height in
        let (hab, hc) = (min-concat-le (concat a b) c n).0 (omega arith) in
        let (ha, hb) = (min-concat-le a b n).0 hab in
        let k = n + a.pushed_stack_items - a.popped_stack_items in
        let net = net-concat a b in
        let inner = (min-concat-le b c k).1 (omega arith, omega arith) in
        (min-concat-le a (concat b c) n).1 (ha, omega arith)

    min_right : (concat (concat a b) c).min_stack_height ≤ (concat a (concat b c)).min_stack_height
    min_right =
        let n = (concat a (concat b c)).min_stack_height in
        let (ha, hbc) = (min-concat-le a (concat b c) n).0 (omega arith) in
        let k = n + a.pushed_stack_items - a.popped_stack_items in
        let (hb, hc) = (min-concat-le b c k).0 (omega arith) in
        let net = net-concat a b in
        let inner = (min-concat-le a b n).1 (ha, omega arith) in
        (min-concat-le (concat a b) c n).1 (inner, omega arith)

    min_assoc : (concat (concat a b) c).min_stack_height ≡ (concat a (concat b c)).min_stack_height
    min_assoc = omega (arith, min_left, min_right)

    -- How far the sums rise above their least height.
    rise_left :
        (n : ℕ)
        → (concat (concat a b) c).max_stack_height ≤ (concat (concat a b) c).min_stack_height + n
        → (concat a (concat b c)).max_stack_height ≤ (concat a (concat b c)).min_stack_height + n
    rise_left n h =
        let vab = concat-IsValid a b va vb in
        let vbc = concat-IsValid b c vb vc in
        let (hab, hc) = (max-concat-le (concat a b) c vab vc n).0 h in
        let (ha, hb) = (max-concat-le a b va vb n).0 hab in
        let k = n + a.popped_stack_items - a.pushed_stack_items in
        let net = net-concat a b in
        let inner = (max-concat-le b c vb vc k).1 (omega arith, omega arith) in
        (max-concat-le a (concat b c) va vbc n).1 (ha, omega arith)

    rise_right :
        (n : ℕ)
        → (concat a (concat b c)).max_stack_height ≤ (concat a (concat b c)).min_stack_height + n
        → (concat (concat a b) c).max_stack_height ≤ (concat (concat a b) c).min_stack_height + n
    rise_right n h =
        let vab = concat-IsValid a b va vb in
        let vbc = concat-IsValid b c vb vc in
        let (ha, hbc) = (max-concat-le a (concat b c) va vbc n).0 h in
        let k = n + a.popped_stack_items - a.pushed_stack_items in
        let (hb, hc) = (max-concat-le b c vb vc k).0 (omega arith) in
        let net = net-concat a b in
        let inner = (max-concat-le a b va vb n).1 (ha, omega arith) in
        (max-concat-le (concat a b) c vab vc n).1 (inner, omega arith)

    max_assoc : (concat (concat a b) c).max_stack_height ≡ (concat a (concat b c)).max_stack_height
    max_assoc =
        let left = concat (concat a b) c in
        let right = concat a (concat b c) in
        let vl = concat-IsValid (concat a b) c (concat-IsValid a b va vb) vc in
        let vr = concat-IsValid a (concat b c) va (concat-IsValid b c vb vc) in
        let up = rise_left (left.max_stack_height - left.min_stack_height) (omega arith) in
        let down = rise_right (right.max_stack_height - right.min_stack_height) (omega arith) in
        omega (arith, min_assoc)

    -- For three valid bytecodes, how the sum is grouped changes neither the bytes nor any of the stack
    -- counts, nor any other part of the result.
    pub concat_assoc : concat (concat a b) c ≡ concat a (concat b c)
    unfolding concat
    concat_assoc = λ i. record {
      bytes = append_assoc a.bytes b.bytes c.bytes i;
      popped_stack_items = pop_assoc i;
      pushed_stack_items = push_assoc i;
      max_stack_height = max_assoc i;
      min_stack_height = min_assoc i;
      terminating = c.terminating;
      name = "";
    }
