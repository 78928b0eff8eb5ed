-- ===== src/Bytecode.antt =====
-- EVM bytecode with its stack requirements: src/ethereum_test_vm/bytecode.py, class `Bytecode`.
-- The four stack counts are counts of items, so they are naturals. In `concat` every subtraction
-- is written behind the additions of its expression; on valid operands none of them stops at 0.
pub mod Valid
pub mod Machine
use execution_spec_tests_gno.Base.{
  ℕ, zero, suc, ◌+◌, ◌-◌, Bool, true, false, ◌&&◌, Option, none, some, List, [], ◌∷◌, ◌++◌, String,
  max, ◌==◌, leb, if◌then◌else◌, Result, ok, raise, assertion_error, value_error,
  not_implemented_error,
}
use execution_spec_tests_gno.Base.Bytes.{Bytes, bytes_eq}
use execution_spec_tests_gno.Base.Int.{ℤ, pos, negsuc}

pub record Bytecode : Type 0 where
  pub bytes : Bytes
  pub popped_stack_items : ℕ
  pub pushed_stack_items : ℕ
  pub max_stack_height : ℕ
  pub min_stack_height : ℕ
  pub terminating : Bool
  pub name : String

-- `Bytecode()`
abbrev pub empty : Bytecode
empty = record {
  bytes = [];
  popped_stack_items = 0;
  pushed_stack_items = 0;
  max_stack_height = 0;
  min_stack_height = 0;
  terminating = false;
  name = "";
}

abbrev or_default : Option ℕ → ℕ → ℕ
or_default none d = d
or_default (some n) d = n

-- `Bytecode(bytes, popped_stack_items=…, …)`; the two assertions want the counts to be given.
unfoldable pub from_bytes :
    Bytes → Option ℕ → Option ℕ → Option ℕ → Option ℕ → Bool → String → Result Bytecode
from_bytes b none _ max_height min_height ends label = raise assertion_error
from_bytes b (some popped) none max_height min_height ends label = raise assertion_error
from_bytes b (some popped) (some pushed) max_height min_height ends label = ok (record {
  bytes = b;
  popped_stack_items = popped;
  pushed_stack_items = pushed;
  max_stack_height = or_default max_height (max popped pushed);
  min_stack_height = or_default min_height popped;
  terminating = ends;
  name = label;
})

-- What `__add__` and `__eq__` may be given on the right.
pub data Operand : Type 0 where
  nothing : Operand
  int : ℤ → Operand
  raw : Bytes → Operand
  code : Bytecode → Operand

-- `c_pop` and `c_push` of `__add__`: the bottom of `c` is A's bottom when B pops no more than A
-- pushed.
abbrev bottom_is_a : Bytecode → Bytecode → Bool
bottom_is_a a b = leb b.popped_stack_items a.pushed_stack_items

abbrev concat_pop : Bytecode → Bytecode → ℕ
concat_pop a b =
    if bottom_is_a a b
    then a.popped_stack_items
    else a.popped_stack_items + b.popped_stack_items - a.pushed_stack_items

abbrev concat_push : Bytecode → Bytecode → ℕ
concat_push a b =
    if bottom_is_a a b
    then a.pushed_stack_items + b.pushed_stack_items - b.popped_stack_items
    else b.pushed_stack_items

abbrev concat_min : Bytecode → Bytecode → ℕ
concat_min a b =
    max a.min_stack_height (b.min_stack_height + a.popped_stack_items - a.pushed_stack_items)

abbrev concat_max : Bytecode → Bytecode → ℕ
concat_max a b = max (concat_min a b + a.max_stack_height - a.min_stack_height) (
    concat_min a b
    + a.pushed_stack_items
    + b.max_stack_height
    - a.popped_stack_items
    - b.min_stack_height)

-- `__add__` of two bytecodes.
unfoldable pub concat : Bytecode → Bytecode → Bytecode
concat a b = record {
  bytes = a.bytes ++ b.bytes;
  popped_stack_items = concat_pop a b;
  pushed_stack_items = concat_push a b;
  max_stack_height = concat_max a b;
  min_stack_height = concat_min a b;
  terminating = b.terminating;
  name = "";
}

abbrev is_zero : ℤ → Bool
is_zero (pos n) = n == 0
is_zero (negsuc n) = false

-- `__add__`
unfoldable pub add : Bytecode → Operand → Result Bytecode
add a nothing = ok a
add a (int n) = if is_zero n then ok a else raise assertion_error
add a (raw b) = ok (record a { bytes = a.bytes ++ b; name = "" })
add a (code b) = ok (concat a b)

-- `__radd__`: `other + self`.
unfoldable pub radd : Bytecode → Operand → Result Bytecode
radd a nothing = ok a
radd a (int n) = if is_zero n then ok a else raise assertion_error
radd a (raw b) = raise assertion_error
radd a (code b) = ok (concat b a)

-- The loop of `__mul__`: `output += self`, `n` times.
unfoldable pub repeat : ℕ → Bytecode → Bytecode → Bytecode
repeat zero a output = output
repeat (suc n) a output = repeat n a (concat output a)

-- `__mul__`
unfoldable pub mul : Bytecode → ℤ → Result Bytecode
unfolding repeat
mul a (negsuc n) = raise value_error
mul a (pos zero) = ok empty
mul a (pos (suc n)) = ok (repeat n a a)

-- Python's `sum(codes)`: it starts from the integer 0, which `__radd__` lets through. An empty sum
-- is that integer, and no bytecode.
unfoldable pub sum_from : Bytecode → List Bytecode → Bytecode
sum_from a [] = a
sum_from a (b ∷ bs) = sum_from (concat a b) bs

-- `__eq__`
unfoldable pub eq : Bytecode → Operand → Result Bool
eq a (code b) = ok (
    bytes_eq a.bytes b.bytes
    && (a.popped_stack_items == b.popped_stack_items
        && (a.pushed_stack_items == b.pushed_stack_items
            && (a.max_stack_height == b.max_stack_height
                && a.min_stack_height == b.min_stack_height))))
eq a (raw b) = ok (bytes_eq a.bytes b)
eq a (int n) = raise not_implemented_error
eq a nothing = raise not_implemented_error
