-- ===== src/Opcode/New.antt =====
-- `Opcode.__new__`, `__getitem__` and `int` (src/ethereum_test_vm/opcode.py).
use execution_spec_tests_gno.Base.{
  ℕ, ◌+◌, ◌-◌, max, Bool, true, false, ◌||◌, Option, none, some, List, [], ◌∷◌, ◌++◌, leb, ltb,
  if◌then◌else◌, Result, ok, raise, assertion_error, value_error, type_error, ◌>>=◌, ◌>>◌, require,
  length, map,
}
use execution_spec_tests_gno.Base.Bytes.{Bytes, from_be, to_bytes_auto, rjust}
use execution_spec_tests_gno.Opcode.Arg.{
  Arg, int, raw, ints, code, StackProperties, Opcode, Keywords,
}

abbrev or_default : Option ℕ → ℕ → ℕ
or_default none d = d
or_default (some n) d = n

-- `Opcode(opcode_bytes, …)`
unfoldable pub new_of_bytes : Bytes → Keywords → Opcode
new_of_bytes b k =
    let least = or_default k.min_stack_height k.popped_stack_items in
    record {
      bytecode = record {
        bytes = b;
        popped_stack_items = k.popped_stack_items;
        pushed_stack_items = k.pushed_stack_items;
        max_stack_height =
            or_default k.max_stack_height
              (max (least - k.popped_stack_items + k.pushed_stack_items) least);
        min_stack_height = least;
        terminating = k.terminating;
        name = "";
      };
      data_portion_length = k.data_portion_length;
      data_portion_formatter = k.data_portion_formatter;
      stack_properties_modifier = k.stack_properties_modifier;
      unchecked_stack = k.unchecked_stack;
      kwargs = k.kwargs;
      kwargs_defaults = k.kwargs_defaults;
    }

-- `Opcode(0x01, …)`, of a number below 256.
unfoldable pub new : ℕ → Keywords → Opcode
unfolding new_of_bytes
new b k = new_of_bytes (b ∷ []) k

-- `int()`
unfoldable pub int_of : Opcode → ℕ
unfolding from_be
int_of o = from_be 0 o.bytecode.bytes

-- `has_data_portion`
unfoldable pub has_data_portion : Opcode → Bool
has_data_portion o =
    ltb 0 o.data_portion_length || (elim o.data_portion_formatter [ none ↦ false | some f ↦ true ])

-- A list as the one argument is spread over the formatter's arguments.
unfoldable pub format_data : (List Arg → Result Bytes) → List Arg → Result Bytes
format_data f (ints ns ∷ []) = f (map int ns)
format_data f args = f args

-- The data portion of an opcode with a fixed length.
unfoldable pub fixed_data : ℕ → Arg → Result Bytes
unfolding rjust to_bytes_auto
fixed_data k (raw b) = do require (leb (length b) k) assertion_error; ok (rjust k b)
fixed_data k (int n) = to_bytes_auto k n
fixed_data k (code b) = do require (leb (length b.bytes) k) assertion_error; ok (rjust k b.bytes)
fixed_data k (ints ns) = raise type_error

abbrev only_arg : List Arg → Result Arg
only_arg (a ∷ []) = ok a
only_arg _ = raise assertion_error

unfoldable pub data_portion : Opcode → List Arg → Result Bytes
unfolding format_data fixed_data
data_portion o args = elim o.data_portion_formatter [
  | some f ↦ format_data f args
  | none ↦
      if ltb 0 o.data_portion_length
      then (do a ← only_arg args; fixed_data o.data_portion_length a)
      else raise value_error
]

-- The stack counts after the data portion is set.
unfoldable pub stack_properties : Opcode → Bytes → StackProperties
stack_properties o portion = elim o.stack_properties_modifier [
  | some f ↦ f portion
  | none ↦ record {
    popped = o.bytecode.popped_stack_items;
    pushed = o.bytecode.pushed_stack_items;
    least = o.bytecode.min_stack_height;
    most = o.bytecode.max_stack_height;
  }
]

-- The opcode that `__getitem__` builds. Its name, for messages only, is left empty.
unfoldable pub with_data : Opcode → Bytes → Opcode
unfolding new_of_bytes stack_properties
with_data o portion =
    let p = stack_properties o portion in
    new_of_bytes (o.bytecode.bytes ++ portion) (record {
      popped_stack_items = p.popped;
      pushed_stack_items = p.pushed;
      max_stack_height = some p.most;
      min_stack_height = some p.least;
      data_portion_length = 0;
      data_portion_formatter = none;
      stack_properties_modifier = none;
      unchecked_stack = o.unchecked_stack;
      terminating = o.bytecode.terminating;
      kwargs = o.kwargs;
      kwargs_defaults = o.kwargs_defaults;
    })

-- `__getitem__`
unfoldable pub get_item : Opcode → List Arg → Result Opcode
unfolding has_data_portion data_portion with_data
get_item o args = do
  require (has_data_portion o) value_error
  portion ← data_portion o args
  ok (with_data o portion)
