-- ===== src/Opcode/Call.antt =====
-- `Opcode.__call__` and `Macro.__call__` (src/ethereum_test_vm/opcode.py).
pub mod Constants
use execution_spec_tests_gno.Base.{
  ℕ, suc, Bool, true, false, not, ◌&&◌, ◌||◌, Option, none, some, List, [], ◌∷◌, String, ◌==◌,
  every, any, if◌then◌else◌, Result, ok, raise, assertion_error, value_error, ◌>>=◌, ◌>>◌, require,
  length, map, pop_last, reverse,
}
use execution_spec_tests_gno.Base.Int.{ℤ, pos}
use execution_spec_tests_gno.Bytecode.{Bytecode, empty, concat}
use execution_spec_tests_gno.Opcode.Arg.{Arg, int, code, Opcode}
use execution_spec_tests_gno.Opcode.New.{has_data_portion, get_item}
use execution_spec_tests_gno.Opcode.Push.{stack_argument_to_bytecode}
use text.Mathlib.Text.{◌==◌ as str_eq}

-- `while len(args) > 0: pre_opcode_bytecode += …(args.pop())`, over the arguments from the last.
unfoldable pub build : Bytecode → List Arg → Result Bytecode
build pre [] = ok pre
build pre (a ∷ args) = do b ← stack_argument_to_bytecode a; build (concat pre b) args

abbrev lookup : String → List (String × Arg) → Option Arg
lookup k [] = none
lookup k ((j, v) ∷ m) = if str_eq j k then some v else lookup k m

abbrev or_default : Option Arg → Arg → Arg
or_default none d = d
or_default (some a) d = a

abbrev is_kwarg : Opcode → String × Arg → Bool
is_kwarg o (k, _) = any (λ j. str_eq j k) o.kwargs

-- `kwargs[kw] if kw in kwargs else self.kwargs_defaults.get(kw, 0)`
abbrev kwarg_value : Opcode → List (String × Arg) → String → Arg
kwarg_value o kw k =
    or_default (lookup k kw) (or_default (lookup k o.kwargs_defaults) (int (pos 0)))

-- The arguments of the stack: the positional ones, or those that the keywords give.
unfoldable pub positional : Opcode → List Arg → List (String × Arg) → Result (List Arg)
positional o args [] = ok args
positional o args (k ∷ kw) = do
  require (length args == 0) assertion_error
  require (every (is_kwarg o) (k ∷ kw)) value_error
  ok (map (kwarg_value o (k ∷ kw)) o.kwargs)

-- The call of an opcode without a data portion.
unfoldable pub call_plain : Opcode → List Arg → Bool → List (String × Arg) → Result Bytecode
unfolding positional build
call_plain o args unchecked kw = do
  given ← positional o args kw
  require (length given == o.bytecode.popped_stack_items || (unchecked || o.unchecked_stack))
      value_error
  pre ← build empty (reverse given)
  ok (concat pre o.bytecode)

abbrev not_code : Arg → Bool
not_code (code b) = false
not_code _ = true

-- The last argument is the data portion; the call of the opcode with its data passes neither
-- `unchecked` nor the keywords on.
unfoldable pub call_with_data : Opcode → Option (List Arg × Arg) → Result Bytecode
unfolding get_item call_plain
call_with_data o none = raise value_error
call_with_data o (some (args, last)) = do
  require (not_code last) assertion_error
  with_portion ← get_item o (last ∷ [])
  call_plain with_portion args false []

-- `__call__`
unfoldable pub call : Opcode → List Arg → Bool → List (String × Arg) → Result Bytecode
unfolding has_data_portion call_with_data call_plain
call o args unchecked kw =
    if has_data_portion o then call_with_data o (pop_last args) else call_plain o args unchecked kw

-- `Macro.__call__` of a macro with no operation: the arguments are pushed in their own order.
unfoldable pub call_macro : Bytecode → List Arg → Result Bytecode
unfolding build
call_macro m args = do pre ← build empty args; ok (concat pre m)
