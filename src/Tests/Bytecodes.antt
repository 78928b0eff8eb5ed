-- ===== src/Tests/Bytecodes.antt =====
-- Bytecode at concrete inputs (src/ethereum_test_vm/bytecode.py).
use execution_spec_tests_gno.Base.{
  ◌+◌, ◌-◌, ◌*◌, ◌≡◌, refl, none, some, false, [], ◌∷◌, replicate, length, ltb, if◌then◌else◌, ok,
  arith,
}
use execution_spec_tests_gno.Base.Int.{pos}
use execution_spec_tests_gno.Bytecode.{Bytecode, concat, mul, sum_from}
use execution_spec_tests_gno.Bytecode.Valid.{IsValid, concat_assoc}
use execution_spec_tests_gno.Bytecode.Machine.{start, exec, run, run-sum_from, mul-run}

-- `PUSH1[1]`, `DUP2` and `POP`
abbrev push_one : Bytecode
push_one = record {
  bytes = 0x60 ∷ 1 ∷ [];
  popped_stack_items = 0;
  pushed_stack_items = 1;
  max_stack_height = 1;
  min_stack_height = 0;
  terminating = false;
  name = "";
}

abbrev dup_two : Bytecode
dup_two = record {
  bytes = 0x81 ∷ [];
  popped_stack_items = 0;
  pushed_stack_items = 1;
  max_stack_height = 3;
  min_stack_height = 2;
  terminating = false;
  name = "";
}

abbrev pop_one : Bytecode
pop_one = record {
  bytes = 0x50 ∷ [];
  popped_stack_items = 1;
  pushed_stack_items = 0;
  max_stack_height = 1;
  min_stack_height = 1;
  terminating = false;
  name = "";
}

push_one-IsValid : IsValid push_one
push_one-IsValid = omega arith

dup_two-IsValid : IsValid dup_two
dup_two-IsValid = omega arith

pop_one-IsValid : IsValid pop_one
pop_one-IsValid = omega arith

-- On one item the push, the duplicate and the pop run, and the stack is three high at most.
run-test :
    run (push_one ∷ dup_two ∷ pop_one ∷ []) (start 1) ≡ some (record { height = 2; peak = 3 })
unfolding run exec
run-test = refl

sum_from-test : (sum_from push_one (dup_two ∷ pop_one ∷ [])).min_stack_height ≡ 1
unfolding sum_from concat
sum_from-test = refl

run-sum_from_example : run (push_one ∷ dup_two ∷ pop_one ∷ []) (start 1) ≡ (
    if ltb 1 (sum_from push_one (dup_two ∷ pop_one ∷ [])).min_stack_height
    then none
    else some (record {
      height =
          1
          - (sum_from push_one (dup_two ∷ pop_one ∷ [])).popped_stack_items
          + (sum_from push_one (dup_two ∷ pop_one ∷ [])).pushed_stack_items;
      peak =
          1
          + (sum_from push_one (dup_two ∷ pop_one ∷ [])).max_stack_height
          - (sum_from push_one (dup_two ∷ pop_one ∷ [])).min_stack_height;
    }))
run-sum_from_example =
    run-sum_from push_one (dup_two ∷ pop_one ∷ []) 1 push_one-IsValid
      (dup_two-IsValid, (pop_one-IsValid, tt))

concat_assoc_example :
    concat (concat push_one dup_two) pop_one ≡ concat push_one (concat dup_two pop_one)
concat_assoc_example =
    concat_assoc push_one dup_two pop_one push_one-IsValid dup_two-IsValid pop_one-IsValid

mul-run_example :
    (c : Bytecode) × (mul dup_two (pos 3) ≡ ok c)
    × IsValid c
    × (exec c (start 2) ≡ run (replicate 3 dup_two) (start 2))
    × (length c.bytes ≡ 3 * length dup_two.bytes)
mul-run_example = mul-run dup_two 2 (start 2) dup_two-IsValid
