-- ===== src/Generators/Layers.antt =====
-- Code around other code: a condition with its jump before, and an action behind (src/ethereum_test_tools/code/generators.py).
use execution_spec_tests_gno.Base.{ℕ, ◌+◌, ◌≡◌, refl, [], ◌∷◌, ◌++◌, arith, length, length-append}
use execution_spec_tests_gno.Base.Bytes.{Bytes}
use execution_spec_tests_gno.Generators.{Case}
use execution_spec_tests_gno.Generators.Machine.{At, At-left, At-right, At-same}

-- The code around what a layer encloses: the condition and its jump before, and the action with its
-- jump behind.
abbrev pub layer : Case → Bytes → Bytes → Bytes → Bytes
layer c to_action inner leave =
    ((c.condition.bytes ++ to_action) ++ inner) ++ (((0x5b ∷ []) ++ c.action.bytes) ++ leave)

pub length-layer :
    (c : Case) (to_action inner leave : Bytes)
    → length (layer c to_action inner leave)
      ≡ length c.condition.bytes
        + length to_action
        + length inner
        + 1
        + length c.action.bytes
        + length leave
length-layer c to_action inner leave =
    let a =
      length-append ((c.condition.bytes ++ to_action) ++ inner)
        (((0x5b ∷ []) ++ c.action.bytes) ++ leave) in
    let b = length-append (c.condition.bytes ++ to_action) inner in
    let d = length-append c.condition.bytes to_action in
    let e = length-append ((0x5b ∷ []) ++ c.action.bytes) leave in omega arith

-- Where the action of a layer starts.
abbrev pub action_start : ℕ → Case → Bytes → Bytes → ℕ
action_start p c to_action inner = p + length c.condition.bytes + length to_action + length inner

-- The positions of the parts of a layer at p.
pub record LayerAt (program : Bytes) (p : ℕ) (c : Case) (to_action inner leave : Bytes)
    : Type 0 where
  pub condition : At program p c.condition.bytes
  pub test : At program (p + length c.condition.bytes) to_action
  pub inside : At program (p + length c.condition.bytes + length to_action) inner
  pub dest : At program (action_start p c to_action inner) (0x5b ∷ [])
  pub action : At program (action_start p c to_action inner + 1) c.action.bytes
  pub exit : At program (action_start p c to_action inner + 1 + length c.action.bytes) leave

pub layer_at :
    (program : Bytes) (p : ℕ) (c : Case) (to_action inner leave : Bytes)
    → At program p (layer c to_action inner leave)
    → LayerAt program p c to_action inner leave
layer_at program p c to_action inner leave h =
    let C = c.condition.bytes in
    let A = c.action.bytes in
    let head = At-left program p ((C ++ to_action) ++ inner) (((0x5b ∷ []) ++ A) ++ leave) h in
    let tail = At-right program p ((C ++ to_action) ++ inner) (((0x5b ∷ []) ++ A) ++ leave) h in
    let tests = At-left program p (C ++ to_action) inner head in
    let long = length-append C to_action in
    let longer = length-append (C ++ to_action) inner in
    let behind : At program (action_start p c to_action inner) (((0x5b ∷ []) ++ A) ++ leave) =
      At-same program (omega arith) refl tail in
    let acts = At-left program _ ((0x5b ∷ []) ++ A) leave behind in
    record {
      condition = At-left program p C to_action tests;
      test = At-right program p C to_action tests;
      inside = At-same program (omega arith) refl (At-right program p (C ++ to_action) inner head);
      dest = At-left program _ (0x5b ∷ []) A acts;
      action = At-right program _ (0x5b ∷ []) A acts;
      exit =
          At-same program (omega arith) refl (At-right program _ ((0x5b ∷ []) ++ A) leave behind);
    }
