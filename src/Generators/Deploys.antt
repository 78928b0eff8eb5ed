-- ===== src/Generators/Deploys.antt =====
-- What the code of `Initcode` deploys (src/ethereum_test_tools/code/generators.py).
use execution_spec_tests_gno.Base.{
  ℕ, zero, suc, ◌+◌, ◌-◌, ◌*◌, ◌^◌, ◌≤◌, ◌<◌, ◌≡◌, refl, sym, ◌∙◌, ap, ap₂, false, Option, none,
  some, [], ◌∷◌, ◌++◌, String, arith, ok, lt→ltb, le→leb, length, length-append, length-replicate,
  replicate,
}
use mathlib.Core.List.{append_assoc}
use execution_spec_tests_gno.Base.Int.{pos}
use execution_spec_tests_gno.Base.Bytes.{Bytes, to_be, to_bytes_auto}
use execution_spec_tests_gno.Bytecode.{Bytecode, concat, empty}
use execution_spec_tests_gno.Opcode.New.{new, get_item, with_data}
use execution_spec_tests_gno.Opcode.Arg.{Opcode, int}
use execution_spec_tests_gno.Opcode.Call.{call}
use execution_spec_tests_gno.Opcode.Table.Environment.{codecopy}
use execution_spec_tests_gno.Opcode.Table.Pushes.{push1, push2}
use execution_spec_tests_gno.Opcode.Table.Stack.{dup2, dup3}
use execution_spec_tests_gno.Opcode.Table.Calls.{return}
use execution_spec_tests_gno.Trie.{take, drop}
use execution_spec_tests_gno.Generators.{
  initcode_head, initcode, Initcode, padding_of, repeat_byte, len, run_op, initcode_gas,
  gas_per_deployed_code_byte,
}
use execution_spec_tests_gno.Trie.Prefixes.{drop-append}

-- The code behind the prefix: the length n of the deployed code, its place in memory, and where it
-- starts, in the order in which CODECOPY and RETURN take them.
abbrev pub head_code : ℕ → ℕ → Bytes
head_code n start =
    (0x61 ∷ to_be 2 n)
    ++ (0x60 ∷ 0 ∷ 0x81 ∷ [])
    ++ (0x60 ∷ to_be 1 start)
    ++ (0x82 ∷ 0x39 ∷ 0xf3 ∷ [])

abbrev pushed : Opcode → ℕ → ℕ → Bytecode
unfolding with_data
pushed o k n = concat empty (with_data o (to_be k n)).bytecode

push2_lem : (n : ℕ) → n < 2 ^ 16 → run_op push2 (int (pos n) ∷ []) ≡ ok (pushed push2 2 n)
unfolding call get_item new to_bytes_auto
push2_lem n h = rw (lt→ltb n (256 ^ 2) (omega arith)) refl

push1_lem : (n : ℕ) → n < 256 → run_op push1 (int (pos n) ∷ []) ≡ ok (pushed push1 1 n)
unfolding call get_item new to_bytes_auto
push1_lem n h = rw (lt→ltb n (256 ^ 1) (omega arith)) refl

abbrev head_of : Bytecode → ℕ → Bytecode
head_of prefix n =
    let sized =
      concat (concat (concat prefix (pushed push2 2 n)) (pushed push1 1 0)) dup2.bytecode in
    concat
      (concat (concat (concat sized (pushed push1 1 (0x0b + len prefix))) dup3.bytecode)
        codecopy.bytecode)
      return.bytecode

initcode_head_lem :
    (prefix : Bytecode) (n : ℕ)
    → n < 2 ^ 16
    → 0x0b + len prefix ≤ 0xff
    → initcode_head prefix n ≡ ok (head_of prefix n)
unfolding initcode_head
initcode_head_lem prefix n small short =
    rw
      (
        push2_lem n small,
        push1_lem 0 (omega arith),
        le→leb (0x0b + len prefix) 0xff short,
        push1_lem (0x0b + len prefix) (omega arith),
      )
      refl

bytes-head_of :
    (prefix : Bytecode) (n : ℕ)
    → (head_of prefix n).bytes ≡ prefix.bytes ++ head_code n (0x0b + len prefix)
unfolding concat new with_data to_be
bytes-head_of prefix n = simp append_assoc refl

take-append : (a b : Bytes) → take (length a) (a ++ b) ≡ a
take-append [] b = refl
take-append (x ∷ a) b = ap (λ l. x ∷ l) (take-append a b)

-- The length that is asked for, or the length that the code has.
abbrev pub room : Option ℕ → ℕ → ℕ
room none size = size
room (some initcode_length) size = initcode_length

repeat_byte-replicate :
    (n padding_byte : ℕ)
    → padding_byte < 256
    → repeat_byte n (pos padding_byte) ≡ ok (replicate n padding_byte)
repeat_byte-replicate zero padding_byte byte = refl
repeat_byte-replicate (suc n) padding_byte byte = rw (lt→ltb padding_byte 256 byte) refl

padding_lem :
    (initcode_length : Option ℕ) (padding_byte size : ℕ)
    → padding_byte < 256
    → size ≤ room initcode_length size
    → padding_of initcode_length (pos padding_byte) size
      ≡ ok (replicate (room initcode_length size - size) padding_byte)
padding_lem none padding_byte size byte h =
    let nothing : size - size ≡ 0 = omega arith in rw nothing refl
padding_lem (some n) padding_byte size byte h =
    rw (le→leb size n h) (repeat_byte-replicate (n - size) padding_byte byte)

length-head_code : (n start : ℕ) → length (head_code n start) ≡ 0x0b
unfolding to_be
length-head_code n start = refl

-- `Initcode` returns code for a prefix of at most 244 bytes, code to deploy of less than 2 ** 16 bytes and
-- a padding byte below 256, with a length that is enough if one is asked for. The code is the prefix, and
-- then the instructions that copy the code from its place and return it; at that place it has the code to
-- deploy, with the length that is given there, and behind that the padding byte up to the end. It has the
-- length that is asked for, and 200 gas for each byte deployed.
pub initcode-deploys :
    (deployed : Bytes) (initcode_length : Option ℕ) (prefix : Bytecode)
    (prefix_execution_gas padding_byte : ℕ) (label : String)
    → length deployed < 2 ^ 16
    → 0x0b + len prefix ≤ 0xff
    → padding_byte < 256
    → 0x0b + len prefix + length deployed
      ≤ room initcode_length (0x0b + len prefix + length deployed)
    → (i : Initcode) × (initcode
          (some deployed)
          initcode_length
          (some prefix)
          prefix_execution_gas
          (pos padding_byte)
          label
        ≡ ok i)
      × (take (0x0b + len prefix) i.bytecode.bytes
          ≡ prefix.bytes ++ head_code (length deployed) (0x0b + len prefix))
      × (take (length deployed) (drop (0x0b + len prefix) i.bytecode.bytes) ≡ deployed)
      × (drop (0x0b + len prefix + length deployed) i.bytecode.bytes
          ≡ replicate
              (room initcode_length (0x0b + len prefix + length deployed)
                - (0x0b + len prefix + length deployed))
              padding_byte)
      × (len i.bytecode ≡ room initcode_length (0x0b + len prefix + length deployed))
      × (i.deployment_gas ≡ 200 * length deployed)
unfolding initcode
initcode-deploys deployed initcode_length prefix prefix_execution_gas padding_byte label small short
      byte enough =
    let head = head_of prefix (length deployed) in
    let start = 0x0b + len prefix in
    let spelled = bytes-head_of prefix (length deployed) in
    let long : length head.bytes ≡ start =
      ap length spelled
      ∙ length-append prefix.bytes (head_code (length deployed) start)
      ∙ omega (arith, length-head_code (length deployed) start) in
    let size : length (head.bytes ++ deployed) ≡ start + length deployed =
      length-append head.bytes deployed ∙ omega arith in
    let full = start + length deployed in
    let padding = replicate (room initcode_length full - full) padding_byte in
    let e = padding_lem initcode_length padding_byte full byte enough in
    let whole = (head.bytes ++ deployed) ++ padding in
    let split = append_assoc head.bytes deployed padding in
    (
      record {
        bytecode = record head { bytes = whole; terminating = false; name = label };
        deploy_code = deployed;
        execution_gas = initcode_gas (length deployed);
        deployment_gas = gas_per_deployed_code_byte * length deployed;
      },
      rw (initcode_head_lem prefix (length deployed) small short, size, e) refl,
      ap₂ take (sym long) split ∙ take-append head.bytes (deployed ++ padding) ∙ spelled,
      ap (take (length deployed))
            (ap₂ drop (sym long) split ∙ drop-append head.bytes (deployed ++ padding))
          ∙ take-append deployed padding,
      ap (λ n. drop n whole) (sym size) ∙ drop-append (head.bytes ++ deployed) padding,
      length-append (head.bytes ++ deployed) padding
          ∙ omega (arith, length-replicate {A = ℕ} (room initcode_length full - full) padding_byte),
      refl,
    )
