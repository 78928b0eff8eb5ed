-- ===== src/Opcode/Table/Environment.antt =====
-- The opcodes of the enum `Opcodes`: hashing, the environment and the block (src/ethereum_test_vm/opcode.py).
use execution_spec_tests_gno.Base.{List, [], ◌∷◌}
use execution_spec_tests_gno.Opcode.Arg.{Opcode, defaults}
use execution_spec_tests_gno.Opcode.New.{new}

abbrev pub sha3 : Opcode
sha3 = new 0x20 (record defaults {
  popped_stack_items = 2;
  pushed_stack_items = 1;
  kwargs = "offset" ∷ "size" ∷ [];
})

abbrev pub address : Opcode
address = new 0x30 (record defaults { pushed_stack_items = 1 })

abbrev pub balance : Opcode
balance =
    new 0x31
      (record defaults { popped_stack_items = 1; pushed_stack_items = 1; kwargs = "address" ∷ [] })

abbrev pub origin : Opcode
origin = new 0x32 (record defaults { pushed_stack_items = 1 })

abbrev pub caller : Opcode
caller = new 0x33 (record defaults { pushed_stack_items = 1 })

abbrev pub callvalue : Opcode
callvalue = new 0x34 (record defaults { pushed_stack_items = 1 })

abbrev pub calldataload : Opcode
calldataload =
    new 0x35
      (record defaults { popped_stack_items = 1; pushed_stack_items = 1; kwargs = "offset" ∷ [] })

abbrev pub calldatasize : Opcode
calldatasize = new 0x36 (record defaults { pushed_stack_items = 1 })

abbrev pub calldatacopy : Opcode
calldatacopy =
    new 0x37
      (record defaults { popped_stack_items = 3; kwargs = "dest_offset" ∷ "offset" ∷ "size" ∷ [] })

abbrev pub codesize : Opcode
codesize = new 0x38 (record defaults { pushed_stack_items = 1 })

abbrev pub codecopy : Opcode
codecopy =
    new 0x39
      (record defaults { popped_stack_items = 3; kwargs = "dest_offset" ∷ "offset" ∷ "size" ∷ [] })

abbrev pub gasprice : Opcode
gasprice = new 0x3a (record defaults { pushed_stack_items = 1 })

abbrev pub extcodesize : Opcode
extcodesize =
    new 0x3b
      (record defaults { popped_stack_items = 1; pushed_stack_items = 1; kwargs = "address" ∷ [] })

abbrev pub extcodecopy : Opcode
extcodecopy = new 0x3c (record defaults {
  popped_stack_items = 4;
  kwargs = "address" ∷ "dest_offset" ∷ "offset" ∷ "size" ∷ [];
})

abbrev pub returndatasize : Opcode
returndatasize = new 0x3d (record defaults { pushed_stack_items = 1 })

abbrev pub returndatacopy : Opcode
returndatacopy =
    new 0x3e
      (record defaults { popped_stack_items = 3; kwargs = "dest_offset" ∷ "offset" ∷ "size" ∷ [] })

abbrev pub extcodehash : Opcode
extcodehash =
    new 0x3f
      (record defaults { popped_stack_items = 1; pushed_stack_items = 1; kwargs = "address" ∷ [] })

abbrev pub blockhash : Opcode
blockhash = new 0x40 (record defaults {
  popped_stack_items = 1;
  pushed_stack_items = 1;
  kwargs = "block_number" ∷ [];
})

abbrev pub coinbase : Opcode
coinbase = new 0x41 (record defaults { pushed_stack_items = 1 })

abbrev pub timestamp : Opcode
timestamp = new 0x42 (record defaults { pushed_stack_items = 1 })

abbrev pub number : Opcode
number = new 0x43 (record defaults { pushed_stack_items = 1 })

abbrev pub prevrandao : Opcode
prevrandao = new 0x44 (record defaults { pushed_stack_items = 1 })

abbrev pub gaslimit : Opcode
gaslimit = new 0x45 (record defaults { pushed_stack_items = 1 })

abbrev pub chainid : Opcode
chainid = new 0x46 (record defaults { pushed_stack_items = 1 })

abbrev pub selfbalance : Opcode
selfbalance = new 0x47 (record defaults { pushed_stack_items = 1 })

abbrev pub basefee : Opcode
basefee = new 0x48 (record defaults { pushed_stack_items = 1 })

abbrev pub blobhash : Opcode
blobhash =
    new 0x49
      (record defaults { popped_stack_items = 1; pushed_stack_items = 1; kwargs = "index" ∷ [] })

abbrev pub blobbasefee : Opcode
blobbasefee = new 0x4a (record defaults { popped_stack_items = 0; pushed_stack_items = 1 })

-- In the order of the source.
abbrev pub environment_opcodes : List Opcode
environment_opcodes =
    sha3 ∷ address ∷ balance ∷ origin ∷ caller ∷ callvalue ∷ calldataload ∷ calldatasize
    ∷ calldatacopy ∷ codesize ∷ codecopy ∷ gasprice ∷ extcodesize ∷ extcodecopy ∷ returndatasize
    ∷ returndatacopy ∷ extcodehash ∷ blockhash ∷ coinbase ∷ timestamp ∷ number ∷ prevrandao
    ∷ gaslimit ∷ chainid ∷ selfbalance ∷ basefee ∷ blobhash ∷ blobbasefee ∷ []
