-- ===== src/Lib.antt =====
-- The logic of execution-spec-tests that does not touch files, processes or the network: how test code
-- is written as EVM bytecode, how expected storage and accounts are compared, and what the forks
-- prescribe. Paths are from the root of the repository.
--
-- The parts.
--
-- Base: Boolean tests on the native numbers, lists, Python's integers, `bytes` and `dict`, and the
-- exceptions, which are values of `Result`.
--
-- Bytecode (src/ethereum_test_vm/bytecode.py): the class `Bytecode`. `concat` is `__add__` of two
-- bytecodes, `add` is `__add__` of any operand, `radd` is `__radd__`, `mul` is `__mul__`, and `sum_from`
-- is `sum` of a list that is not empty. Valid has the invariant of the stack counts, and Machine runs
-- bytecodes on a stack of which only the height is kept.
--
-- Opcode (src/ethereum_test_vm/opcode.py): Size is `_get_int_size`, New the construction of an opcode
-- and its data portion (`__new__`, `__getitem__`), Encoders the immediates of RJUMPV and EXCHANGE (its
-- JumpTable and Accepted are about jump tables, and Exchange about the other), Table the enums
-- `Opcodes` and `UndefinedOpcodes`, Push is `_stack_argument_to_bytecode`, and Call is
-- `Opcode.__call__` and `Macro.__call__`. An opcode is a `Bytecode` with more fields, so calls use the
-- sum of Bytecode.
--
-- Storage and Account (src/ethereum_test_base_types/composite_types.py): the classes of these names. The
-- loops over sets of keys take the keys in a list, and the theorems hold for every list that has the
-- right keys. Account compares storages with `must_be_equal` of Storage.
--
-- Fork (src/ethereum_test_forks): Methods is the abstract interface of base_fork.py, GasCosts is
-- gas_costs.py, Gas and Blob are the calculators of forks/forks.py with the helpers of forks/helpers.py,
-- Classes is the fork classes of forks/forks.py with their parents, Calculators resolves the calculators
-- along the order of the bases, Transition is transition_base_fork.py, forks/transition.py and the
-- comparisons of base_fork.py, Ranges is helpers.py, and PreAllocation is `pre_allocation_blockchain`.
-- No method of a fork reads its block number and timestamp, so a method of a fork is its value; a
-- transition fork chooses between two of them. The opcodes of a fork are those of Opcode.Table.
--
-- Eof (src/ethereum_test_types/eof/v1/__init__.py): Stack is `compute_code_stack_values`, which
-- computes the inputs, outputs and the largest height of a code section from the counts of
-- Opcode.Table, the last two counted from the height at the start. Section is `Section` with its
-- header and its type entry, and Container is `Container` with its bytes. Entries is about the type
-- section and Headers about the joined headers of code and container sections.
--
-- Trie (src/ethereum_test_types/trie.py): the Merkle trie. `patricialize` and what it calls are in Trie
-- itself, and the tries of values with their roots in Trie.Root. Nibbles is about the encoding of keys,
-- Radix describes the tree that a set of keys has, Prefixes and Branches are about the two loops of
-- `patricialize`, Patricialize and Root.Commits are about the tree behind a root, and Order and Root.Order
-- about the order of the entries. A `dict` of Python is a list of its items in their order, without a
-- key twice.
--
-- State and Alloc (src/ethereum_test_types/account_types.py): State is the class of that name with its
-- main trie and its storage tries, and Alloc is the allocation of a test before and after its run, with
-- `merge`, `verify_post_alloc` and `state_root`, which builds a State. Alloc uses the accounts and storages of
-- Account and Storage.
--
-- Generators (src/ethereum_test_tools/code/generators.py): Initcode, CodeGasMeasure, Conditional, While,
-- Case, CalldataCase and Switch, as functions to the bytecode that the class is built with. They call the
-- opcodes of Opcode.Table by Opcode.Call. Jumps is the code of a relative jump, and Machine is an EVM with the
-- instructions that the generators add, on which Branches, Switches and Loops run Conditional, Switch and
-- While of legacy code, and Deploys is about Initcode. The code for EOF is modelled and has tests.
--
-- Conversions (src/ethereum_test_base_types/conversions.py, src/ethereum_test_base_types/base_types.py): the
-- conversions between bytes, numbers and text, and the numbers and bytes of a fixed size. Base.Text has what they
-- use of Python's `str`, `int` and `bytes.fromhex`.
--
-- Tests: the theorems at concrete inputs.
--
-- Bounds and fuel. `_get_int_size` takes the number itself as fuel, since each round divides it by 256.
-- `fake_exponential` takes `taylor_fuel`, after which its accumulator is zero. The bases of a fork take
-- 20 rounds, as many as there are classes, and `forks_from_until` takes 21. The loop over the bytes of a code
-- section takes a round more than there are bytes. `patricialize` takes one call more than the longest key
-- has nibbles, since each call goes at least a nibble down. The digits of a number take the number as
-- fuel. Integers of Python are unbounded; where it converts them to bytes the width is written out.
--
-- What is not modelled. Validation by pydantic, and the conversion of texts outside of Conversions; the
-- hash functions and the RLP encoder, which are other packages and parameters here, as are the contract
-- files; signing and the transition tool, which are other packages; the fixtures, plugins and command-line
-- tools, which are glue; the named kinds of EOF containers and the copies of sections with a changed
-- field; keys of externally owned accounts, and transactions. BLOB_CONSTANTS and the names of forks for
-- external tools are left out of the fork classes. The macros of opcode.py with an operation of their own
-- are left out.
pub mod Base
pub mod Bytecode
pub mod Opcode
pub mod Storage
pub mod Account
pub mod Fork
pub mod Eof
pub mod Trie
pub mod State
pub mod Alloc
pub mod Generators
pub mod Conversions
pub mod Tests
