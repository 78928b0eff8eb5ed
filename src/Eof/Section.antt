-- ===== src/Eof/Section.antt =====
-- Sections of EOF containers (src/ethereum_test_types/eof/v1/__init__.py,
-- src/ethereum_test_types/eof/v1/constants.py). The kind of a section is a number, of which 1, 2, 3 and
-- 255 are members of `SectionKind`.
-- A kind and a custom size below 0, which `to_bytes` refuses, are not in the model.
use execution_spec_tests_gno.Base.{
  ℕ, Bool, false, not, ◌||◌, Option, none, some, List, [], ◌∷◌, ◌++◌, ◌==◌, if◌then◌else◌, length,
  filter, Result, ok, raise, assertion_error, exception, ◌>>=◌, ◌>>◌, require,
}
use execution_spec_tests_gno.Base.Bytes.{Bytes, to_bytes_unsigned}
use execution_spec_tests_gno.Base.Int.{ℤ, pos, ◌-ℤ◌, leb_ℤ}
use execution_spec_tests_gno.Bytecode.{Bytecode}
use execution_spec_tests_gno.Eof.Stack.{compute_code_stack_values}

-- `SectionKind.TYPE`
abbrev pub type_kind : ℕ
type_kind = 1

-- `SectionKind.CODE`
abbrev pub code_kind : ℕ
code_kind = 2

-- `SectionKind.CONTAINER`
abbrev pub container_kind : ℕ
container_kind = 3

-- `SectionKind.DATA`
abbrev pub data_kind : ℕ
data_kind = 0xff

-- `custom_size` is there where it is among the fields that were set.
pub record Section : Type 0 where
  pub contents : Bytes
  pub custom_size : Option ℕ
  pub kind : ℕ
  pub force_type_listing : Bool
  pub code_inputs : ℤ
  pub code_outputs : ℤ
  pub max_stack_increase : Option ℤ
  pub max_stack_height : Option ℤ
  pub auto_max_stack_height : Bool
  pub auto_code_inputs_outputs : Bool
  pub skip_header_listing : Bool
  pub skip_body_listing : Bool
  pub skip_types_body_listing : Bool
  pub skip_types_header_listing : Bool

-- `Section(kind=…, data=…)`
abbrev pub section_of : ℕ → Bytes → Section
section_of k b = record {
  contents = b;
  custom_size = none;
  kind = k;
  force_type_listing = false;
  code_inputs = pos 0;
  code_outputs = pos 0x80;
  max_stack_increase = none;
  max_stack_height = none;
  auto_max_stack_height = false;
  auto_code_inputs_outputs = false;
  skip_header_listing = false;
  skip_body_listing = false;
  skip_types_body_listing = false;
  skip_types_header_listing = false;
}

-- The size in the header.
abbrev pub header_size : Section → ℕ
header_size s = elim s.custom_size [ none ↦ length s.contents | some n ↦ n ]

-- `header`
unfoldable pub header : Section → Result Bytes
unfolding to_bytes_unsigned
header s = if s.kind == code_kind then raise exception else (do
  kind_byte ← to_bytes_unsigned 1 (pos s.kind)
  size ← to_bytes_unsigned 2 (pos (header_size s))
  ok (kind_byte ++ size))

-- The increase of the type entry, where it or the height is given.
abbrev pub increase_of : Section → ℤ → Option ℤ → Result ℤ
increase_of s inputs (some increase) = elim s.max_stack_height [
  | none ↦ ok increase
  | some height ↦ raise assertion_error
]
increase_of s inputs none = elim s.max_stack_height [
  | none ↦ ok (pos 0)
  | some height ↦ ok (height -ℤ inputs)
]

-- `compute_code_stack_values` of the contents, which returns for all contents (Eof/Stack/Returns.antt).
abbrev pub auto_values : Section → ℕ × ℕ × ℕ
auto_values s = elim (compute_code_stack_values s.contents) [ none ↦ (0, 0, 0) | some v ↦ v ]

abbrev pub auto_increase : Section → ℤ → Option ℤ
auto_increase s inputs =
    let (i, o, highest) = auto_values s in
    if s.auto_max_stack_height then some (pos highest -ℤ inputs) else s.max_stack_increase

-- The bytes of a type entry.
unfoldable pub entry_of : ℤ → ℤ → Result ℤ → Result Bytes
unfolding to_bytes_unsigned
entry_of inputs outputs computed = do
  increase ← computed
  require (leb_ℤ (pos 0) increase) assertion_error
  first ← to_bytes_unsigned 1 inputs
  second ← to_bytes_unsigned 1 outputs
  third ← to_bytes_unsigned 2 increase
  ok (first ++ (second ++ third))

-- Whether a section has a type entry.
abbrev pub lists_type : Section → Bool
lists_type s = s.kind == code_kind || s.force_type_listing

abbrev pub inputs_of : Section → ℤ
inputs_of s = if s.auto_code_inputs_outputs then pos (auto_values s).0 else s.code_inputs

abbrev pub outputs_of : Section → ℤ
outputs_of s =
    let (auto_inputs, auto_outputs, highest) = auto_values s in
    if s.auto_code_inputs_outputs then pos auto_outputs else s.code_outputs

-- `type_definition`
unfoldable pub type_definition : Section → Result Bytes
unfolding entry_of compute_code_stack_values ◌-ℤ◌
type_definition s =
    if lists_type s
    then entry_of (inputs_of s) (outputs_of s)
        (increase_of s (inputs_of s) (auto_increase s (inputs_of s)))
    else ok []

-- The number of bytes of a size in a joined header.
abbrev pub size_length : Section → ℕ
size_length s = if s.kind == container_kind then 4 else 2

-- The sizes of the sections that are not skipped.
unfoldable pub sizes : List Section → Result Bytes
unfolding to_bytes_unsigned
sizes [] = ok []
sizes (s ∷ ss) = do
  first ←
      (if s.skip_header_listing
        then ok []
        else to_bytes_unsigned (size_length s) (pos (header_size s)))
  rest ← sizes ss
  ok (first ++ rest)

unfoldable pub headers : List Section → Result Bytes
unfolding header
headers [] = ok []
headers (s ∷ ss) = do first ← header s; rest ← headers ss; ok (first ++ rest)

-- `list_header`, of sections of which there is one at least.
unfoldable pub list_header : Section → List Section → Result Bytes
unfolding headers sizes to_bytes_unsigned
list_header s ss =
    if s.skip_header_listing
    then ok []
    else (if not (s.kind == code_kind || s.kind == container_kind) then headers (s ∷ ss) else (do
      kind_byte ← to_bytes_unsigned 1 (pos s.kind)
      count ← to_bytes_unsigned 2 (pos (length (filter (λ x. not x.skip_header_listing) (s ∷ ss))))
      rest ← sizes (s ∷ ss)
      ok (kind_byte ++ (count ++ rest))))

-- `Section.Code`, of bytecode and no other argument.
abbrev pub code_section : Bytecode → Section
code_section c = record (section_of code_kind c.bytes) {
  max_stack_increase = some (pos c.max_stack_height);
}

-- `Section.Container`, of the bytes of a container.
abbrev pub container_section : Bytes → Section
container_section b = section_of container_kind b

-- `Section.Data`
abbrev pub data_section : Bytes → Section
data_section b = section_of data_kind b
