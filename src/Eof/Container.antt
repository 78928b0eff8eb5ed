-- ===== src/Eof/Container.antt =====
-- EOF containers (src/ethereum_test_types/eof/v1/__init__.py,
-- src/ethereum_test_types/eof/constants.py).
use execution_spec_tests_gno.Base.{
  ℕ, ◌+◌, Bool, true, false, not, ◌&&◌, ◌||◌, Option, none, some, List, [], ◌∷◌, ◌++◌, ◌==◌, leb,
  if◌then◌else◌, length, filter, Result, ok, assertion_error, ◌>>=◌, ◌>>◌, require,
}
use execution_spec_tests_gno.Base.Bytes.{Bytes, bytes_eq}
use execution_spec_tests_gno.Eof.Section.{
  Section, section_of, type_definition, list_header, type_kind, data_kind,
}

-- `AutoSection`
pub data AutoSection : Type 0 where
  auto only_header only_body no_section : AutoSection

-- `AutoSection.any`
abbrev pub auto_any : AutoSection → Bool
auto_any no_section = false
auto_any _ = true

-- `AutoSection.header`
abbrev pub auto_header : AutoSection → Bool
auto_header auto = true
auto_header only_header = true
auto_header _ = false

-- `AutoSection.body`
abbrev pub auto_body : AutoSection → Bool
auto_body auto = true
auto_body only_body = true
auto_body _ = false

pub record Container : Type 0 where
  pub sections : List Section
  pub magic : Bytes
  pub version : Bytes
  pub header_terminator : Bytes
  pub extra : Bytes
  pub auto_type_section : AutoSection
  pub auto_data_section : Bool
  pub auto_sort_sections : AutoSection
  pub skip_join_concurrent_sections_in_header : Bool
  pub raw_bytes : Option Bytes
  pub expected_bytecode : Option Bytes

-- `Container(sections=…)`
abbrev pub container_of : List Section → Container
container_of ss = record {
  sections = ss;
  magic = 0xef ∷ 0 ∷ [];
  version = 1 ∷ [];
  header_terminator = 0 ∷ [];
  extra = [];
  auto_type_section = auto;
  auto_data_section = true;
  auto_sort_sections = auto;
  skip_join_concurrent_sections_in_header = false;
  raw_bytes = none;
  expected_bytecode = none;
}

-- `count_sections`
abbrev pub count_sections : List Section → ℕ → ℕ
count_sections ss k = length (filter (λ s. s.kind == k) ss)

-- A type entry, which is not computed where both flags skip it.
unfoldable pub type_entry : Section → Result Bytes
unfolding type_definition
type_entry s =
    if s.skip_types_header_listing && s.skip_types_body_listing then ok [] else type_definition s

-- The size and the bytes of the type section.
unfoldable pub type_entries : List Section → Result (ℕ × Bytes)
unfolding type_entry
type_entries [] = ok (0, [])
type_entries (s ∷ ss) = do
  entry ← type_entry s
  rest ← type_entries ss
  let (size, entries) = rest
  ok (
    (if s.skip_types_header_listing then size else length entry + size),
    (if s.skip_types_body_listing then entries else entry ++ entries),
  )

-- `sections.sort(key=lambda x: x.kind)`: the sort is stable.
abbrev pub insert_section : Section → List Section → List Section
insert_section s [] = s ∷ []
insert_section s (t ∷ ts) =
    let rest = insert_section s ts in if leb s.kind t.kind then s ∷ t ∷ ts else t ∷ rest

abbrev pub sort_sections : List Section → List Section
sort_sections [] = []
sort_sections (s ∷ ss) = insert_section s (sort_sections ss)

-- With the type section and the data section that are generated.
unfoldable pub with_types : Container → Result (List Section)
unfolding type_entries
with_types c =
    if auto_any c.auto_type_section && count_sections c.sections type_kind == 0
    then (do
      entries ← type_entries c.sections
      let (size, contents) = entries
      ok (record (section_of type_kind contents) { custom_size = some size } ∷ c.sections))
    else ok c.sections

abbrev pub with_data : Container → List Section → List Section
with_data c ss =
    if c.auto_data_section && count_sections ss data_kind == 0
    then ss ++ (section_of data_kind [] ∷ [])
    else ss

-- The sections of one kind that stand next to each other, as lists.
abbrev pub join_first :
    Bool → Section → List (Section × List Section) → List (Section × List Section)
join_first skip s [] = (s, []) ∷ []
join_first skip s ((t, ts) ∷ groups) =
    if s.kind == t.kind && not skip then (s, t ∷ ts) ∷ groups else (s, []) ∷ (t, ts) ∷ groups

abbrev pub join_sections : Bool → List Section → List (Section × List Section)
join_sections skip [] = []
join_sections skip (s ∷ ss) = join_first skip s (join_sections skip ss)

unfoldable pub group_headers : List (Section × List Section) → Result Bytes
unfolding list_header
group_headers [] = ok []
group_headers ((s, ss) ∷ groups) = do
  first ← list_header s ss
  rest ← group_headers groups
  ok (first ++ rest)

unfoldable pub body_bytes : AutoSection → List Section → Bytes
body_bytes types [] = []
body_bytes only_header (s ∷ ss) =
    let rest = body_bytes only_header ss in
    if s.kind == type_kind || s.skip_body_listing then rest else s.contents ++ rest
body_bytes types (s ∷ ss) =
    let rest = body_bytes types ss in if s.skip_body_listing then rest else s.contents ++ rest

abbrev is_only_body : AutoSection → Bool
is_only_body only_body = true
is_only_body _ = false

abbrev pub is_expected : Option Bytes → Bytes → Bool
is_expected none b = true
is_expected (some want) b = bytes_eq b want

-- The construction of `bytecode` from the sections.
unfoldable pub assemble : Container → Result Bytes
unfolding with_types group_headers body_bytes
assemble c = do
  typed ← with_types c
  let ss = with_data c typed
  let listed = filter (λ s. not (s.kind == type_kind) || not (is_only_body c.auto_type_section)) ss
  let in_header = if auto_header c.auto_sort_sections then sort_sections listed else listed
  head ← group_headers (join_sections c.skip_join_concurrent_sections_in_header in_header)
  let in_body = if auto_body c.auto_sort_sections then sort_sections ss else ss
  let whole =
      c.magic
      ++ (c.version
          ++ (head ++ (c.header_terminator ++ (body_bytes c.auto_type_section in_body ++ c.extra))))
  require (is_expected c.expected_bytecode whole) assertion_error
  ok whole

-- `bytecode`
unfoldable pub bytecode : Container → Result Bytes
unfolding assemble
bytecode c = elim c.raw_bytes [
  | none ↦ assemble c
  | some raw ↦ (do require (length c.sections == 0) assertion_error; ok raw)
]
