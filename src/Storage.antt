-- ===== src/Storage.antt =====
-- Contract storage of a test: src/ethereum_test_base_types/composite_types.py, class `Storage`.
-- Keys and values are integers as validated (`HashInt`); the conversion of strings and bytes to them
-- is pydantic's. Python iterates over sets of keys in an order of its own, so an operation that does
-- so takes the keys in that order, and its theorems hold for every such list.
pub mod Compare
pub mod Contain
pub mod Slots
use execution_spec_tests_gno.Base.{
  ℕ, zero, suc, ◌+◌, ◌≤◌, Bool, true, false, not, ◌&&◌, ◌||◌, Option, none, some, List, [], ◌∷◌,
  String, ◌==◌, if◌then◌else◌, every, any, length,
}
use execution_spec_tests_gno.Base.Dict.{Dict, lookup, contains, insert, erase, merge, keys}

pub record Storage : Type 0 where
  pub root : Dict ℕ
  pub current_slot : ℕ
  pub hint_map : Dict String
  pub any_map : Dict Bool

-- `Storage(root)`
abbrev pub new : Dict ℕ → Storage
new d = record { root = d; current_slot = 0; hint_map = []; any_map = [] }

-- The exceptions of the checks. The addresses are those of the accounts that are compared.
pub data Verdict : Type 0 where
  passed : Verdict
  missing_key : (key : ℕ) → Verdict
  key_value_mismatch : (address key want got : ℕ) (hint : String) → Verdict

abbrev pub get_or {ℓ} : {A : Type ℓ} → A → Option A → A
get_or d none = d
get_or d (some a) = a

-- The value at a key, where a missing key is zero.
abbrev pub value_at : Storage → ℕ → ℕ
value_at s k = get_or 0 (lookup k s.root)

-- `__setitem__`
unfoldable pub set_item : Storage → ℕ → ℕ → Storage
set_item s k v = record s { root = insert k v s.root }

-- `__delitem__`; a missing key raises a `KeyError`, here nothing.
unfoldable pub del_item : Storage → ℕ → Option Storage
del_item s k = if contains k s.root then some (record s { root = erase k s.root }) else none

-- `__eq__` of two storages: the dicts have the same keys and values.
unfoldable pub eq : Storage → Storage → Bool
eq s t =
    length s.root == length t.root
    && every (λ e. elim (lookup e.0 t.root) [ none ↦ false | some v ↦ v == e.1 ]) s.root

-- `__bool__`
unfoldable pub is_true : Storage → Bool
is_true s = any (λ e. not (e.1 == 0)) s.root

-- `__add__`
unfoldable pub add : Storage → Storage → Storage
add s t = new (merge s.root t.root)

-- `set_next_slot`
unfoldable pub set_next_slot : Storage → ℕ → Storage
set_next_slot s slot = record s { current_slot = slot }

-- `set_expect_any`
unfoldable pub set_expect_any : Storage → ℕ → Storage
set_expect_any s k = record s { any_map = insert k true s.any_map }

abbrev note : Option String → ℕ → Dict String → Dict String
note none slot hints = hints
note (some text) slot hints = insert slot text hints

-- `store_next`: the new storage and the slot. An absent hint is `none`.
unfoldable pub store_next : Storage → ℕ → Option String → Storage × ℕ
unfolding set_item
store_next s value hint =
    let slot = s.current_slot in
    let noted = note hint slot s.hint_map in
    (set_item (record s { current_slot = slot + 1; hint_map = noted }) slot value, slot)

-- `contains`, over the keys of the other storage.
unfoldable pub contains_all : List ℕ → Storage → Storage → Bool
contains_all ks s t = every (λ k. contains k s.root && value_at s k == value_at t k) ks

hint_of : Storage → ℕ → String
hint_of s k = get_or "" (lookup k s.hint_map)

-- One key of `must_contain`.
abbrev contain_key : ℕ → Storage → Storage → ℕ → Verdict
contain_key address s t k =
    if contains k s.root
    then (if value_at s k == value_at t k
        then passed
        else key_value_mismatch address k (value_at s k) (value_at t k) (hint_of s k))
    else (if value_at t k == 0 then passed else missing_key k)

-- A loop over keys that stops at the first exception.
abbrev pub check_keys : (ℕ → Verdict) → List ℕ → Verdict
check_keys check [] = passed
check_keys check (k ∷ ks) =
    let rest = check_keys check ks in elim (check k) [ passed ↦ rest | other ↦ other ]

-- `must_contain`, over the keys of the other storage.
unfoldable pub must_contain : List ℕ → ℕ → Storage → Storage → Verdict
unfolding hint_of
must_contain ks address s t = check_keys (contain_key address s t) ks

-- One key that both storages have, in `must_be_equal`.
abbrev common_key : ℕ → Storage → Storage → ℕ → Verdict
common_key address s t k =
    if value_at s k == value_at t k
    then passed
    else key_value_mismatch address k (value_at s k) (value_at t k) (hint_of s k)

-- One key that only one of the storages has.
abbrev single_key : ℕ → Storage → Storage → ℕ → Verdict
single_key address s t k =
    if contains k s.root
    then (if value_at s k == 0
        then passed
        else key_value_mismatch address k (value_at s k) 0 (hint_of s k))
    else (if value_at t k == 0
        then passed
        else (if get_or false (lookup k s.any_map)
            then passed
            else key_value_mismatch address k 0 (value_at t k) (hint_of s k)))

abbrev and_then : Verdict → Verdict → Verdict
and_then passed v = v
and_then v _ = v

-- `must_be_equal`, over the common keys and the keys of one storage only. No other storage is an
-- empty one.
unfoldable pub must_be_equal : List ℕ → List ℕ → ℕ → Storage → Option Storage → Verdict
unfolding hint_of
must_be_equal common single address s other =
    let t = get_or (new []) other in
    and_then (check_keys (common_key address s t) common)
      (check_keys (single_key address s t) single)

abbrev canary_root : Storage → List ℕ → Dict ℕ
canary_root s [] = []
canary_root s (k ∷ ks) =
    let more = canary_root s ks in if value_at s k == 0 then insert k 0xba5e more else more

-- `canary`, over the keys of the storage.
unfoldable pub canary : List ℕ → Storage → Storage
canary ks s = new (canary_root s ks)
