-- ===== src/Storage/Slots.antt =====
-- `store_next` and the other writes of a storage (composite_types.py): which slots are used, and what
-- can be read back.
use execution_spec_tests_gno.Base.{
  ℕ, zero, suc, ◌+◌, ◌≤◌, ◌<◌, ◌≡◌, refl, sym, ◌∙◌, ap, ◌⊎◌, inl, inr, false, ◌&&◌, Option, none,
  some, List, [], ◌∷◌, String, ◌==◌, if◌then◌else◌, arith, Bool-cases, ==_iff, length, get_elem?,
}
use execution_spec_tests_gno.Base.Dict.{
  has, lookup, contains, IsUnique, lookup-insert, lookup-merge,
}
use execution_spec_tests_gno.Storage.{Storage, value_at, store_next, canary, canary_root, add}
use execution_spec_tests_gno.Storage.Compare.{Enumerates}

-- `[storage.store_next(v) for v in values]`: the storage, and the slots that were returned.
unfoldable pub store_all : Storage → List (ℕ × Option String) → Storage × List ℕ
store_all s [] = (s, [])
store_all s ((v, hint) ∷ vs) =
    let (s1, slot) = store_next s v hint in let (s2, slots) = store_all s1 vs in (s2, slot ∷ slots)

-- What one call writes.
store_next-lookup :
    (s : Storage) (v : ℕ) (hint : Option String) (k : ℕ)
    → lookup k (store_next s v hint).0.root
      ≡ (if s.current_slot == k then some v else lookup k s.root)
unfolding store_next
store_next-lookup s v hint k = lookup-insert s.current_slot k v s.root

store_next-slot :
    (s : Storage) (v : ℕ) (hint : Option String)
    → ((store_next s v hint).0.current_slot ≡ s.current_slot + 1)
      × ((store_next s v hint).1 ≡ s.current_slot)
unfolding store_next
store_next-slot s v hint = (refl, refl)

-- Storing values one after the other leaves every key alone that lies outside the slots used.
store_all-others :
    (vs : List (ℕ × Option String)) (s : Storage) (k : ℕ)
    → (k < s.current_slot) ⊎ (s.current_slot + length vs ≤ k)
    → lookup k (store_all s vs).0.root ≡ lookup k s.root
unfolding store_all
store_all-others [] s k h = refl
store_all-others ((v, hint) ∷ vs) s k h =
    let s1 = (store_next s v hint).0 in
    let next = (store_next-slot s v hint).0 in
    let apart : (s.current_slot == k) ≡ false = ground arith in
    store_all-others vs s1 k (omega arith) ∙ store_next-lookup s v hint k ∙ rw apart

store_all-count :
    (vs : List (ℕ × Option String)) (s : Storage)
    → (store_all s vs).0.current_slot ≡ s.current_slot + length vs
unfolding store_all
store_all-count [] s = omega arith
store_all-count ((v, hint) ∷ vs) s =
    let next = (store_next-slot s v hint).0 in
    store_all-count vs (store_next s v hint).0 ∙ omega arith

-- Storing values one after the other uses consecutive slots from the current one on: the slot that
-- is returned for each value is the current slot plus its position, the value can be read there
-- afterwards, and the current slot moves on by the number of values.
store_all-read :
    (vs : List (ℕ × Option String)) (s : Storage) (i v : ℕ) (hint : Option String)
    → get_elem? vs i ≡ some (v, hint)
    → (get_elem? (store_all s vs).1 i ≡ some (s.current_slot + i))
      × (lookup (s.current_slot + i) (store_all s vs).0.root ≡ some v)
      × ((store_all s vs).0.current_slot ≡ s.current_slot + length vs)
unfolding store_all
store_all-read [] s i v hint e = cc
store_all-read ((w, text) ∷ vs) s zero v hint e =
    let s1 = (store_next s w text).0 in
    let (next, slot) = store_next-slot s w text in
    let old = store_all-others vs s1 (s.current_slot + 0) (inl (omega arith)) in
    (
      ap some slot ∙ ap some (omega arith),
      old ∙ store_next-lookup s w text (s.current_slot + 0) ∙ ground arith,
      store_all-count ((w, text) ∷ vs) s,
    )
store_all-read ((w, text) ∷ vs) s (suc i) v hint e =
    let s1 = (store_next s w text).0 in
    let next = (store_next-slot s w text).0 in
    let (slots, reads, count) = store_all-read vs s1 i v hint e in
    let shift : s1.current_slot + i ≡ s.current_slot + suc i = omega arith in
    (
      slots ∙ ap some shift,
      ap (λ k. lookup k (store_all s1 vs).0.root) (sym shift) ∙ reads,
      count ∙ omega arith,
    )

lookup-canary_root :
    (s : Storage) (ks : List ℕ) (k : ℕ)
    → lookup k (canary_root s ks) ≡ (if has k ks && value_at s k == 0 then some 0xba5e else none)
lookup-canary_root s [] k = refl
lookup-canary_root s (j ∷ ks) k = elim (Bool-cases (j == k)) [
  | inl same ↦
      let e = (==_iff j k).0 same in
      rw e (ground (arith, lookup-canary_root s ks k, lookup-insert k k 0xba5e (canary_root s ks)))
  | inr other ↦
      ground (arith, lookup-canary_root s ks k, lookup-insert j k 0xba5e (canary_root s ks))
]

-- A canary has the value 0xba5e at exactly the keys where the storage holds zero, and nothing
-- elsewhere; so at each of them it differs from the storage.
canary_lem :
    (ks : List ℕ) (s : Storage)
    → Enumerates ks (λ k. contains k s.root)
    → (k : ℕ)
    → lookup k (canary ks s).root
      ≡ (elim (lookup k s.root) [ none ↦ none | some v ↦ if v == 0 then some 0xba5e else none ])
unfolding canary
canary_lem ks s h k = ground (arith, lookup-canary_root s ks k, (h k).0, (h k).1)

-- The sum of two storages holds what the second holds, and else what the first holds.
pub lookup-add :
    (s t : Storage) (k : ℕ)
    → IsUnique t.root
    → lookup k (add s t).root
      ≡ (elim (lookup k t.root) [ none ↦ lookup k s.root | some v ↦ some v ])
unfolding add
lookup-add s t k u = lookup-merge k s.root t.root u
