-- ===== src/Alloc/Merge.antt =====
-- Merging two allocations (src/ethereum_test_types/account_types.py, `Alloc.merge`).
use execution_spec_tests_gno.Base.{
  ◌≡◌, refl, ap, sym, ◌∙◌, subst, ap₂, Bool, true, false, Option, none, some, [], ◌∷◌, ℕ,
  if◌then◌else◌, Bool-cases, Result, ok, raise, exception, ◌>>◌, require, not, ◌&&◌, inl, inr, ◌==◌,
  ==_iff, arith,
}
use execution_spec_tests_gno.Base.Dict.{
  lookup, contains, insert, erase, IsUnique, lookup-insert, lookup-erase_ne, lookup-erase_self,
  insert-IsUnique, erase-IsUnique, not_contained,
}
use execution_spec_tests_gno.Account.{Account, is_nonempty}
use execution_spec_tests_gno.Account
use execution_spec_tests_gno.Alloc.{
  Alloc, get_or_none, merge_loop, dump, dump_account, overlap, merge,
}

-- What a merged allocation has at an address: the second allocation's account over the first's, if it is
-- not empty.
abbrev pub merged_at : Option (Option Account) → Option (Option Account) → Option (Option Account)
merged_at first none = first
merged_at first (some other) =
    let a = Account.merge (get_or_none first) other in if is_nonempty a then some (some a) else none

-- One round of the loop.
abbrev step : Alloc → ℕ → Option Account → Alloc
step merged address other =
    let a = Account.merge (get_or_none (lookup address merged)) other in
    if is_nonempty a
    then insert address (some a) merged
    else (if contains address merged then erase address merged else merged)

lookup-step :
    (merged : Alloc) (address k : ℕ) (other : Option Account)
    → IsUnique merged
    → lookup k (step merged address other)
      ≡ (if address == k then merged_at (lookup address merged) (some other) else lookup k merged)
lookup-step merged address k other u =
    let a = Account.merge (get_or_none (lookup address merged)) other in
    elim (Bool-cases (is_nonempty a)) [
      | inl filled ↦ rw filled (lookup-insert address k (some a) merged)
      | inr empty ↦ elim (Bool-cases (contains address merged)) [
        | inl there ↦ elim (Bool-cases (address == k)) [
          | inl same ↦
              rw (empty, there, same)
                (subst (λ x. lookup x (erase address merged) ≡ none) ((==_iff address k).0 same)
                  (lookup-erase_self address merged u))
          | inr other_key ↦
              rw (empty, there, other_key) (lookup-erase_ne address k merged other_key)
        ]
        | inr absent ↦ elim (Bool-cases (address == k)) [
          | inl same ↦
              rw (empty, absent, same)
                (subst (λ x. lookup x merged ≡ none) ((==_iff address k).0 same)
                  (not_contained address merged absent))
          | inr other_key ↦ rw (empty, absent, other_key) refl
        ]
      ]
    ]

step-IsUnique :
    (merged : Alloc) (address : ℕ) (other : Option Account)
    → IsUnique merged
    → IsUnique (step merged address other)
step-IsUnique merged address other u =
    let a = Account.merge (get_or_none (lookup address merged)) other in
    elim (Bool-cases (is_nonempty a)) [
      | inl filled ↦ rw filled (insert-IsUnique address (some a) merged u)
      | inr empty ↦ elim (Bool-cases (contains address merged)) [
        | inl there ↦ rw (empty, there) (erase-IsUnique address merged u)
        | inr absent ↦ rw (empty, absent) u
      ]
    ]

lookup-merge_loop :
    (k : ℕ) (merged alloc : Alloc)
    → IsUnique merged
    → IsUnique alloc
    → lookup k (merge_loop merged alloc) ≡ merged_at (lookup k merged) (lookup k alloc)
unfolding merge_loop
lookup-merge_loop k merged [] u v = refl
lookup-merge_loop k merged ((address, other) ∷ alloc) u (fresh, v) =
    let ih =
      lookup-merge_loop k (step merged address other) alloc (step-IsUnique merged address other u)
        v in
    let choose =
      λ (b : Bool). if b then merged_at (lookup address merged) (some other) else lookup k merged in
    let stepped = lookup-step merged address k other u in
    elim (Bool-cases (address == k)) [
      | inl same ↦
          let eq = (==_iff address k).0 same in
          let gone = not_contained k alloc (ap (λ x. contains x alloc) (sym eq) ∙ fresh) in
          rw same (
            ih
            ∙ ap₂ merged_at (stepped ∙ ap choose same) gone
            ∙ ap (λ x. merged_at (lookup x merged) (some other)) eq)
      | inr other_key ↦
          rw other_key (ih ∙ ap (λ o. merged_at o (lookup k alloc)) (stepped ∙ ap choose other_key))
    ]

-- A dumped allocation has the dumped accounts.
abbrev pub dumped_at : Option (Option Account) → Option (Option Account)
dumped_at (some (some a)) = some (some (dump_account a))
dumped_at o = o

lookup-dump : (k : ℕ) (alloc : Alloc) → lookup k (dump alloc) ≡ dumped_at (lookup k alloc)
lookup-dump k [] = refl
lookup-dump k ((address, none) ∷ alloc) = elim (Bool-cases (address == k)) [
  | inl same ↦ rw same refl
  | inr other ↦ rw other (lookup-dump k alloc)
]
lookup-dump k ((address, some a) ∷ alloc) = elim (Bool-cases (address == k)) [
  | inl same ↦ rw same refl
  | inr other ↦ rw other (lookup-dump k alloc)
]

contains-dump : (k : ℕ) (alloc : Alloc) → contains k alloc ≡ false → contains k (dump alloc) ≡ false
contains-dump k [] h = refl
contains-dump k ((address, none) ∷ alloc) h = ground (arith, contains-dump k alloc)
contains-dump k ((address, some a) ∷ alloc) h = ground (arith, contains-dump k alloc)

dump-IsUnique : (alloc : Alloc) → IsUnique alloc → IsUnique (dump alloc)
dump-IsUnique [] u = tt
dump-IsUnique ((address, none) ∷ alloc) (fresh, u) =
    (contains-dump address alloc fresh, dump-IsUnique alloc u)
dump-IsUnique ((address, some a) ∷ alloc) (fresh, u) =
    (contains-dump address alloc fresh, dump-IsUnique alloc u)

-- What `merge` has at every address, unless the allocations share an address and may not.
abbrev pub Merged : Alloc → Alloc → Bool → Result Alloc → Type 0
Merged a b true result = result ≡ raise exception
Merged a b false result =
    (m : Alloc) × (result ≡ ok m)
    × ((k : ℕ) → lookup k m ≡ merged_at (dumped_at (lookup k a)) (lookup k b))

gate :
    (a b : Alloc) (refused : Bool) (m : Alloc)
    → ((k : ℕ) → lookup k m ≡ merged_at (dumped_at (lookup k a)) (lookup k b))
    → Merged a b refused (require (not refused) exception >> ok m)
gate a b true m h = refl
gate a b false m h = (m, refl, h)

-- `merge` raises if the two allocations share an address and this is not allowed. Otherwise it returns, and
-- at each address the result has the account of the first allocation, with all of its fields
-- set, where the second does not have the address; and else the account of the first with the
-- fields that the second sets, or no entry if that account is empty.
pub merge-Merged :
    (a b : Alloc) (allow : Bool)
    → IsUnique a
    → IsUnique b
    → Merged a b (overlap a b && not allow) (merge a b allow)
unfolding merge
merge-Merged a b allow u v = gate a b (overlap a b && not allow) (merge_loop (dump a) b) (λ k.
    lookup-merge_loop k (dump a) b (dump-IsUnique a u) v
    ∙ ap (λ o. merged_at o (lookup k b)) (lookup-dump k a))
