-- ===== src/Base/ByteDict.antt =====
-- Python's `dict` with bytes as keys, in insertion order.
use execution_spec_tests_gno.Base.Tests.{if◌then◌else◌, Option-cases, Bool-cases}
use execution_spec_tests_gno.Base.Lists.{All}
use execution_spec_tests_gno.Base.Bytes.{Bytes, bytes_eq, bytes_eq-true, bytes_eq_refl}
use mathlib.Core.Path.{◌≡◌, refl, sym, ap, ◌∙◌, subst}
use mathlib.Core.Bool.{Bool, true, false}
use mathlib.Core.Logic.{◌↔◌, inl, inr}
use native.Mathlib.Omega.{arith}
use mathlib.Core.Option.{Option, none, some}
use mathlib.Core.List.{List, [], ◌∷◌}

abbrev pub ByteDict {ℓ} : Type ℓ → Type ℓ
ByteDict V = List (Bytes × V)

pub bytes_eq_iff : (a b : Bytes) → (bytes_eq a b ≡ true) ↔ (a ≡ b)
bytes_eq_iff a b = (bytes_eq-true a b, λ e. ap (bytes_eq a) (sym e) ∙ bytes_eq_refl a)

abbrev pub is_some {ℓ} : {V : Type ℓ} → Option V → Bool
is_some none = false
is_some (some v) = true

module _ {ℓ} {V : Type ℓ} where
  -- `d.get(k)`
  abbrev pub lookup : Bytes → ByteDict V → Option V
  lookup k [] = none
  lookup k ((j, v) ∷ d) = if bytes_eq j k then some v else lookup k d

  -- `k in d`
  abbrev pub contains : Bytes → ByteDict V → Bool
  contains k d = is_some (lookup k d)

  -- `d[k] = v`
  abbrev pub insert : Bytes → V → ByteDict V → ByteDict V
  insert k v [] = (k, v) ∷ []
  insert k v ((j, w) ∷ d) = if bytes_eq j k then (k, v) ∷ d else (j, w) ∷ insert k v d

  -- `del d[k]`, of a key that is there
  abbrev pub erase : Bytes → ByteDict V → ByteDict V
  erase k [] = []
  erase k ((j, w) ∷ d) = if bytes_eq j k then d else (j, w) ∷ erase k d

  -- A dict has each key once.
  abbrev pub IsUnique : ByteDict V → Type 0
  IsUnique [] = Unit
  IsUnique ((k, v) ∷ d) = (contains k d ≡ false) × IsUnique d

  pub not_contained : (k : Bytes) (d : ByteDict V) → contains k d ≡ false → lookup k d ≡ none
  not_contained k d h = elim (Option-cases (lookup k d)) [
    | inl e ↦ e
    | inr (v, e) ↦ cc (ap is_some (sym e) ∙ h)
  ]

  pub lookup-insert :
      (k j : Bytes) (v : V) (d : ByteDict V)
      → lookup j (insert k v d) ≡ (if bytes_eq k j then some v else lookup j d)
  lookup-insert k j v [] = refl
  lookup-insert k j v ((i, w) ∷ d) =
      ground (arith, bytes_eq_iff k j, bytes_eq_iff i k, bytes_eq_iff i j, lookup-insert k j v d)

  pub lookup-erase_ne :
      (k j : Bytes) (d : ByteDict V) → bytes_eq k j ≡ false → lookup j (erase k d) ≡ lookup j d
  lookup-erase_ne k j [] h = refl
  lookup-erase_ne k j ((i, w) ∷ d) h =
      ground (arith, bytes_eq_iff k j, bytes_eq_iff i k, bytes_eq_iff i j, lookup-erase_ne k j d h)

  pub insert-IsUnique : (k : Bytes) (v : V) (d : ByteDict V) → IsUnique d → IsUnique (insert k v d)
  insert-IsUnique k v [] u = (refl, tt)
  insert-IsUnique k v ((j, w) ∷ d) u =
      ground (
        arith,
        bytes_eq_iff k j,
        bytes_eq_iff j k,
        insert-IsUnique k v d u.1,
        lookup-insert k j v d,
      )

  pub lookup-erase_self : (k : Bytes) (d : ByteDict V) → IsUnique d → lookup k (erase k d) ≡ none
  lookup-erase_self k [] u = refl
  lookup-erase_self k ((j, w) ∷ d) u = ground (arith, bytes_eq_iff j k, lookup-erase_self k d u.1)

  pub erase-IsUnique : (k : Bytes) (d : ByteDict V) → IsUnique d → IsUnique (erase k d)
  erase-IsUnique k [] u = tt
  erase-IsUnique k ((j, w) ∷ d) u =
      ground
        (arith, bytes_eq_iff j k, bytes_eq_iff k j, erase-IsUnique k d u.1, lookup-erase_ne k j d)

  pub All-insert {κ} :
      (P : Bytes × V → Type κ) (k : Bytes) (v : V) (d : ByteDict V)
      → P (k, v)
      → All P d
      → All P (insert k v d)
  All-insert P k v [] here all = (here, tt)
  All-insert P k v ((j, w) ∷ d) here (first, all) = elim (Bool-cases (bytes_eq j k)) [
    | inl h ↦ rw h (here, all)
    | inr h ↦ rw h (first, All-insert P k v d here all)
  ]

  pub All-erase {κ} :
      (P : Bytes × V → Type κ) (k : Bytes) (d : ByteDict V) → All P d → All P (erase k d)
  All-erase P k [] all = tt
  All-erase P k ((j, w) ∷ d) (first, all) = elim (Bool-cases (bytes_eq j k)) [
    | inl h ↦ rw h all
    | inr h ↦ rw h (first, All-erase P k d all)
  ]

  pub All-erase-insert {κ} :
      (P : Bytes × V → Type κ) (k : Bytes) (v : V) (d : ByteDict V)
      → All P d
      → All P (erase k (insert k v d))
  All-erase-insert P k v [] all = rw (bytes_eq_refl k) tt
  All-erase-insert P k v ((j, w) ∷ d) (first, all) = elim (Bool-cases (bytes_eq j k)) [
    | inl h ↦ rw (h, bytes_eq_refl k) all
    | inr h ↦ rw (h, h) (first, All-erase-insert P k v d all)
  ]

  pub All-lookup {κ} :
      (P : Bytes × V → Type κ) (k : Bytes) (d : ByteDict V) (v : V)
      → All P d
      → lookup k d ≡ some v
      → P (k, v)
  All-lookup P k [] v all h = cc
  All-lookup P k ((j, w) ∷ d) v (first, all) h = elim (Bool-cases (bytes_eq j k)) [
    | inl same ↦
        let found : w ≡ v = cc (rw same at h) in
        subst (λ x. P (x, v)) (bytes_eq-true j k same) (subst (λ y. P (j, y)) found first)
    | inr other ↦ All-lookup P k d v all (rw other at h)
  ]
