-- ===== src/Fork/Blob/Excess.antt =====
-- The excess blob gas of Cancun and of Osaka (src/ethereum_test_forks/forks/forks.py).
use execution_spec_tests_gno.Base.{
  ℕ, sym, subst, lt_or_le, ◌+◌, ◌-◌, ◌*◌, ◌/◌, ◌≤◌, ◌<◌, ◌≡◌, ◌⊎◌, inl, inr, Option, none, some,
  ltb, if◌then◌else◌, arith, ok, raise, assertion_error,
}
use native.Mathlib.Nat.{le-div_iff_mul-le, div-le_of_le-mul, mul-le-mul, le_refl, add-mul}
use execution_spec_tests_gno.Fork.Blob.{
  ParentBlobs, gas_or_blobs, cancun_excess, osaka_excess, blob_base_cost,
}

-- The excess blob gas and the blob gas used of a parent, where both can be told.
abbrev pub parent_gas : ℕ → ParentBlobs → Option (ℕ × ℕ)
parent_gas per_blob p = elim (gas_or_blobs per_blob p.excess_blob_gas p.excess_blobs) [
  | raise e ↦ none
  | ok excess ↦ elim (gas_or_blobs per_blob p.blob_gas_used p.blob_count) [
    | raise e ↦ none
    | ok used ↦ some (excess, used)
  ]
]

module _ (target per_blob : ℕ) (p : ParentBlobs) where
  -- At Cancun the excess is what the parent's excess and use exceed the target by, and zero if they
  -- do not; without enough data on the parent the calculator raises an assertion error.
  pub cancun_excess-eq : cancun_excess target per_blob p ≡ (elim (parent_gas per_blob p) [
    | none ↦ raise assertion_error
    | some (excess, used) ↦ ok (excess + used - target * per_blob)
  ])
  unfolding cancun_excess
  cancun_excess-eq = ground arith

-- What the use exceeds the target by is no more of the target than of the rest.
over_target :
    (over rest target per_blob : ℕ)
    → over ≤ rest * per_blob
    → over * (rest + target) ≤ (over + target * per_blob) * rest
over_target over rest target per_blob h = let scaled = mul-le-mul h (le_refl target) in grind arith

use_over_target :
    (used rest target per_blob : ℕ)
    → used ≤ (rest + target) * per_blob
    → (used - target * per_blob) * (rest + target) ≤ used * rest
use_over_target used rest target per_blob h = elim (lt_or_le used (target * per_blob)) [
  | inl below ↦
      let none_over : used - target * per_blob ≡ 0 = omega arith in
      subst (λ over. over * (rest + target) ≤ used * rest) (sym none_over) (grind arith)
  | inr above ↦
      let whole : used - target * per_blob + target * per_blob ≡ used = omega arith in
      let split : (rest + target) * per_blob ≡ rest * per_blob + target * per_blob =
        add-mul rest target per_blob in
      subst (λ n. (used - target * per_blob) * (rest + target) ≤ n * rest) whole
        (over_target (used - target * per_blob) rest target per_blob (omega arith))
]

-- The adjustment of EIP-7918 takes off no more than the target, and adds no more than the use.
adjusted :
    (used rest target per_blob : ℕ)
    → 0 < rest + target
    → used ≤ (rest + target) * per_blob
    → (used ≤ used * rest / (rest + target) + target * per_blob)
      × (used * rest / (rest + target) ≤ used)
adjusted used rest target per_blob h hu =
    let floor = (le-div_iff_mul-le h).1 (use_over_target used rest target per_blob hu) in
    (omega arith, div-le_of_le-mul (rest + target) (grind arith))

module _ (target max_blobs per_blob : ℕ) (price : ℕ → ℕ) (p : ParentBlobs) where
  abbrev osaka_amount : ℕ → ℕ → ℕ
  osaka_amount excess used =
      if ltb (excess + used) (target * per_blob)
      then 0
      else (if ltb (per_blob * price excess) (blob_base_cost * p.base_fee_per_gas)
          then excess + used * (max_blobs - target) / max_blobs
          else excess + used - target * per_blob)

  osaka_excess-eq :
      (excess used : ℕ)
      → parent_gas per_blob p ≡ some (excess, used)
      → osaka_excess target max_blobs per_blob price p ≡ ok (osaka_amount excess used)
  unfolding osaka_excess
  osaka_excess-eq excess used h = ground arith

  osaka_amount_between :
      (excess used : ℕ)
      → used ≤ used * (max_blobs - target) / max_blobs + target * per_blob
      → used * (max_blobs - target) / max_blobs ≤ used
      → (excess + used - target * per_blob ≤ osaka_amount excess used)
        × (osaka_amount excess used ≤ excess + used)
  osaka_amount_between excess used h h' = ground arith

  abbrev IsBelowTarget : ℕ → ℕ → Type 0
  IsBelowTarget excess used = excess + used < target * per_blob

  abbrev IsReserveActive : ℕ → Type 0
  IsReserveActive excess = per_blob * price excess < blob_base_cost * p.base_fee_per_gas

  -- Which of the amounts it is: that of Cancun, or one that the target is not taken off.
  abbrev pub IsAdjusted : ℕ → ℕ → ℕ → Type 0
  IsAdjusted excess used amount =
      ((amount ≡ excess + used - target * per_blob)
        × (IsBelowTarget excess used ⊎ (¬ IsReserveActive excess)))
      ⊎ ((excess ≤ amount) × (¬ IsBelowTarget excess used) × IsReserveActive excess)

  osaka_amount-IsAdjusted : (excess used : ℕ) → IsAdjusted excess used (osaka_amount excess used)
  osaka_amount-IsAdjusted excess used = ground arith

  -- Where the parent's data are `excess` and `used`, with blobs up to the maximum and the target not
  -- above the maximum, the excess at Osaka is not less than the one at Cancun, and not more than the
  -- sum of the parent's excess and use, whatever the base fee and the blob gas price are. It is the one
  -- at Cancun if the sum is below the target or a blob costs at least the reserve price, and else it is
  -- not less than the parent's excess.
  pub osaka_excess_between :
      (excess used : ℕ)
      → 0 < max_blobs
      → target ≤ max_blobs
      → used ≤ max_blobs * per_blob
      → parent_gas per_blob p ≡ some (excess, used)
      → (amount : ℕ) × (osaka_excess target max_blobs per_blob price p ≡ ok amount)
        × (excess + used - target * per_blob ≤ amount)
        × (amount ≤ excess + used)
        × IsAdjusted excess used amount
  osaka_excess_between excess used h ht hu hp =
      let whole : max_blobs - target + target ≡ max_blobs = omega arith in
      let bounds =
        adjusted used (max_blobs - target) target per_blob (omega arith)
          (subst (λ n. used ≤ n * per_blob) (sym whole) hu) in
      let lower =
        subst (λ n. used ≤ used * (max_blobs - target) / n + target * per_blob) whole bounds.0 in
      let upper = subst (λ n. used * (max_blobs - target) / n ≤ used) whole bounds.1 in
      let between = osaka_amount_between excess used lower upper in
      (
        osaka_amount excess used,
        osaka_excess-eq excess used hp,
        between.0,
        between.1,
        osaka_amount-IsAdjusted excess used,
      )
