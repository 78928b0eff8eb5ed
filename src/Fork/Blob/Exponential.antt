-- ===== src/Fork/Blob/Exponential.antt =====
-- `fake_exponential` ends, is at least its factor, and grows with its numerator
-- (src/ethereum_test_forks/forks/helpers.py).
use execution_spec_tests_gno.Base.{
  ℕ, zero, suc, ◌+◌, ◌*◌, ◌/◌, ◌^◌, ◌≤◌, ◌<◌, ◌≡◌, inl, inr, false, some, ◌==◌, arith, Bool-cases,
  subst,
}
use native.Mathlib.Nat.{
  pow-suc, pow-zero, lt-div-mul-add, div-lt_iff_lt-mul, div-le_self, le-div_iff_mul-le,
  mul-lt-mul_of_pos_left, mul-le-mul, le_trans, le_refl, div-mul-le_self,
}
use execution_spec_tests_gno.Fork.Blob.{taylor_loop, taylor_fuel, or_zero, fake_exponential}

-- A round with a large index makes the accumulator smaller.
shrinks :
    (numerator divisor accumulator : ℕ)
    → 0 < accumulator
    → numerator < divisor
    → accumulator * numerator / divisor < accumulator
shrinks n d a ha hn = (div-lt_iff_lt-mul (omega arith)).1 (mul-lt-mul_of_pos_left hn ha)

grows_little :
    (numerator divisor accumulator : ℕ)
    → accumulator * numerator / divisor ≤ accumulator * (numerator + 1)
grows_little n d a = le_trans (div-le_self (a * n) d) (grind arith)

-- With the index past the ratio, the accumulator is fuel enough.
ends_late :
    (fuel numerator denominator i output accumulator : ℕ)
    → numerator < denominator * i
    → accumulator < fuel
    → (r : ℕ) × (taylor_loop fuel numerator denominator i output accumulator ≡ some r)
unfolding taylor_loop
ends_late zero n d i out acc hi h = absurd (omega arith)
ends_late (suc fuel) n d i out acc hi h = elim (Bool-cases (acc == 0)) [
  | inl done ↦ (out, rw done)
  | inr more ↦
      let positive : 0 < acc = ground arith in
      let smaller = shrinks n (d * i) acc positive hi in
      let later : n < d * (i + 1) = grind arith in
      let (r, e) = ends_late fuel n d (i + 1) (out + acc) (acc * n / (d * i)) later (omega arith) in
      (r, rw more e)
]

-- Before that, k rounds are left, in each of which it grows by a factor at most.
ends :
    (k fuel numerator denominator i output accumulator : ℕ)
    → numerator < denominator * (i + k)
    → k + accumulator * (numerator + 1) ^ k < fuel
    → (r : ℕ) × (taylor_loop fuel numerator denominator i output accumulator ≡ some r)
unfolding taylor_loop
ends zero fuel n d i out acc hi h =
    let one : acc * (n + 1) ^ 0 ≡ acc = rw (pow-zero (n + 1)) (omega arith) in
    let here : i + 0 ≡ i = omega arith in
    ends_late fuel n d i out acc (subst (λ j. n < d * j) here hi) (omega arith)
ends (suc k) zero n d i out acc hi h = absurd (omega arith)
ends (suc k) (suc fuel) n d i out acc hi h = elim (Bool-cases (acc == 0)) [
  | inl done ↦ (out, rw done)
  | inr more ↦
      let bound = mul-le-mul (grows_little n (d * i) acc) (le_refl ((n + 1) ^ k)) in
      let step : acc * (n + 1) ^ suc k ≡ acc * (n + 1) * (n + 1) ^ k =
        rw (pow-suc (n + 1) k) (grind arith) in
      let next : i + suc k ≡ i + 1 + k = omega arith in
      let (r, e) =
        ends k fuel n d (i + 1) (out + acc) (acc * n / (d * i)) (subst (λ j. n < d * j) next hi)
          (omega arith) in
      (r, rw more e)
]

-- The loop ends on the fuel that is given, for every factor and numerator and every positive
-- denominator.
pub fake_exponential-ends :
    (factor numerator denominator : ℕ)
    → 0 < denominator
    → (output : ℕ) × (taylor_loop
          (taylor_fuel factor numerator denominator)
          numerator
          denominator
          1
          0
          (factor * denominator)
        ≡ some output)
fake_exponential-ends f n d h =
    let near : n < n / d * d + d = lt-div-mul-add h in
    let past : n < d * (1 + n / d) = grind arith in
    ends (n / d) (taylor_fuel f n d) n d 1 0 (f * d) past (omega arith)

-- The output only grows.
output_below :
    (fuel numerator denominator i output accumulator : ℕ) {r : ℕ}
    → taylor_loop fuel numerator denominator i output accumulator ≡ some r
    → output + accumulator ≤ r
unfolding taylor_loop
output_below zero n d i out acc h = cc
output_below (suc fuel) n d i out acc h = elim (Bool-cases (acc == 0)) [
  | inl done ↦ ground arith
  | inr more ↦
      let rest = output_below fuel n d (i + 1) (out + acc) (acc * n / (d * i)) (rw more at h) in
      omega arith
]

div_mono : (k : ℕ) {x y : ℕ} → 0 < k → x ≤ y → x / k ≤ y / k
div_mono k {x} h e = (le-div_iff_mul-le h).1 (le_trans (div-mul-le_self x k) e)

-- A larger numerator and larger sums so far give a larger output.
output_mono :
    (fuel fuel' n n' d i out out' acc acc' : ℕ) {r r' : ℕ}
    → 0 < d
    → 0 < i
    → n ≤ n'
    → out ≤ out'
    → acc ≤ acc'
    → taylor_loop fuel n d i out acc ≡ some r
    → taylor_loop fuel' n' d i out' acc' ≡ some r'
    → r ≤ r'
unfolding taylor_loop
output_mono zero fuel' n n' d i out out' acc acc' hd hi hn ho ha h h' = cc
output_mono (suc fuel) zero n n' d i out out' acc acc' hd hi hn ho ha h h' = cc
output_mono (suc fuel) (suc fuel') n n' d i out out' acc acc' hd hi hn ho ha h h' =
    elim (Bool-cases (acc == 0)) [
      | inl done ↦ let low = output_below (suc fuel') n' d i out' acc' h' in ground arith
      | inr more ↦
          let more' : (acc' == 0) ≡ false = ground arith in
          let grown : acc * n / (d * i) ≤ acc' * n' / (d * i) =
            div_mono (d * i) (grind arith) (mul-le-mul ha hn) in
          output_mono fuel fuel' n n' d (i + 1) (out + acc) (out' + acc') (acc * n / (d * i))
            (acc' * n' / (d * i)) hd (omega arith) hn (omega arith) grown (rw more at h)
            (rw more' at h')
    ]

sum_of : ℕ → ℕ → ℕ → ℕ
sum_of factor n d = or_zero (taylor_loop (taylor_fuel factor n d) n d 1 0 (factor * d))

sum_of-eq :
    (factor n d : ℕ)
    → 0 < d
    → taylor_loop (taylor_fuel factor n d) n d 1 0 (factor * d) ≡ some (sum_of factor n d)
unfolding sum_of
sum_of-eq factor n d h = let (r, e) = fake_exponential-ends factor n d h in rw e

-- For a positive denominator the result is at least the factor, and it does not fall when the
-- numerator grows.
pub fake_exponential_mono :
    (factor numerator numerator' denominator : ℕ)
    → 0 < denominator
    → numerator ≤ numerator'
    → (factor ≤ fake_exponential factor numerator denominator)
      × (fake_exponential factor numerator denominator
          ≤ fake_exponential factor numerator' denominator)
unfolding fake_exponential sum_of
fake_exponential_mono f n n' d h hn =
    let low = output_below (taylor_fuel f n d) n d 1 0 (f * d) (sum_of-eq f n d h) in
    let most =
      output_mono (taylor_fuel f n d) (taylor_fuel f n' d) n n' d 1 0 0 (f * d) (f * d) h
        (omega arith) hn (omega arith) (omega arith) (sum_of-eq f n d h) (sum_of-eq f n' d h) in
    ((le-div_iff_mul-le h).1 (omega arith), div_mono d h most)
