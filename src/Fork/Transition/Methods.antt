-- ===== src/Fork/Transition/Methods.antt =====
-- The methods of a transition fork (src/ethereum_test_forks/transition_base_fork.py).
use execution_spec_tests_gno.Base.{
  ℕ, ◌≤◌, Bool, true, false, Bool-cases, inl, inr, leb, leb→le, le→leb, &&-eq-true, ◌≡◌, refl,
  if◌then◌else◌, arith,
}
use execution_spec_tests_gno.Fork.Classes.{Fork, methods}
use execution_spec_tests_gno.Fork.Classes.Descent.{Descends, itself}
use execution_spec_tests_gno.Fork.Classes.Growth.{Grows, Descends-Grows}
use execution_spec_tests_gno.Fork.Transition.{
  Transition, transition, is_over, fork_at, transition_method,
}

-- Every method of a transition fork, the ones that prefer the target apart, is the method of
-- `fork_at` at the same block number and timestamp.
pub transition_method-fork_at {ℓ} :
    {A : Type ℓ} (t : Transition) (method : Fork → A) (block_number timestamp : ℕ)
    → transition_method t false method block_number timestamp
      ≡ method (fork_at (transition t) block_number timestamp)
unfolding transition_method fork_at
transition_method-fork_at t method block_number timestamp =
    elim (Bool-cases (is_over t block_number timestamp)) [ inl over ↦ cc | inr before ↦ cc ]

is_over_mono :
    (t : Transition) (n s m r : ℕ) → n ≤ m → s ≤ r → is_over t n s ≡ true → is_over t m r ≡ true
is_over_mono t n s m r h h' over =
    let (hb, ht) = &&-eq-true (leb t.at_block n) (leb t.at_timestamp s) over in
    let le_block = leb→le t.at_block n hb in
    let le_time = leb→le t.at_timestamp s ht in
    let block = le→leb t.at_block m (omega arith) in
    let time = le→leb t.at_timestamp r (omega arith) in cc

either-Grows :
    {from to : Fork} (x y : Bool)
    → Descends from to
    → (x ≡ true → y ≡ true)
    → Grows (methods (if x then to else from)) (methods (if y then to else from))
either-Grows true true d h = Descends-Grows itself
either-Grows true false d h = let absurd = h refl in cc
either-Grows false true d h = Descends-Grows d
either-Grows false false d h = Descends-Grows itself

-- Where the target descends from the source, the fork at a later block, with a number and a
-- timestamp that are no less, has grown from the fork at the earlier one: a transition fork never
-- goes back.
fork_at-Grows :
    (t : Transition) (n s m r : ℕ)
    → Descends t.from_fork t.to_fork
    → n ≤ m
    → s ≤ r
    → Grows (methods (fork_at (transition t) n s)) (methods (fork_at (transition t) m r))
unfolding fork_at
fork_at-Grows t n s m r d h h' =
    either-Grows (is_over t n s) (is_over t m r) d (is_over_mono t n s m r h h')
