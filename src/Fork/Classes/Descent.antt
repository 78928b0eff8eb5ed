-- ===== src/Fork/Classes/Descent.antt =====
-- Descent of fork classes as a relation (src/ethereum_test_forks/forks/forks.py), for the proofs about
-- the comparisons.
use execution_spec_tests_gno.Base.{
  ℕ, zero, suc, Bool, true, false, Option, none, some, List, [], ◌∷◌, any, every, ◌≡◌, refl, sym,
  ap, ◌∙◌, subst, ◌↔◌, inl, inr, ==_iff, Bool-cases, get_elem?, &&-eq-true,
}
use execution_spec_tests_gno.Fork.Classes.{
  Fork, place, is_same, parent, bases_from, mro, is_subclass, all_forks, frontier, homestead,
  dao_fork, tangerine, spurious_dragon, byzantium, constantinople, constantinople_fix, istanbul,
  muir_glacier, berlin, london, arrow_glacier, gray_glacier, paris, shanghai, cancun, prague, osaka,
  eof,
}

-- `Descends b a`: the class a is b, or its parent descends from b.
pub data Descends (b : Fork) : Fork → Type 0 where
  itself : Descends b b
  child : {a p : Fork} → parent a ≡ some p → Descends b p → Descends b a

place-get_elem? : (f : Fork) → get_elem? all_forks (place f) ≡ some f
place-get_elem? frontier = refl
place-get_elem? homestead = refl
place-get_elem? dao_fork = refl
place-get_elem? tangerine = refl
place-get_elem? spurious_dragon = refl
place-get_elem? byzantium = refl
place-get_elem? constantinople = refl
place-get_elem? constantinople_fix = refl
place-get_elem? istanbul = refl
place-get_elem? muir_glacier = refl
place-get_elem? berlin = refl
place-get_elem? london = refl
place-get_elem? arrow_glacier = refl
place-get_elem? gray_glacier = refl
place-get_elem? paris = refl
place-get_elem? shanghai = refl
place-get_elem? cancun = refl
place-get_elem? prague = refl
place-get_elem? osaka = refl
place-get_elem? eof = refl

place-injective : (a b : Fork) → place a ≡ place b → a ≡ b
place-injective a b h =
    let found = sym (place-get_elem? a) ∙ ap (get_elem? all_forks) h ∙ place-get_elem? b in cc

pub is_same_iff : (a b : Fork) → (is_same a b ≡ true) ↔ (a ≡ b)
is_same_iff a b = (
  λ h. place-injective a b ((==_iff (place a) (place b)).0 h),
  λ h. (==_iff (place a) (place b)).1 (ap place h),
)

every-get_elem? {ℓ} :
    {A : Type ℓ} (p : A → Bool) (xs : List A) (n : ℕ) {x : A}
    → every p xs ≡ true
    → get_elem? xs n ≡ some x
    → p x ≡ true
every-get_elem? p [] n h h' = cc
every-get_elem? p (x ∷ xs) zero h h' = let first = (&&-eq-true (p x) (every p xs) h).0 in cc
every-get_elem? p (x ∷ xs) (suc n) h h' =
    every-get_elem? p xs n (&&-eq-true (p x) (every p xs) h).1 h'

-- A test that runs at every class.
pub every_fork : (p : Fork → Bool) → every p all_forks ≡ true → (f : Fork) → p f ≡ true
every_fork p h f = every-get_elem? p all_forks (place f) h (place-get_elem? f)

any-tail {ℓ} :
    {A : Type ℓ} (p : A → Bool) (x : A) (xs : List A)
    → any p (x ∷ xs) ≡ true
    → p x ≡ false
    → any p xs ≡ true
any-tail p x xs h hx = cc

any-head {ℓ} :
    {A : Type ℓ} (p : A → Bool) (x : A) (xs : List A) → p x ≡ true → any p (x ∷ xs) ≡ true
any-head p x xs hx = cc

any-later {ℓ} :
    {A : Type ℓ} (p : A → Bool) (x : A) (xs : List A) → any p xs ≡ true → any p (x ∷ xs) ≡ true
any-later p x xs h = elim (Bool-cases (p x)) [ inl hx ↦ cc | inr hx ↦ cc ]

any-or-none {ℓ} :
    {A : Type ℓ} (p : A → Bool) (rest : Fork → List A) (o : Option Fork)
    → any p (elim o [ none ↦ [] | some q ↦ rest q ]) ≡ true
    → (q : Fork) × (o ≡ some q) × (any p (rest q) ≡ true)
any-or-none p rest none h = cc
any-or-none p rest (some q) h = (q, refl, h)

bases-Descends : (fuel : ℕ) (a b : Fork) → any (is_same b) (bases_from fuel a) ≡ true → Descends b a
unfolding bases_from
bases-Descends zero a b h = cc
bases-Descends (suc fuel) a b h = elim (Bool-cases (is_same b a)) [
  | inl same ↦ subst (Descends b) ((is_same_iff b a).0 same) itself
  | inr differs ↦
      let later = any-tail (is_same b) a _ h differs in
      let (p, hp, h') = any-or-none (is_same b) (bases_from fuel) (parent a) later in
      child hp (bases-Descends fuel p b h')
]

-- The order has the parent's order after the class itself: 20 rounds suffice.
pub mro-eq : (a : Fork) → mro a ≡ a ∷ (elim (parent a) [ none ↦ [] | some p ↦ mro p ])
unfolding mro bases_from
mro-eq frontier = refl
mro-eq homestead = refl
mro-eq dao_fork = refl
mro-eq tangerine = refl
mro-eq spurious_dragon = refl
mro-eq byzantium = refl
mro-eq constantinople = refl
mro-eq constantinople_fix = refl
mro-eq istanbul = refl
mro-eq muir_glacier = refl
mro-eq berlin = refl
mro-eq london = refl
mro-eq arrow_glacier = refl
mro-eq gray_glacier = refl
mro-eq paris = refl
mro-eq shanghai = refl
mro-eq cancun = refl
mro-eq prague = refl
mro-eq osaka = refl
mro-eq eof = refl

Descends-any : {b a : Fork} → Descends b a → any (is_same b) (mro a) ≡ true
Descends-any {b} {a} itself =
    subst (λ bs. any (is_same b) bs ≡ true) (sym (mro-eq b))
      (any-head (is_same b) b _ ((is_same_iff b b).1 refl))
Descends-any {b} {a} (child {p = p} hp d) =
    let later = Descends-any d in
    subst (λ bs. any (is_same b) bs ≡ true) (sym (mro-eq a))
      (any-later (is_same b) a _ (
        subst (λ o. any (is_same b) (elim o [ none ↦ [] | some q ↦ mro q ]) ≡ true) (sym hp) later))

-- `issubclass(a, b)` holds exactly of the classes b that a descends from.
pub is_subclass_iff : (a b : Fork) → (is_subclass a b ≡ true) ↔ Descends b a
unfolding is_subclass
is_subclass_iff a b = ((bases-Descends 20 a b), Descends-any)
