-- ===== src/Trie/Prefixes.antt =====
-- The prefix that keys share (src/ethereum_test_types/trie.py).
use execution_spec_tests_gno.Base.{
  ℕ, zero, suc, ◌-◌, ◌≤◌, ◌<◌, ◌≡◌, refl, sym, ap, ◌∙◌, Bool, true, false, Option, none, some, [],
  ◌∷◌, ◌++◌, ◌==◌, ==_iff, if◌then◌else◌, min, length, All, arith, Bool-cases, inl, inr, get_elem?,
}
use execution_spec_tests_gno.Base.Bytes.{Bytes, bytes_eq}
use execution_spec_tests_gno.Base.ByteDict.{ByteDict, lookup, contains, is_some, IsUnique}
use execution_spec_tests_gno.Trie.{common_prefix_length, drop, take, prefix_loop}
use execution_spec_tests_gno.Trie.Radix.{strip, behind, prefixed, IsEntry}
use mathlib.Core.List.{append_assoc}

pub drop-append : (q s : Bytes) → drop (length q) (q ++ s) ≡ s
drop-append [] s = refl
drop-append (x ∷ q) s = drop-append q s

pub get_elem?-append : (q s : Bytes) → get_elem? (q ++ s) (length q) ≡ get_elem? s 0
get_elem?-append [] s = refl
get_elem?-append (x ∷ q) s = get_elem?-append q s

pub length-take : (n : ℕ) (s : Bytes) → n ≤ length s → length (take n s) ≡ n
length-take zero s h = refl
length-take (suc n) [] h = absurd (omega arith)
length-take (suc n) (x ∷ s) h = ap suc (length-take n s (omega arith))

pub length-drop : (n : ℕ) (s : Bytes) → length (drop n s) ≤ length s
length-drop zero s = omega arith
length-drop (suc n) [] = omega arith
length-drop (suc n) (x ∷ s) = omega (arith, length-drop n s)

pub prefixed-nil : (ss : ByteDict Bytes) → prefixed [] ss ≡ ss
prefixed-nil [] = refl
prefixed-nil ((s, v) ∷ ss) = ap (λ rest. (s, v) ∷ rest) (prefixed-nil ss)

pub prefixed-append :
    (p q : Bytes) (ss : ByteDict Bytes) → prefixed p (prefixed q ss) ≡ prefixed (p ++ q) ss
prefixed-append p q [] = refl
prefixed-append p q ((s, v) ∷ ss) = cc (append_assoc p q s, prefixed-append p q ss)

pub common_prefix_length-le : (a b : Bytes) → common_prefix_length a b ≤ length a
unfolding common_prefix_length
common_prefix_length-le [] b = omega arith
common_prefix_length-le (x ∷ a) [] = omega arith
common_prefix_length-le (x ∷ a) (y ∷ b) = ground (arith, common_prefix_length-le a b)

-- A key starts with as much as it shares.
split_key : (n : ℕ) (a b : Bytes) → n ≤ common_prefix_length a b → b ≡ take n a ++ drop n b
unfolding common_prefix_length
split_key zero a b h = refl
split_key (suc n) [] b h = absurd (omega arith)
split_key (suc n) (x ∷ a) [] h = absurd (omega arith)
split_key (suc n) (x ∷ a) (y ∷ b) h = ground (arith, split_key n a b)

pub prefix_loop-prefixed :
    (substring q : Bytes) (ss : ByteDict Bytes) (n : ℕ)
    → prefix_loop substring (length q) (prefixed q ss) n ≡ prefix_loop substring 0 ss n
unfolding prefix_loop
prefix_loop-prefixed substring q [] n = refl
prefix_loop-prefixed substring q ((s, v) ∷ ss) n =
    rw
      (
        drop-append q s,
        prefix_loop-prefixed substring q ss (min n (common_prefix_length substring s)),
      )
      refl

abbrev pub SharedBy : Bytes → ByteDict Bytes → ℕ → Type 0
SharedBy a ss r = All (λ e. r ≤ common_prefix_length a e.0) ss

SharedBy-le :
    (a : Bytes) (ss : ByteDict Bytes) (r m : ℕ) → r ≤ m → SharedBy a ss m → SharedBy a ss r
SharedBy-le a [] r m h shared = tt
SharedBy-le a (e ∷ ss) r m h shared = (omega arith, SharedBy-le a ss r m h shared.1)

stop_early :
    (stop : Bool) (a s : Bytes) (ss : ByteDict Bytes) (n r : ℕ)
    → r ≤ min n (common_prefix_length a s)
    → SharedBy a ss r
    → ((if stop then 0 else r) ≤ n)
      × ((if stop then 0 else r) ≤ common_prefix_length a s)
      × SharedBy a ss (if stop then 0 else r)
stop_early true a s ss n r h shared =
    (omega arith, omega arith, SharedBy-le a ss 0 r (omega arith) shared)
stop_early false a s ss n r h shared = (omega arith, omega arith, shared)

-- The loop finds at most what each key shares with the first.
pub prefix_loop-SharedBy :
    (a : Bytes) (ss : ByteDict Bytes) (n : ℕ)
    → (prefix_loop a 0 ss n ≤ n) × SharedBy a ss (prefix_loop a 0 ss n)
unfolding prefix_loop
prefix_loop-SharedBy a [] n = (omega arith, tt)
prefix_loop-SharedBy a ((s, v) ∷ ss) n =
    let shorter = min n (common_prefix_length a s) in
    let (le, shared) = prefix_loop-SharedBy a ss shorter in
    let (x, y, z) = stop_early (shorter == 0) a s ss n (prefix_loop a 0 ss shorter) le shared in
    (x, (y, z))

-- What stands behind the first digits of each key.
abbrev pub tails : ℕ → ByteDict Bytes → ByteDict Bytes
tails n [] = []
tails n ((s, v) ∷ ss) = (drop n s, v) ∷ tails n ss

SharedBy-prefixed :
    (n : ℕ) (a : Bytes) (ss : ByteDict Bytes)
    → SharedBy a ss n
    → ss ≡ prefixed (take n a) (tails n ss)
SharedBy-prefixed n a [] shared = refl
SharedBy-prefixed n a ((s, v) ∷ ss) (here, shared) =
    cc (split_key n a s here, SharedBy-prefixed n a ss shared)

-- The keys of a dict share what the loop finds.
pub prefix_loop-prefix :
    (s v : Bytes) (ss : ByteDict Bytes)
    → let n = prefix_loop s 0 ((s, v) ∷ ss) (length s) in
      (n ≤ length s) × (((s, v) ∷ ss) ≡ prefixed (take n s) (tails n ((s, v) ∷ ss)))
prefix_loop-prefix s v ss =
    let (le, shared) = prefix_loop-SharedBy s ((s, v) ∷ ss) (length s) in
    (le, SharedBy-prefixed _ s ((s, v) ∷ ss) shared)

strip_off :
    (q s k v : Bytes) (f : Bytes → Option Bytes)
    → (if bytes_eq (q ++ s) k then some v else behind (strip q k) f)
      ≡ behind (strip q k) (λ r. if bytes_eq s r then some v else f r)
strip_off [] s k v f = refl
strip_off (x ∷ q) s [] v f = refl
strip_off (x ∷ q) s (y ∷ k) v f = elim (Bool-cases (x == y)) [
  | inl h ↦ rw h (strip_off q s k v f)
  | inr h ↦ rw h refl
]

behind-none : (o : Option Bytes) → behind o (λ r. none) ≡ none
behind-none none = refl
behind-none (some r) = refl

pub lookup-prefixed :
    (q k : Bytes) (ss : ByteDict Bytes)
    → lookup k (prefixed q ss) ≡ behind (strip q k) (λ r. lookup r ss)
lookup-prefixed q k [] = sym (behind-none (strip q k))
lookup-prefixed q k ((s, v) ∷ ss) =
    ap (λ rest. if bytes_eq (q ++ s) k then some v else rest) (lookup-prefixed q k ss)
    ∙ strip_off q s k v (λ r. lookup r ss)

pub strip-append : (q s : Bytes) → strip q (q ++ s) ≡ some s
strip-append [] s = refl
strip-append (x ∷ q) s = rw ((==_iff x x).1 refl) (strip-append q s)

contains-prefixed :
    (q s : Bytes) (ss : ByteDict Bytes) → contains (q ++ s) (prefixed q ss) ≡ contains s ss
contains-prefixed q s ss =
    ap is_some
      (lookup-prefixed q (q ++ s) ss ∙ ap (λ o. behind o (λ r. lookup r ss)) (strip-append q s))

pub prefixed-IsUnique : (q : Bytes) (ss : ByteDict Bytes) → IsUnique (prefixed q ss) → IsUnique ss
prefixed-IsUnique q [] u = tt
prefixed-IsUnique q ((s, v) ∷ ss) u =
    (sym (contains-prefixed q s ss) ∙ u.0, prefixed-IsUnique q ss u.1)

All-drop : (P : ℕ → Type 0) (n : ℕ) (s : Bytes) → All P s → All P (drop n s)
All-drop P zero s h = h
All-drop P (suc n) [] h = tt
All-drop P (suc n) (x ∷ s) h = All-drop P n s h.1

length-drop_pos : (n : ℕ) (s : Bytes) → 0 < n → length (drop n s) ≤ length s - 1
length-drop_pos zero s h = absurd (omega arith)
length-drop_pos (suc n) [] h = omega arith
length-drop_pos (suc n) (x ∷ s) h = omega (arith, length-drop n s)

-- Behind a prefix of a digit or more the keys are shorter.
pub tails-IsEntry :
    (longest n : ℕ) (ss : ByteDict Bytes)
    → 0 < n
    → All (IsEntry (suc longest)) ss
    → All (IsEntry longest) (tails n ss)
tails-IsEntry longest n [] pos entries = tt
tails-IsEntry longest n ((s, v) ∷ ss) pos (e, entries) = (
  record {
    nibbles = All-drop (λ d. d < 16) n s e.nibbles;
    has_value = e.has_value;
    short = omega (arith, length-drop_pos n s, e.short);
  },
  tails-IsEntry longest n ss pos entries,
)
