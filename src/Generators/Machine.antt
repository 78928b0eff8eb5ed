-- ===== src/Generators/Machine.antt =====
-- An EVM that runs the code of the generators (src/ethereum_test_tools/code/generators.py). It has the
-- instructions that the generators add; what the given pieces of code do is a parameter. A jump goes to
-- any byte of a JUMPDEST: that the byte is not the data of a push is not part of it.
use execution_spec_tests_gno.Base.{
  ℕ, ◌+◌, ◌-◌, ◌^◌, ◌%◌, ◌≤◌, ◌<◌, ◌≡◌, ◌≢◌, refl, sym, ◌∙◌, ap, some, List, [], ◌∷◌, ◌++◌, arith,
  length, length-append, subst,
}
use mathlib.Core.List.{append_assoc}
use native.Mathlib.Nat.{mod-eq_of_lt}
use execution_spec_tests_gno.Base.Bytes.{Bytes}
use execution_spec_tests_gno.Opcode.Push.Read.{read_push}
use execution_spec_tests_gno.Generators.Jumps.{Jumps}

-- The code b stands at the position p of a program.
pub record At (program : Bytes) (p : ℕ) (b : Bytes) : Type 0 where
  pub before : Bytes
  pub behind : Bytes
  pub splits : program ≡ before ++ (b ++ behind)
  pub starts : length before ≡ p

pub At-left : (program : Bytes) (p : ℕ) (a b : Bytes) → At program p (a ++ b) → At program p a
At-left program p a b h = record {
  before = h.before;
  behind = b ++ h.behind;
  splits = h.splits ∙ ap (λ x. h.before ++ x) (append_assoc a b h.behind);
  starts = h.starts;
}

pub At-right :
    (program : Bytes) (p : ℕ) (a b : Bytes) → At program p (a ++ b) → At program (p + length a) b
At-right program p a b h = record {
  before = h.before ++ a;
  behind = h.behind;
  splits =
      h.splits
      ∙ ap (λ x. h.before ++ x) (append_assoc a b h.behind)
      ∙ sym (append_assoc h.before a (b ++ h.behind));
  starts = length-append h.before a ∙ ap (λ n. n + length a) h.starts;
}

pub At-same :
    (program : Bytes) {p q : ℕ} {a b : Bytes} → p ≡ q → a ≡ b → At program p a → At program q b
At-same program {p} {q} {a} {b} same eq h =
    subst (λ x. At program x b) same (subst (At program p) eq h)

pub At-bound :
    (program : Bytes) {p : ℕ} {b : Bytes} → At program p b → p + length b ≤ length program
At-bound program {p} {b} h =
    let whole = ap length h.splits ∙ length-append h.before (b ++ h.behind) in
    let rest = length-append b h.behind in let start = h.starts in omega arith

pub At-whole : (before b behind : Bytes) → At (before ++ (b ++ behind)) (length before) b
At-whole before b behind = record { before = before; behind = behind; splits = refl; starts = refl }

pub length-between :
    (before b behind : Bytes)
    → length (before ++ (b ++ behind)) ≡ length before + length b + length behind
length-between before b behind =
    let whole = length-append before (b ++ behind) in
    let rest = length-append b behind in omega arith

module _ {World : Type 0} (Acts : Bytes → List ℕ × World → List ℕ × World → Type 0)
    (program : Bytes) where
  -- `Runs p s q t`: from the position p and the stack and the world of s the program gets to the
  -- position q and to t.
  pub data Runs : ℕ → List ℕ × World → ℕ → List ℕ × World → Type 0 where
    stay : {p : ℕ} {s : List ℕ × World} → Runs p s p s
    block :
        {p q : ℕ} {s s' t : List ℕ × World} (b : Bytes)
        → At program p b
        → Acts b s s'
        → Runs (p + length b) s' q t
        → Runs p s q t
    push :
        {p q n : ℕ} {stack : List ℕ} {w : World} {t : List ℕ × World} (b : Bytes)
        → At program p b
        → read_push b ≡ some (n, [])
        → Runs (p + length b) (n ∷ stack, w) q t
        → Runs p (stack, w) q t
    pc :
        {p q : ℕ} {stack : List ℕ} {w : World} {t : List ℕ × World}
        → At program p (0x58 ∷ [])
        → Runs (p + 1) (p ∷ stack, w) q t
        → Runs p (stack, w) q t
    add :
        {p q a b : ℕ} {stack : List ℕ} {w : World} {t : List ℕ × World}
        → At program p (0x01 ∷ [])
        → Runs (p + 1) ((a + b) % 256 ^ 32 ∷ stack, w) q t
        → Runs p (a ∷ b ∷ stack, w) q t
    sub :
        {p q a b : ℕ} {stack : List ℕ} {w : World} {t : List ℕ × World}
        → At program p (0x03 ∷ [])
        → Runs (p + 1) ((a + (256 ^ 32 - b)) % 256 ^ 32 ∷ stack, w) q t
        → Runs p (a ∷ b ∷ stack, w) q t
    jump :
        {p q d : ℕ} {stack : List ℕ} {w : World} {t : List ℕ × World}
        → At program p (0x56 ∷ [])
        → At program d (0x5b ∷ [])
        → Runs d (stack, w) q t
        → Runs p (d ∷ stack, w) q t
    jumpi :
        {p q d v : ℕ} {stack : List ℕ} {w : World} {t : List ℕ × World}
        → At program p (0x57 ∷ [])
        → v ≢ 0
        → At program d (0x5b ∷ [])
        → Runs d (stack, w) q t
        → Runs p (d ∷ v ∷ stack, w) q t
    jumpi_past :
        {p q d : ℕ} {stack : List ℕ} {w : World} {t : List ℕ × World}
        → At program p (0x57 ∷ [])
        → Runs (p + 1) (stack, w) q t
        → Runs p (d ∷ 0 ∷ stack, w) q t
    jumpdest :
        {p q : ℕ} {s t : List ℕ × World}
        → At program p (0x5b ∷ [])
        → Runs (p + 1) s q t
        → Runs p s q t

  distance-At :
      {op n : ℕ} {b : Bytes} (p : ℕ) (j : Jumps op n b) → At program p b → At program p j.distance
  distance-At p j h = At-left program p j.distance _ (At-same program refl j.same h)

  code-At :
      {op n : ℕ} {b : Bytes} (p : ℕ) (j : Jumps op n b)
      → At program p b
      → At program (p + length j.distance) (0x58 ∷ 0x01 ∷ op ∷ [])
  code-At p j h = At-right program p j.distance _ (At-same program refl j.same h)

  length-Jumps : {op n : ℕ} {b : Bytes} (j : Jumps op n b) → length b ≡ length j.distance + 3
  length-Jumps {op} j = ap length j.same ∙ length-append j.distance (0x58 ∷ 0x01 ∷ op ∷ [])

  -- Up to the jump itself, the code of a jump pushes a position.
  to_jump :
      {op n p q : ℕ} {b : Bytes} {stack : List ℕ} {w : World} {t : List ℕ × World}
      (j : Jumps op n b)
      → At program p b
      → Runs (p + length j.distance + 1 + 1) ((p + length j.distance + n) % 256 ^ 32 ∷ stack, w) q t
      → Runs p (stack, w) q t
  to_jump {op} {n} {p} j h r =
      let rest = code-At p j h in
      let behind = At-right program (p + length j.distance) (0x58 ∷ []) (0x01 ∷ op ∷ []) rest in
      push j.distance (distance-At p j h) j.reads (
        pc (At-left program _ (0x58 ∷ []) (0x01 ∷ op ∷ []) rest)
          (add (At-left program _ (0x01 ∷ []) (op ∷ []) behind) r))

  jump-At :
      {op n p : ℕ} {b : Bytes} (j : Jumps op n b)
      → At program p b
      → At program (p + length j.distance + 1 + 1) (op ∷ [])
  jump-At {op} {n} {p} j h =
      At-right program _ (0x01 ∷ []) (op ∷ [])
        (At-right program (p + length j.distance) (0x58 ∷ []) (0x01 ∷ op ∷ []) (code-At p j h))

  -- A jump over so many bytes: three less than the distance, which counts from PC.
  reaches :
      {op n : ℕ} (p d : ℕ) {b : Bytes} (j : Jumps op n b)
      → d + 3 ≡ p + length b + n
      → d < 256 ^ 32
      → (p + length j.distance + n) % 256 ^ 32 ≡ d
  reaches {op} {n} p d j e h =
      let long = length-Jumps j in
      let here : p + length j.distance + n ≡ d = omega arith in
      ap (λ x. x % 256 ^ 32) here ∙ mod-eq_of_lt h

  pub run_jump :
      {n p q d : ℕ} {b : Bytes} {stack : List ℕ} {w : World} {t : List ℕ × World}
      → Jumps 0x56 n b
      → At program p b
      → d + 3 ≡ p + length b + n
      → d < 256 ^ 32
      → At program d (0x5b ∷ [])
      → Runs d (stack, w) q t
      → Runs p (stack, w) q t
  run_jump {n} {p} {q} {d} {b} {stack} {w} {t} j h e small land r = to_jump j h (
      subst (λ x. Runs (p + length j.distance + 1 + 1) (x ∷ stack, w) q t)
        (sym (reaches p d j e small)) (jump (jump-At j h) land r))

  pub run_jumpi :
      {n p q d v : ℕ} {b : Bytes} {stack : List ℕ} {w : World} {t : List ℕ × World}
      → Jumps 0x57 n b
      → At program p b
      → v ≢ 0
      → d + 3 ≡ p + length b + n
      → d < 256 ^ 32
      → At program d (0x5b ∷ [])
      → Runs d (stack, w) q t
      → Runs p (v ∷ stack, w) q t
  run_jumpi {n} {p} {q} {d} {v} {b} {stack} {w} {t} j h taken e small land r = to_jump j h (
      subst (λ x. Runs (p + length j.distance + 1 + 1) (x ∷ v ∷ stack, w) q t)
        (sym (reaches p d j e small)) (jumpi (jump-At j h) taken land r))

  pub run_past :
      {n p q : ℕ} {b : Bytes} {stack : List ℕ} {w : World} {t : List ℕ × World}
      → Jumps 0x57 n b
      → At program p b
      → Runs (p + length b) (stack, w) q t
      → Runs p (0 ∷ stack, w) q t
  run_past {n} {p} {q} {b} {stack} {w} {t} j h r =
      let long = length-Jumps j in
      let here : p + length b ≡ p + length j.distance + 1 + 1 + 1 = omega arith in
      to_jump j h (jumpi_past (jump-At j h) (subst (λ x. Runs x (stack, w) q t) here r))

  pub arrive : {p q : ℕ} {s : List ℕ × World} → p ≡ q → Runs p s q s
  arrive {p} {q} {s} h = subst (λ x. Runs p s x s) h stay
