-- ===== src/Bytecode/Machine.antt =====
-- A stack machine that executes bytecodes one after the other, and the summary that `__add__`,
-- `__mul__` and `sum` compute for the whole sequence (src/ethereum_test_vm/bytecode.py).
use execution_spec_tests_gno.Base.{
  ℕ, zero, suc, ◌+◌, ◌-◌, ◌*◌, ◌≡◌, refl, sym, ◌∙◌, ap, Option, none, some, List, [], ◌∷◌, max,
  arith, ltb, if◌then◌else◌, ok, ◌>>=◌, All, replicate, length, length-append,
}
use Prim.Native.Nat.add
use mathlib.Core.Path.{subst}
use execution_spec_tests_gno.Base.Int.{pos}
use execution_spec_tests_gno.Bytecode.{Bytecode, code, concat, add as plus, repeat, mul, sum_from}
use execution_spec_tests_gno.Bytecode.Valid.{
  IsValid, concat-IsValid, concat_assoc, sum_from-IsValid,
}

-- The height of the stack now, and the largest height so far.
pub record Trace : Type 0 where
  pub height : ℕ
  pub peak : ℕ

abbrev pub start : ℕ → Trace
start h = record { height = h; peak = h }

-- One instruction, or code that is taken as one: it underflows below its least height.
unfoldable pub exec : Bytecode → Trace → Option Trace
exec b t =
    if ltb t.height b.min_stack_height
    then none
    else some (record {
      height = t.height - b.popped_stack_items + b.pushed_stack_items;
      peak = max t.peak (t.height + (b.max_stack_height - b.min_stack_height));
    })

abbrev and_then : Option Trace → (Trace → Option Trace) → Option Trace
and_then none f = none
and_then (some t) f = f t

unfoldable pub run : List Bytecode → Trace → Option Trace
run [] t = some t
run (b ∷ bs) t = and_then (exec b t) (run bs)

-- Executing a sum is executing its parts in turn.
pub exec-concat :
    (a b : Bytecode) (t : Trace)
    → IsValid a
    → IsValid b
    → exec (concat a b) t ≡ and_then (exec a t) (exec b)
unfolding exec concat
exec-concat a b t va vb = ground arith

and_then_assoc :
    (o : Option Trace) (f g : Trace → Option Trace)
    → and_then (and_then o f) g ≡ and_then o (λ t. and_then (f t) g)
and_then_assoc none f g = refl
and_then_assoc (some t) f g = refl

and_then-some : (o : Option Trace) → and_then o some ≡ o
and_then-some none = refl
and_then-some (some t) = refl

exec-sum_from :
    (a : Bytecode) (bs : List Bytecode) (t : Trace)
    → IsValid a
    → All IsValid bs
    → exec (sum_from a bs) t ≡ run (a ∷ bs) t
unfolding sum_from run
exec-sum_from a [] t va vs = sym (and_then-some (exec a t))
exec-sum_from a (b ∷ bs) t va vs =
    exec-sum_from (concat a b) bs t (concat-IsValid a b va vs.0) vs.1
    ∙ ap (λ o. and_then o (run bs)) (exec-concat a b t va vs.0)
    ∙ and_then_assoc (exec a t) (exec b) (run bs)

-- For valid bytecodes, the counts of `a + b₁ + … + bₙ` tell exactly how the sequence runs from a
-- stack of any height: it underflows if and only if the height is below the least height of the
-- sum; otherwise it ends at the height that the popped and pushed counts give, and the largest
-- height on the way is the largest height of the sum, shifted by the difference of the start and
-- the least height.
pub run-sum_from :
    (a : Bytecode) (bs : List Bytecode) (h : ℕ)
    → IsValid a
    → All IsValid bs
    → run (a ∷ bs) (start h) ≡ (
        if ltb h (sum_from a bs).min_stack_height
        then none
        else some (record {
          height = h - (sum_from a bs).popped_stack_items + (sum_from a bs).pushed_stack_items;
          peak = h + (sum_from a bs).max_stack_height - (sum_from a bs).min_stack_height;
        }))
unfolding exec
run-sum_from a bs h va vs =
    sym (exec-sum_from a bs (start h) va vs)
    ∙ exec_start (sum_from a bs) (sum_from-IsValid a bs va vs)
  where
    exec_start :
        (s : Bytecode)
        → IsValid s
        → exec s (start h) ≡ (
            if ltb h s.min_stack_height
            then none
            else some (record {
              height = h - s.popped_stack_items + s.pushed_stack_items;
              peak = h + s.max_stack_height - s.min_stack_height;
            }))
    exec_start s vs = ground arith

repeat-eq-sum_from :
    (n : ℕ) (a output : Bytecode) → repeat n a output ≡ sum_from output (replicate n a)
unfolding repeat sum_from
repeat-eq-sum_from zero a output = refl
repeat-eq-sum_from (suc n) a output = repeat-eq-sum_from n a (concat output a)

All-replicate : (n : ℕ) (a : Bytecode) → IsValid a → All IsValid (replicate n a)
All-replicate zero a v = tt
All-replicate (suc n) a v = (v, All-replicate n a v)

length-repeat :
    (n : ℕ) (a output : Bytecode)
    → length (repeat n a output).bytes ≡ length output.bytes + n * length a.bytes
unfolding repeat concat
length-repeat zero a output = omega arith
length-repeat (suc n) a output =
    grind (arith, length-repeat n a (concat output a), length-append output.bytes a.bytes)

-- `code * n` for a positive n succeeds; for valid code the result is valid, it runs like n copies of
-- the code in turn, and it is n times as long.
pub mul-run :
    (a : Bytecode) (n : ℕ) (t : Trace)
    → IsValid a
    → (c : Bytecode) × (mul a (pos (suc n)) ≡ ok c)
      × IsValid c
      × (exec c t ≡ run (replicate (suc n) a) t)
      × (length c.bytes ≡ suc n * length a.bytes)
unfolding mul
mul-run a n t v =
    let same = repeat-eq-sum_from n a a in
    (
      repeat n a a,
      refl,
      subst IsValid (sym same) (sum_from-IsValid a (replicate n a) v (All-replicate n a v)),
      ap (λ c. exec c t) same ∙ exec-sum_from a (replicate n a) t v (All-replicate n a v),
      grind (arith, length-repeat n a a),
    )

repeat-IsValid :
    (n : ℕ) (a output : Bytecode) → IsValid a → IsValid output → IsValid (repeat n a output)
unfolding repeat
repeat-IsValid zero a output va vo = vo
repeat-IsValid (suc n) a output va vo =
    repeat-IsValid n a (concat output a) va (concat-IsValid output a vo va)

repeat-concat :
    (n : ℕ) (a x y : Bytecode)
    → IsValid a
    → IsValid x
    → IsValid y
    → repeat n a (concat x y) ≡ concat x (repeat n a y)
unfolding repeat
repeat-concat zero a x y va vx vy = refl
repeat-concat (suc n) a x y va vx vy =
    ap (repeat n a) (concat_assoc x y a vx vy va)
    ∙ repeat-concat n a x (concat y a) va vx (concat-IsValid y a vy va)

repeat-add :
    (m n : ℕ) (a output : Bytecode) → repeat (m + n) a output ≡ repeat n a (repeat m a output)
unfolding repeat
repeat-add zero n a output = rw (add.zero n)
repeat-add (suc m) n a output = rw (add.suc m n) (repeat-add m n a (concat output a))

-- For valid code, multiplying by the sum of two positive counts gives the same as adding the two
-- products, in every part of the result.
mul-add :
    (a : Bytecode) (m n : ℕ)
    → IsValid a
    → mul a (pos (suc m + suc n))
      ≡ (do c ← mul a (pos (suc m)); d ← mul a (pos (suc n)); plus c (code d))
unfolding mul plus repeat
mul-add a m n v =
    rw (add.suc m (suc n), repeat-add m (suc n) a a)
      (ap ok (repeat-concat n a (repeat m a a) a v (repeat-IsValid m a a v v) v))
