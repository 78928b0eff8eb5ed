-- ===== src/Opcode/Encoders/Exchange.antt =====
-- The data portion of `EXCHANGE`: the encoder and the modifier that reads the byte agree
-- (src/ethereum_test_vm/opcode.py).
use Prim.Native.Nat.{bit_or}
use execution_spec_tests_gno.Base.{
  ℕ, zero, suc, ◌+◌, ◌-◌, ◌*◌, ◌≤◌, ◌<◌, ◌≡◌, refl, Bool, true, ◌&&◌, [], ◌∷◌, ◌==◌, ok, length,
  arith,
}
use execution_spec_tests_gno.Base.Int.{pos, ◌+ℤ◌}
use execution_spec_tests_gno.Base.Bytes.{Bytes, from_be, to_bytes_unsigned}
use execution_spec_tests_gno.Opcode.Arg.{int}
use execution_spec_tests_gno.Opcode.Encoders.{exchange_encoder, exchange_modifier}

-- `lo | hi` of a number below 16 and a multiple of 16 is their sum, as a table over all of them.
pairs_below : ℕ → ℕ → Bool
pairs_below zero m = true
pairs_below (suc n) m = (bit_or (n * 16) m == n * 16 + m) && pairs_below n m

pairs_table : ℕ → Bool
pairs_table zero = true
pairs_table (suc m) = pairs_below 16 m && pairs_table m

pairs_below_sound : (k n m : ℕ) → pairs_below k m ≡ true → n < k → bit_or (n * 16) m ≡ n * 16 + m
unfolding pairs_below
pairs_below_sound zero n m h lt = absurd (omega arith)
pairs_below_sound (suc k) n m h lt = ground (arith, pairs_below_sound k n m)

pairs_table_sound :
    (k n m : ℕ) → pairs_table k ≡ true → n < 16 → m < k → bit_or (n * 16) m ≡ n * 16 + m
unfolding pairs_table
pairs_table_sound zero n m h ln lm = absurd (omega arith)
pairs_table_sound (suc k) n m h ln lm =
    ground (arith, pairs_below_sound 16 n k, pairs_table_sound k n m)

pairs_checked : pairs_table 16 ≡ true
unfolding pairs_table pairs_below
pairs_checked = refl

-- The encoder of an exchange and the modifier that reads its byte agree: the opcode of the stack
-- positions x and y, for 2 ≤ x ≤ 17 and x < y ≤ x + 16, is one byte and needs exactly y items.
pub exchange-roundtrip :
    (x y : ℕ)
    → 2 ≤ x
    → x ≤ 17
    → x + 1 ≤ y
    → y ≤ x + 16
    → (b : Bytes) × (exchange_encoder (int (pos x) ∷ int (pos y) ∷ []) ≡ ok b)
      × (length b ≡ 1)
      × (exchange_modifier b ≡ record { popped = 0; pushed = 0; least = y; most = y })
unfolding exchange_encoder exchange_modifier to_bytes_unsigned ◌+ℤ◌ from_be
exchange-roundtrip x y hx hx' hy hy' =
    let n = x - 1 - 1 in
    let m = y - x - 1 in
    let both : bit_or (n * 16) m ≡ n * 16 + m =
      pairs_table_sound 16 n m pairs_checked (omega arith) (omega arith) in
    ((n * 16 + m) ∷ [], ground arith, refl, ground arith)
