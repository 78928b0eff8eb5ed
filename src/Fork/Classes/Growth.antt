-- ===== src/Fork/Classes/Growth.antt =====
-- What a fork class keeps of its bases (src/ethereum_test_forks/forks/forks.py).
use execution_spec_tests_gno.Base.{
  ℕ, zero, suc, ◌≤◌, Bool, true, false, Option, none, some, List, [], ◌∷◌, ◌++◌, ◌||◌, ◌&&◌, not,
  ◌≡◌, refl, sym, ap, ◌∙◌, subst, arith, &&-eq-true,
}
use mathlib.Core.List.{append_assoc}
use execution_spec_tests_gno.Fork.Methods.{Methods}
use execution_spec_tests_gno.Fork.Classes.{
  Fork, parent, methods, frontier, homestead, dao_fork, tangerine, spurious_dragon, byzantium,
  constantinople, constantinople_fix, istanbul, muir_glacier, berlin, london, arrow_glacier,
  gray_glacier, paris, shanghai, cancun, prague, osaka, eof,
}
use execution_spec_tests_gno.Fork.Classes.Descent.{Descends, itself, child}

-- What a fork asks of headers and of payloads.
abbrev pub requirements : Methods → List Bool
requirements m =
    m.header.header_base_fee_required ∷ m.header.header_prev_randao_required
    ∷ m.header.header_zero_difficulty_required ∷ m.header.header_withdrawals_required
    ∷ m.header.header_excess_blob_gas_required ∷ m.header.header_blob_gas_used_required
    ∷ m.header.header_beacon_root_required ∷ m.header.header_requests_required
    ∷ m.blobs.supports_blobs ∷ m.engine.engine_new_payload_blob_hashes
    ∷ m.engine.engine_new_payload_beacon_root ∷ m.engine.engine_new_payload_requests ∷ []

-- What is true in the first list is true at the same place of the second.
abbrev pub is_kept : List Bool → List Bool → Bool
is_kept [] [] = true
is_kept (x ∷ xs) (y ∷ ys) = (not x || y) && is_kept xs ys
is_kept [] (y ∷ ys) = false
is_kept (x ∷ xs) [] = false

is_kept_refl : (xs : List Bool) → is_kept xs xs ≡ true
is_kept_refl [] = refl
is_kept_refl (true ∷ xs) = is_kept_refl xs
is_kept_refl (false ∷ xs) = is_kept_refl xs

or_trans : (x y z : Bool) → (not x || y) ≡ true → (not y || z) ≡ true → (not x || z) ≡ true
or_trans true true z h h' = h'
or_trans true false z h h' = cc
or_trans false y z h h' = refl

is_kept_trans :
    (xs ys zs : List Bool) → is_kept xs ys ≡ true → is_kept ys zs ≡ true → is_kept xs zs ≡ true
is_kept_trans [] [] [] h h' = refl
is_kept_trans [] (y ∷ ys) zs h h' = cc
is_kept_trans (x ∷ xs) [] zs h h' = cc
is_kept_trans [] [] (z ∷ zs) h h' = cc
is_kept_trans (x ∷ xs) (y ∷ ys) [] h h' = cc
is_kept_trans (x ∷ xs) (y ∷ ys) (z ∷ zs) h h' =
    let (h1, hs) = &&-eq-true (not x || y) (is_kept xs ys) h in
    let (h1', hs') = &&-eq-true (not y || z) (is_kept ys zs) h' in
    let first = or_trans x y z h1 h1' in let rest = is_kept_trans xs ys zs hs hs' in cc

-- The new list has the old one at its end.
abbrev pub Extends {ℓ} : {A : Type ℓ} → List A → List A → Type ℓ
Extends {A = A} old new = (added : List A) × (new ≡ added ++ old)

Extends-refl {ℓ} : {A : Type ℓ} (xs : List A) → Extends xs xs
Extends-refl xs = ([], refl)

Extends-trans {ℓ} : {A : Type ℓ} {xs ys zs : List A} → Extends xs ys → Extends ys zs → Extends xs zs
Extends-trans {xs = xs} (added, h) (added', h') =
    (added' ++ added, h' ∙ ap (λ ys. added' ++ ys) h ∙ sym (append_assoc added' added xs))

-- The first elements of a list.
abbrev first_of {ℓ} : {A : Type ℓ} → ℕ → List A → List A
first_of zero xs = []
first_of (suc n) [] = []
first_of (suc n) (x ∷ xs) = x ∷ first_of n xs

extends {ℓ} :
    {A : Type ℓ} {old new : List A} (n : ℕ) → new ≡ first_of n new ++ old → Extends old new
extends {new = new} n h = (first_of n new, h)

-- A later fork asks for what the earlier one asks for, has its transaction types, precompiles,
-- system contracts and opcodes, and pays no higher reward.
pub record Grows (old new : Methods) : Type 0 where
  pub asks : is_kept (requirements old) (requirements new) ≡ true
  pub types : Extends old.block.tx_types new.block.tx_types
  pub creating : Extends old.block.contract_creating_tx_types new.block.contract_creating_tx_types
  pub compiled : Extends old.block.precompiles new.block.precompiles
  pub contracts : Extends old.block.system_contracts new.block.system_contracts
  pub calls : Extends old.code.call_opcodes new.code.call_opcodes
  pub creates : Extends old.code.create_opcodes new.code.create_opcodes
  pub valid : Extends old.code.valid_opcodes new.code.valid_opcodes
  pub reward : new.block.get_reward ≤ old.block.get_reward

Grows-refl : (m : Methods) → Grows m m
Grows-refl m = record {
  asks = is_kept_refl (requirements m);
  types = Extends-refl _;
  creating = Extends-refl _;
  compiled = Extends-refl _;
  contracts = Extends-refl _;
  calls = Extends-refl _;
  creates = Extends-refl _;
  valid = Extends-refl _;
  reward = omega arith;
}

Grows-trans : (l m n : Methods) → Grows l m → Grows m n → Grows l n
Grows-trans l m n g h = record {
  asks = is_kept_trans (requirements l) (requirements m) (requirements n) g.asks h.asks;
  types = Extends-trans g.types h.types;
  creating = Extends-trans g.creating h.creating;
  compiled = Extends-trans g.compiled h.compiled;
  contracts = Extends-trans g.contracts h.contracts;
  calls = Extends-trans g.calls h.calls;
  creates = Extends-trans g.creates h.creates;
  valid = Extends-trans g.valid h.valid;
  reward = omega (arith, g.reward, h.reward);
}

abbrev GrowsFrom : Option Fork → Fork → Type 0
GrowsFrom none a = Unit
GrowsFrom (some p) a = Grows (methods p) (methods a)

-- The records of the growth from a parent, by the number of elements that each list is longer by.
grown :
    (old new : Methods) (types creating compiled contracts calls creates valid : ℕ)
    → is_kept (requirements old) (requirements new) ≡ true
    → new.block.tx_types ≡ first_of types new.block.tx_types ++ old.block.tx_types
    → new.block.contract_creating_tx_types
      ≡ first_of creating new.block.contract_creating_tx_types
        ++ old.block.contract_creating_tx_types
    → new.block.precompiles ≡ first_of compiled new.block.precompiles ++ old.block.precompiles
    → new.block.system_contracts
      ≡ first_of contracts new.block.system_contracts ++ old.block.system_contracts
    → new.code.call_opcodes ≡ first_of calls new.code.call_opcodes ++ old.code.call_opcodes
    → new.code.create_opcodes ≡ first_of creates new.code.create_opcodes ++ old.code.create_opcodes
    → new.code.valid_opcodes ≡ first_of valid new.code.valid_opcodes ++ old.code.valid_opcodes
    → new.block.get_reward ≤ old.block.get_reward
    → Grows old new
grown old new types creating compiled contracts calls creates valid h h1 h2 h3 h4 h5 h6 h7 h8 =
    record {
      asks = h;
      types = extends types h1;
      creating = extends creating h2;
      compiled = extends compiled h3;
      contracts = extends contracts h4;
      calls = extends calls h5;
      creates = extends creates h6;
      valid = extends valid h7;
      reward = h8;
    }

parent-Grows : (a : Fork) → GrowsFrom (parent a) a
parent-Grows frontier = tt
parent-Grows homestead =
    grown (methods frontier) (methods homestead) 0 0 4 0 1 0 1 refl refl refl refl refl refl refl
      refl (omega arith)
parent-Grows dao_fork = Grows-refl _
parent-Grows tangerine = Grows-refl _
parent-Grows spurious_dragon = Grows-refl _
parent-Grows byzantium =
    grown (methods homestead) (methods byzantium) 0 0 4 0 1 0 4 refl refl refl refl refl refl refl
      refl (omega arith)
parent-Grows constantinople =
    grown (methods byzantium) (methods constantinople) 0 0 0 0 0 1 5 refl refl refl refl refl refl
      refl refl (omega arith)
parent-Grows constantinople_fix = Grows-refl _
parent-Grows istanbul =
    grown (methods constantinople_fix) (methods istanbul) 0 0 1 0 0 0 2 refl refl refl refl refl
      refl refl refl (omega arith)
parent-Grows muir_glacier = Grows-refl _
parent-Grows berlin =
    grown (methods istanbul) (methods berlin) 1 1 0 0 0 0 0 refl refl refl refl refl refl refl refl
      (omega arith)
parent-Grows london =
    grown (methods berlin) (methods london) 1 1 0 0 0 0 1 refl refl refl refl refl refl refl refl
      (omega arith)
parent-Grows arrow_glacier = Grows-refl _
parent-Grows gray_glacier = Grows-refl _
parent-Grows paris =
    grown (methods london) (methods paris) 0 0 0 0 0 0 0 refl refl refl refl refl refl refl refl
      (omega arith)
parent-Grows shanghai =
    grown (methods paris) (methods shanghai) 0 0 0 0 0 0 1 refl refl refl refl refl refl refl refl
      (omega arith)
parent-Grows cancun =
    grown (methods shanghai) (methods cancun) 1 0 1 1 0 0 5 refl refl refl refl refl refl refl refl
      (omega arith)
parent-Grows prague =
    grown (methods cancun) (methods prague) 1 0 7 4 0 0 0 refl refl refl refl refl refl refl refl
      (omega arith)
parent-Grows osaka =
    grown (methods prague) (methods osaka) 0 0 1 0 0 0 1 refl refl refl refl refl refl refl refl
      (omega arith)
parent-Grows eof =
    grown (methods prague) (methods eof) 0 0 0 0 3 0 0 refl refl refl refl refl refl refl refl
      (omega arith)

-- A fork grows from each of the classes that it descends from.
pub Descends-Grows : {b a : Fork} → Descends b a → Grows (methods b) (methods a)
Descends-Grows {b} {a} itself = Grows-refl (methods b)
Descends-Grows {b} {a} (child {p = p} hp d) =
    let step = subst (λ o. GrowsFrom o a) hp (parent-Grows a) in
    Grows-trans (methods b) (methods p) (methods a) (Descends-Grows d) step
