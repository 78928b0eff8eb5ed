-- ===== src/Fork/Gas/Cost.antt =====
-- The intrinsic cost of a transaction (src/ethereum_test_forks/forks/forks.py).
use execution_spec_tests_gno.Base.{
  ℕ, ◌+◌, ◌*◌, max, ◌≡◌, Bool, true, false, ◌&&◌, ◌||◌, not, if◌then◌else◌, Option, none, some,
  arith, List, [], ◌∷◌, length, Result, ok, raise, assertion_error,
}
use native.Mathlib.Nat.{suc-mul, add-mul}
use execution_spec_tests_gno.Fork.GasCosts.{GasCosts}
use execution_spec_tests_gno.Fork.Gas.{
  AccessList, Transaction, CalldataCalculator, FloorCalculator, IntrinsicCalculator,
  ceiling_division, key_costs, access_costs, with_access, frontier_intrinsic, homestead_intrinsic,
  berlin_intrinsic, prague_intrinsic,
}

abbrev pub is_given {ℓ} : {A : Type ℓ} → Option A → Bool
is_given none = false
is_given (some a) = true

-- The number of storage keys of an access list.
abbrev pub key_count : List AccessList → ℕ
key_count [] = 0
key_count (a ∷ entries) = length a.storage_keys + key_count entries

module _ (g : GasCosts) where
  key_costs-eq :
      (cost : ℕ) (ks : List ℕ) → key_costs g cost ks ≡ cost + length ks * g.g_access_list_storage
  unfolding key_costs
  key_costs-eq cost [] = omega arith
  key_costs-eq cost (k ∷ ks) =
      let rest = key_costs-eq (cost + g.g_access_list_storage) ks in
      let more = suc-mul (length ks) g.g_access_list_storage in omega arith

  access_costs-eq :
      (cost : ℕ) (entries : List AccessList)
      → access_costs g cost entries
        ≡ cost
          + length entries * g.g_access_list_address
          + key_count entries * g.g_access_list_storage
  unfolding access_costs
  access_costs-eq cost [] = omega arith
  access_costs-eq cost (a ∷ entries) =
      let rest =
        access_costs-eq (key_costs g (cost + g.g_access_list_address) a.storage_keys) entries in
      let keys = key_costs-eq (cost + g.g_access_list_address) a.storage_keys in
      let more = suc-mul (length entries) g.g_access_list_address in
      let more_keys = add-mul (length a.storage_keys) (key_count entries) g.g_access_list_storage in
      omega arith

  abbrev pub access_charge : Option (List AccessList) → ℕ
  access_charge none = 0
  access_charge (some entries) =
      length entries * g.g_access_list_address + key_count entries * g.g_access_list_storage

  abbrev pub authorization_charge : Option ℕ → ℕ
  authorization_charge none = 0
  authorization_charge (some n) = n * g.g_authorization

  with_access-eq :
      (cost : ℕ) (entries : Option (List AccessList))
      → with_access g cost entries ≡ cost + access_charge entries
  with_access-eq cost none = omega arith
  with_access-eq cost (some entries) = let accessed = access_costs-eq cost entries in omega arith

  module _ (calldata_gas : CalldataCalculator) where
    -- What a transaction is charged: the base cost, the creation, the calldata, the access list and
    -- the authorizations.
    abbrev pub charge : (creation : ℕ) → Transaction → ℕ
    charge creation t =
        g.g_transaction
        + (if t.contract_creation
            then g.g_initcode_word * ceiling_division (length t.calldata) 32 + creation
            else 0)
        + calldata_gas t.calldata false
        + access_charge t.access_list
        + authorization_charge t.authorizations

    -- The charge, or an assertion error where the transaction has what is not allowed.
    abbrev pub allowed_charge : (access authorizations : Bool) → ℕ → Transaction → Result ℕ
    allowed_charge access authorizations creation t =
        if not access && is_given t.access_list || not authorizations && is_given t.authorizations
        then raise assertion_error
        else ok (charge creation t)

    abbrev pub Charges : (access authorizations : Bool) → ℕ → IntrinsicCalculator → Type 0
    Charges access authorizations creation calculator =
        (t : Transaction) → calculator t ≡ allowed_charge access authorizations creation t

    pub frontier-Charges : Charges false false 0 (frontier_intrinsic g calldata_gas)
    unfolding frontier_intrinsic
    frontier-Charges t = ground arith

    pub homestead-Charges :
        (access authorizations : Bool) (super : IntrinsicCalculator)
        → Charges access authorizations 0 super
        → Charges access authorizations g.g_transaction_create (homestead_intrinsic g super)
    unfolding homestead_intrinsic
    homestead-Charges access authorizations super h t =
        let before = h (record t { return_cost_deducted_prior_execution = false }) in ground arith

    pub berlin-Charges :
        (authorizations : Bool) (creation : ℕ) (super : IntrinsicCalculator)
        → Charges false authorizations creation super
        → Charges true authorizations creation (berlin_intrinsic g super)
    unfolding berlin_intrinsic
    berlin-Charges authorizations creation super h t =
        let plain = record t { access_list = none; return_cost_deducted_prior_execution = false } in
        let before = h plain in
        let accessed = with_access-eq (charge creation plain) t.access_list in ground arith

    -- At Prague the charge is at least the floor, but for what is deducted before execution.
    pub prague-Charges :
        (creation : ℕ) (floor : FloorCalculator) (super : IntrinsicCalculator)
        → Charges true false creation super
        → (t : Transaction)
        → prague_intrinsic g floor super t
          ≡ ok (
              if t.return_cost_deducted_prior_execution
              then charge creation t
              else max (charge creation t) (floor t.calldata))
    unfolding prague_intrinsic
    prague-Charges creation floor super h t =
        let before =
          h (record t { authorizations = none; return_cost_deducted_prior_execution = false }) in
        ground arith
