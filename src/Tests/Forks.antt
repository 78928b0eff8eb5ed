-- ===== src/Tests/Forks.antt =====
-- Forks at concrete inputs (src/ethereum_test_forks).
use execution_spec_tests_gno.Base.{
  ◌≡◌, refl, true, false, none, some, [], ◌∷◌, map, if◌then◌else◌, ok, raise, type_error, ◌>>=◌,
}
use execution_spec_tests_gno.Base.Bytes.{Bytes}
use execution_spec_tests_gno.Base.Dict.{keys}
use execution_spec_tests_gno.Fork.Classes.{
  methods, is_subclass, shanghai, cancun, osaka, eof, london,
}
use execution_spec_tests_gno.Fork.Classes.Descent.{Descends, itself, child}
use execution_spec_tests_gno.Fork.Classes.Growth.{Grows, Descends-Grows}
use execution_spec_tests_gno.Fork.Transition.{plain, lt}
use execution_spec_tests_gno.Fork.Ranges.{forks_from_until, forks_from, fork_in_range, walk_back}
use execution_spec_tests_gno.Fork.Ranges.Chain.{is_range, forks_from_until-is_range}
use execution_spec_tests_gno.Fork.PreAllocation.{Files, pre_allocation_blockchain}
use execution_spec_tests_gno.Fork.PreAllocation.Contracts.{pre_allocation-system_contracts}

osaka-Descends : Descends cancun osaka
osaka-Descends = child refl (child refl itself)

Descends-Grows_example : Grows (methods cancun) (methods osaka)
Descends-Grows_example = Descends-Grows osaka-Descends

forks_from_until-is_range_example :
    is_range london shanghai (forks_from_until london shanghai) ≡ true
forks_from_until-is_range_example = forks_from_until-is_range london shanghai

-- `forks_from(Osaka, deployed_only=False)` is empty: the last class of forks.py is `EOFv1`.
forks_from-test : forks_from osaka false ≡ some []
unfolding forks_from forks_from_until walk_back
forks_from-test = refl

-- `EOFv1` is in the range ">=Osaka", which it does not descend from.
fork_in_range-test :
    fork_in_range (record { greater_equal = some (plain osaka); less_than = none }) (plain eof)
    ≡ true
unfolding fork_in_range lt is_subclass
fork_in_range-test = refl

-- A stand-in for the hash, and for the files.
abbrev first_byte : Bytes → Bytes
first_byte [] = []
first_byte (b ∷ bs) = b ∷ []

abbrev short_files : Files
short_files = record {
  deposit_contract = 1 ∷ [];
  withdrawal_request = 2 ∷ [];
  consolidation_request = 3 ∷ [];
  history_contract = 4 ∷ [];
}

pre_allocation-system_contracts_example :
    (pre_allocation_blockchain first_byte short_files shanghai >>= λ d. ok (keys d)) ≡ (
      if is_subclass shanghai cancun
      then ok (map (λ a. a.value) (methods shanghai).block.system_contracts)
      else raise type_error)
pre_allocation-system_contracts_example =
    pre_allocation-system_contracts first_byte short_files shanghai
