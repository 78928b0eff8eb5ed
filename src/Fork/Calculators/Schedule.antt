-- ===== src/Fork/Calculators/Schedule.antt =====
-- The blob schedule of each fork (src/ethereum_test_forks/forks/forks.py).
use execution_spec_tests_gno.Base.{
  ◌≡◌, refl, Bool, true, false, ◌&&◌, not, every, if◌then◌else◌, Option, none, some, Result, ok,
  raise, ◌==◌,
}
use execution_spec_tests_gno.Base.Dict.{Dict, lookup}
use execution_spec_tests_gno.Fork.Classes.{
  Fork, place, all_forks, is_subclass, mro, bases_from, cancun,
}
use execution_spec_tests_gno.Fork.Classes.Descent.{every_fork}
use execution_spec_tests_gno.Fork.Calculators.{
  ForkBlobSchedule, current_schedule, blob_schedule, schedule_of,
}

abbrev is_entry : Result ForkBlobSchedule → Option ForkBlobSchedule → Bool
is_entry (ok s) (some e) =
    s.target_blobs_per_block == e.target_blobs_per_block
    && s.max_blobs_per_block == e.max_blobs_per_block
    && s.base_fee_update_fraction == e.base_fee_update_fraction
is_entry (ok s) none = false
is_entry (raise error) e = false

abbrev is_absent : Option ForkBlobSchedule → Bool
is_absent none = true
is_absent (some e) = false

-- A run of `blob_schedule` is right: below Cancun there is none; from Cancun on it has an entry for
-- each class from Cancun to the fork, which is the class's own, and no other.
abbrev pub is_schedule : Fork → Result (Option (Dict ForkBlobSchedule)) → Bool
is_schedule f (ok none) = not (is_subclass f cancun)
is_schedule f (ok (some d)) =
    is_subclass f cancun
    && every
        (λ b.
          if is_subclass f b && is_subclass b cancun
          then is_entry (current_schedule b) (lookup (place b) d)
          else is_absent (lookup (place b) d))
        all_forks
is_schedule f (raise error) = false

-- `blob_schedule` returns at every fork: none below Cancun, and from Cancun on an entry for each class
-- from Cancun to the fork, which has the class's own target, maximum and fraction, and no other entry.
blob_schedule-is_schedule : (f : Fork) → is_schedule f (blob_schedule f) ≡ true
unfolding blob_schedule schedule_of is_subclass mro bases_from
blob_schedule-is_schedule = every_fork (λ f. is_schedule f (blob_schedule f)) refl
