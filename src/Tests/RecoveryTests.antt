-- ===== src/Tests/RecoveryTests.antt =====
-- crates/noired/src/recovery.rs at concrete inputs.
use noire.Base.{ℕ, ◌+◌, ◌≡◌, refl, List, [], ◌∷◌, some, arith}
use noire.Recovery.{
  RecoveryController, default, delay, backoff, core, input_unavailable, capture_stream, fault, poll,
  failed,
}
use noire.Recovery.Run.{Call, reports, polls, fails, step, run}
use noire.Recovery.Invariant.{IsValid, run-IsValid}
use noire.Recovery.Episodes.{rounds, rounds_schedule}

abbrev calls : List (ℕ × Call)
calls = (10, reports input_unavailable) ∷ (0, polls) ∷ (5, fails) ∷ (3, reports core) ∷ []

-- The core loss brings the deadline forward from 40 to 18.
calls_due : ((run default 0 calls).0.due_millis ≡ 18) × ((run default 0 calls).0.fault ≡ some core)
unfolding run step fault poll failed delay
calls_due = (refl, refl)

run-IsValid_example : IsValid (run default 0 calls).1 (run default 0 calls).0
unfolding run
run-IsValid_example = run-IsValid calls (omega arith)

abbrev waiting : RecoveryController
waiting = record default {
  phase = backoff;
  fault = some capture_stream;
  attempt = 2;
  due_millis = 50;
  generation = 1;
  stats = record { faults = 1; attempts = 2; recoveries = 0; failures = 2 };
}

waiting-IsValid : IsValid 30 waiting
waiting-IsValid = ground arith

rounds_schedule_example : (rounds (2 + 6) (fault default core 100)).due_millis ≡ 3675
rounds_schedule_example = (rounds_schedule 2 default core 100 refl (omega arith) (omega arith)).4
