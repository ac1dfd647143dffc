-- ===== src/Recovery/Invariant.antt =====
-- crates/noired/src/recovery.rs: the controller between two calls.
use noire.Base.{ℕ, ◌+◌, ◌≤◌, ◌<◌, ◌≡◌, ◌≢◌, ◌⊎◌, List, [], ◌∷◌, none, arith, u32_max, u64_max}
use noire.Recovery.{
  RecoveryController, default, healthy, attempting, fault, poll, failed, recovered, stop,
  max_backoff_ms,
}
use noire.Recovery.Schedule.{delay_doubles}
use noire.Recovery.Run.{Call, reports, polls, fails, recovers, stops, step, run}

-- An episode is open exactly when a fault is recorded; a healthy controller has no schedule; the
-- deadline is at most the cap ahead of the clock; every count fits its machine word; and no
-- counter of outcomes passes the counter of what they are outcomes of.
pub record IsValid (now : ℕ) (c : RecoveryController) : Type 0 where
  pub idle : (c.phase ≢ healthy) ⊎ ((c.fault ≡ none) × (c.attempt ≡ 0) × (c.due_millis ≡ 0))
  pub busy : (c.phase ≡ healthy) ⊎ (c.fault ≢ none)
  pub tried : (c.phase ≢ attempting) ⊎ (1 ≤ c.attempt)
  pub due_bound : c.due_millis ≤ now + max_backoff_ms
  pub due_word : c.due_millis ≤ u64_max
  pub attempt_word : c.attempt ≤ u32_max
  pub generation_word : c.generation ≤ u64_max
  pub faults_word : c.stats.faults ≤ u64_max
  pub attempts_word : c.stats.attempts ≤ u64_max
  pub recoveries_le : c.stats.recoveries ≤ c.stats.faults
  pub recoveries_lt :
      (c.phase ≡ healthy) ⊎ (c.stats.recoveries < c.stats.faults) ⊎ (c.stats.faults ≡ u64_max)
  pub failures_le : c.stats.failures ≤ c.stats.attempts
  pub failures_lt :
      (c.phase ≢ attempting) ⊎ (c.stats.failures < c.stats.attempts) ⊎ (c.stats.attempts ≡ u64_max)

default-IsValid : IsValid 0 default
default-IsValid = ground arith

step-IsValid :
    (c : RecoveryController) (e : Call) (now wait : ℕ)
    → now + wait ≤ u64_max
    → IsValid now c
    → IsValid (now + wait) (step c e (now + wait))
unfolding step fault poll failed recovered stop
step-IsValid c (reports f) now wait w v = ground arith
step-IsValid c polls now wait w v = ground arith
step-IsValid c fails now wait w v = ground (arith, delay_doubles c.attempt)
step-IsValid c recovers now wait w v = ground arith
step-IsValid c stops now wait w v = ground arith

run-time : (c : RecoveryController) (now : ℕ) (es : List (ℕ × Call)) → now ≤ (run c now es).1
unfolding run
run-time c now [] = omega arith
run-time c now ((wait, e) ∷ es) = omega (arith, run-time (step c e (now + wait)) (now + wait) es)

run-IsValid_from :
    (c : RecoveryController) (now : ℕ) (es : List (ℕ × Call))
    → (run c now es).1 ≤ u64_max
    → IsValid now c
    → IsValid (run c now es).1 (run c now es).0
unfolding run
run-IsValid_from c now [] w v = v
run-IsValid_from c now ((wait, e) ∷ es) w v =
    run-IsValid_from (step c e (now + wait)) (now + wait) es w (
      step-IsValid c e now wait (omega (arith, run-time (step c e (now + wait)) (now + wait) es)) v)

-- From the default controller, every sequence of calls at times that do not go back and stay
-- within a u64 ends in a valid controller: a fault is recorded exactly while an episode is open,
-- a healthy controller has no attempt count and no deadline, the deadline is at most one second
-- ahead of the clock, all words stay in range, recoveries never pass faults and failures never
-- pass attempts.
pub run-IsValid :
    (es : List (ℕ × Call))
    → (run default 0 es).1 ≤ u64_max
    → IsValid (run default 0 es).1 (run default 0 es).0
run-IsValid es w = run-IsValid_from default 0 es w default-IsValid
