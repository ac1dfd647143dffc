-- ===== src/Recovery.antt =====
-- crates/noired/src/recovery.rs: the capped-exponential recovery controller. A method that takes
-- `&mut self` returns the new controller; the clock is an argument of each call.
pub mod Run
pub mod Schedule
pub mod Invariant
pub mod Episodes
use noire.Base.{
  ℕ, ◌-◌, ◌^◌, min, Bool, true, false, not, ◌&&◌, ◌||◌, Option, none, some, ltb, if◌then◌else◌,
  saturating_add, saturating_mul, u32_max, u64_max,
}

abbrev pub initial_backoff_ms : ℕ
initial_backoff_ms = 25

abbrev pub max_backoff_ms : ℕ
max_backoff_ms = 1000

pub data RecoveryFault : Type 0 where
  core capture_stream source_stream input_unavailable default_changed : RecoveryFault

pub data RecoveryPhase : Type 0 where
  healthy backoff attempting : RecoveryPhase

pub record RecoveryAttempt : Type 0 where
  pub generation : ℕ  -- u64
  pub number : ℕ  -- u32
  pub fault : RecoveryFault

pub record RecoveryStats : Type 0 where
  pub faults : ℕ  -- u64
  pub attempts : ℕ  -- u64
  pub recoveries : ℕ  -- u64
  pub failures : ℕ  -- u64

pub record RecoveryController : Type 0 where
  pub phase : RecoveryPhase
  pub fault : Option RecoveryFault
  pub generation : ℕ  -- u64
  pub attempt : ℕ  -- u32
  pub due_millis : ℕ  -- u64
  pub stats : RecoveryStats

-- `RecoveryController::default()`.
abbrev pub default : RecoveryController
default = record {
  phase = healthy;
  fault = none;
  generation = 0;
  attempt = 0;
  due_millis = 0;
  stats = record { faults = 0; attempts = 0; recoveries = 0; failures = 0 };
}

abbrev pub is_healthy : RecoveryPhase → Bool
is_healthy healthy = true
is_healthy _ = false

abbrev pub is_backoff : RecoveryPhase → Bool
is_backoff backoff = true
is_backoff _ = false

abbrev pub is_attempting : RecoveryPhase → Bool
is_attempting attempting = true
is_attempting _ = false

abbrev pub is_core : RecoveryFault → Bool
is_core core = true
is_core _ = false

-- `self.fault == Some(RecoveryFault::Core)`.
abbrev pub is_some_core : Option RecoveryFault → Bool
is_some_core none = false
is_some_core (some f) = is_core f

unfoldable pub fault : RecoveryController → RecoveryFault → ℕ → RecoveryController
fault c f now_millis =
    if not (is_healthy c.phase)
    then (if is_core f && not (is_some_core c.fault)
        then record c { fault = some core; due_millis = min c.due_millis now_millis }
        else c)
    else record c {
      phase = backoff;
      fault = some f;
      generation = saturating_add u64_max c.generation 1;
      attempt = 0;
      due_millis = now_millis;
      stats = record (c.stats) { faults = saturating_add u64_max c.stats.faults 1 };
    }

-- The part of `poll` below `let fault = self.fault?`.
poll_due : RecoveryController → Option RecoveryFault → RecoveryController × Option RecoveryAttempt
poll_due c none = (c, none)
poll_due c (some f) =
    let number = saturating_add u32_max c.attempt 1 in
    (
      record c {
        phase = attempting;
        attempt = number;
        stats = record (c.stats) { attempts = saturating_add u64_max c.stats.attempts 1 };
      },
      some (record { generation = c.generation; number = number; fault = f }),
    )

unfoldable pub poll : RecoveryController → ℕ → RecoveryController × Option RecoveryAttempt
unfolding poll_due
poll c now_millis =
    if not (is_backoff c.phase) || ltb now_millis c.due_millis
    then (c, none)
    else poll_due c c.fault

-- The delay after the failed attempt number `attempt`. The exponent is at most 6, so the shift of
-- a u64 does not overflow.
unfoldable pub delay : ℕ → ℕ
delay attempt =
    min (saturating_mul u64_max initial_backoff_ms (2 ^ min (attempt - 1) 6)) max_backoff_ms

unfoldable pub failed : RecoveryController → ℕ → RecoveryController
failed c now_millis = if not (is_attempting c.phase) then c else record c {
  phase = backoff;
  due_millis = saturating_add u64_max now_millis (delay c.attempt);
  stats = record (c.stats) { failures = saturating_add u64_max c.stats.failures 1 };
}

unfoldable pub recovered : RecoveryController → RecoveryController
recovered c = if is_healthy c.phase then c else record c {
  phase = healthy;
  fault = none;
  attempt = 0;
  due_millis = 0;
  stats = record (c.stats) { recoveries = saturating_add u64_max c.stats.recoveries 1 };
}

unfoldable pub stop : RecoveryController → RecoveryController
stop c = record c { phase = healthy; fault = none; attempt = 0; due_millis = 0 }
