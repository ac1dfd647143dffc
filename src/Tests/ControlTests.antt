-- ===== src/Tests/ControlTests.antt =====
-- crates/noired/src/control.rs at concrete inputs: an engine that refuses the low latency profile,
-- a store that fails for a strength of zero, and the unit of a systemd manager.
use noire.Base.{
  ◌≤◌, ◌≡◌, ◌⊎◌, refl, Bool, true, false, [], ◌∷◌, none, ◌==◌, if◌then◌else◌, ok, err, is_ok, arith,
}
use noire.Config.Types.{LoadOutcome, primary, Config, default, low, balanced, LatencyProfile}
use noire.Config.Check.{validate}
use noire.Control.Ports.{
  degraded, running, audible, EngineError, default_observation, AudioEngine, ConfigStore,
  EngineContract, StoreContract,
}
use noire.Control.Daemon.{Daemon}
use noire.Control.Methods.{Moment, mutate, set_strength, set_latency_profile, next_revision}
use noire.Control.Launch.{set_launch_at_login}
use noire.Control.Commands.{Request, strengthens, schedules, execute, run}
use noire.Control.Atomic.{execute_atomic, run_revision}
use noire.Control.Convergence.{is_rollback, execute_converges}
use noire.Control.Systemd.{Bus, BusContract, set_enabled, systemd, systemd_contract}
use noire.Control.Refresh.{set_launch_at_login_agrees}

abbrev pub refusal : EngineError
refusal = record {
  code = "audio-command-busy";
  message = "busy";
  recovery = "wait";
  retryable = true;
}

abbrev pub is_low : LatencyProfile → Bool
is_low low = true
is_low balanced = false

abbrev pub engine : AudioEngine
engine = record {
  State = Config;
  apply = λ s c.
      if is_low c.output.latency_profile
      then (s, err refusal)
      else (c, ok (record default_observation { state = running }));
  retry = λ s c. (c, ok (record default_observation { state = running }));
  observe = λ s o. (s, ok (record o { state = running }));
  set_meter_monitoring = λ s b. (s, ok tt);
  inputs = λ s. (s, ok []);
}

abbrev store : ConfigStore
store = record {
  State = Config;
  save = λ s c. if c.suppression.strength == 0 then (s, err "full") else (c, ok tt);
}

-- A bus whose state is whether the unit is enabled, and that reloads or fails to.
abbrev bus : Bool → Bus
bus reloads = record {
  State = Bool;
  connect = λ s. (s, ok tt);
  enable_unit_files = λ s. (true, ok tt);
  disable_unit_files = λ s. (false, ok tt);
  reload = λ s. (s, if reloads then ok tt else err "timeout");
}

abbrev bus_contract : (reloads : Bool) → BusContract (bus reloads)
bus_contract reloads = record {
  enabled = λ s. s;
  enable_ok = λ s h. refl;
  disable_ok = λ s h. refl;
  reload_keeps = λ s. refl;
}

abbrev engine_contract : EngineContract engine
engine_contract = record {
  intent = λ s. s;
  apply_ok = λ s c h. ground arith;
  apply_err = λ s c h. ground arith;
  retry_intent = λ s c h. refl;
  observe_intent = λ s o. refl;
  meter_intent = λ s b. refl;
  inputs_intent = λ s. refl;
}

abbrev store_contract : StoreContract store
store_contract = record { saved = λ s. s; save_ok = λ s c h. ground arith }

abbrev quiet : Config
quiet = record default { output = record { latency_profile = balanced } }

abbrev loaded : LoadOutcome
loaded = record { config = quiet; source = primary; warning = none; writable = true }

abbrev daemon : Daemon engine store
daemon = record {
  store = quiet;
  config = quiet;
  writable = true;
  revision = 1;
  device_revision = 0;
  devices = [];
  engine = quiet;
  observation = default_observation;
  last_error = none;
}

abbrev pub moment : Moment
moment = record { now = 5; uptime = 2 }

abbrev silence : Request
silence = record { command = strengthens 0; expected = 1; moment = moment }

abbrev louder : Request
louder = record { command = strengthens 0x3fe0_0000_0000_0000; expected = 1; moment = moment }

abbrev off : Request
off = record { command = schedules low; expected = 2; moment = moment }

-- A failed save is rolled back, and the next request for revision 1 succeeds.
history_revision : (run daemon (silence ∷ louder ∷ off ∷ [])).revision ≡ 2
unfolding run execute set_latency_profile mutate set_strength validate
history_revision = refl

execute_atomic_example :
    ((execute daemon louder).0.config ≡ quiet)
    ⊎ ((is_ok (execute daemon louder).1 ≡ true)
        × ((execute daemon louder).0.revision ≡ next_revision daemon)
        × ((execute daemon louder).0.store ≡ (execute daemon louder).0.config))
execute_atomic_example = execute_atomic store_contract daemon louder

run_revision_example : (run daemon (silence ∷ louder ∷ [])).revision ≤ 3
run_revision_example = (run_revision daemon (silence ∷ louder ∷ []) (omega arith)).0

quiet-IsValid : is_ok (validate quiet) ≡ true
unfolding validate
quiet-IsValid = refl

execute_converges_example :
    (audible (execute daemon silence).0.engine ≡ audible (execute daemon silence).0.config)
    ⊎ ((is_rollback (execute daemon silence).1 ≡ true)
        × ((execute daemon silence).0.observation.state ≡ degraded))
execute_converges_example = execute_converges engine_contract daemon silence refl

set_launch_at_login_agrees_example :
    let after = set_launch_at_login (systemd (bus true)) daemon false true 1 moment in
    (after.1.config ≡ quiet)
    ⊎ ((is_ok after.2 ≡ true)
        × (after.1.store ≡ after.1.config)
        × (after.1.config.launch_at_login ≡ true)
        × (after.0 ≡ true))
unfolding systemd_contract
set_launch_at_login_agrees_example =
    (set_launch_at_login_agrees (systemd (bus true)) store_contract
      (systemd_contract (bus true) (bus_contract true)) daemon false true 1 moment refl).1

-- A reload that fails leaves the unit enabled, although the call is an error and the configuration
-- says that it is not.
reload_fails :
    let after = set_launch_at_login (systemd (bus false)) daemon false true 1 moment in
    (after.0 ≡ true) × (is_ok after.2 ≡ false) × (after.1.config.launch_at_login ≡ false)
unfolding set_launch_at_login set_enabled
reload_fails = (refl, refl, refl)
