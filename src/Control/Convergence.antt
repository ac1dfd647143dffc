-- ===== src/Control/Convergence.antt =====
-- crates/noired/src/control.rs: the engine's intent beside the configuration.
use noire.Base.{ℕ, ◌≡◌, ◌⊎◌, Bool, true, false, Result, err, arith}
use noire.Config.Types.{Config}
use noire.Ipc.{Snapshot}
use noire.Control.Ports.{degraded, audible, AudioEngine, ConfigStore, EngineContract}
use noire.Control.Daemon.{Daemon, ControlError, persistence_rollback}
use noire.Control.Commands.{
  Command, starts, stops, retries, selects, suppresses, strengthens, schedules, fails, prefers,
  Request, execute,
}
use noire.Control.Methods.{
  Moment, Reply, mutate, start, stop, select_input, set_suppression_enabled, set_strength,
  set_latency_profile, set_fail_mode, set_start_with_noise_reduction, retry,
}

abbrev pub is_rollback : Result ControlError Snapshot → Bool
is_rollback (err (persistence_rollback text e)) = true
is_rollback _ = false

module _ {E : AudioEngine} {S : ConfigStore} (C : EngineContract E) where
  -- The engine carries out the configuration, or the rollback failed, and the daemon says so.
  abbrev Converged : Reply E S → Type 0
  Converged (next, reply) =
      (audible (C.intent next.engine) ≡ audible next.config)
      ⊎ ((is_rollback reply ≡ true) × (next.observation.state ≡ degraded))

  mutate-Converged :
      (d : Daemon E S) (expected : ℕ) (update : Config → Config) (m : Moment)
      → audible (C.intent d.engine) ≡ audible d.config
      → Converged (mutate d expected update m)
  unfolding mutate
  mutate-Converged d expected update m h = ground (
    arith,
    C.apply_ok d.engine (update d.config),
    C.apply_err d.engine (update d.config),
    C.apply_ok (E.apply d.engine (update d.config)).0 d.config,
  )

  execute-Converged :
      (d : Daemon E S) (c : Command) (expected : ℕ) (m : Moment)
      → audible (C.intent d.engine) ≡ audible d.config
      → Converged (execute d (record { command = c; expected = expected; moment = m }))
  unfolding execute start stop retry select_input set_suppression_enabled set_strength
      set_latency_profile set_fail_mode set_start_with_noise_reduction
  execute-Converged d starts expected m h =
      ground (arith, mutate-Converged d expected (λ c. record c { active = true }) m h)
  execute-Converged d stops expected m h =
      ground (arith, mutate-Converged d expected (λ c. record c { active = false }) m h)
  execute-Converged d retries expected m h = ground (arith, C.retry_intent d.engine d.config h)
  execute-Converged d (selects s) expected m h = mutate-Converged d expected _ m h
  execute-Converged d (suppresses b) expected m h = mutate-Converged d expected _ m h
  execute-Converged d (strengthens n) expected m h = mutate-Converged d expected _ m h
  execute-Converged d (schedules p) expected m h = mutate-Converged d expected _ m h
  execute-Converged d (fails f) expected m h = mutate-Converged d expected _ m h
  execute-Converged d (prefers b) expected m h = ground arith

  -- If the engine carries out the configuration (up to the preferences that only concern the
  -- start), then after any request, whatever it answers, the engine carries out the configuration
  -- that the daemon then has, or the answer says that the rollback after a failed save failed, and
  -- the daemon is degraded.
  pub execute_converges :
      (d : Daemon E S) (r : Request)
      → audible (C.intent d.engine) ≡ audible d.config
      → (audible (C.intent (execute d r).0.engine) ≡ audible (execute d r).0.config)
        ⊎ ((is_rollback (execute d r).1 ≡ true) × ((execute d r).0.observation.state ≡ degraded))
  execute_converges d r h = execute-Converged d r.command r.expected r.moment h
