-- ===== src/Control/Transaction.antt =====
-- crates/noired/src/control.rs: what a request may change.
use noire.Base.{ℕ, ◌≡◌, ◌≢◌, ◌∙◌, true, false, err, arith}
use noire.Config.Types.{Config}
use noire.Control.Ports.{AudioEngine, ConfigStore}
use noire.Control.Daemon.{Daemon, conflict}
use noire.Control.Commands.{
  Command, starts, stops, retries, selects, suppresses, strengthens, schedules, fails, prefers,
  Request, execute,
}
use noire.Control.Methods.{
  Moment, Reply, mutate, start, stop, select_input, set_suppression_enabled, set_strength,
  set_latency_profile, set_fail_mode, set_start_with_noise_reduction, retry,
}

module _ {E : AudioEngine} {S : ConfigStore} where
  mutate_stale :
      (d : Daemon E S) (expected : ℕ) (update : Config → Config) (m : Moment)
      → expected ≢ d.revision
      → mutate d expected update m ≡ (d, err (conflict expected d.revision))
  unfolding mutate
  mutate_stale d expected update m h = ground arith

  execute_stale_command :
      (d : Daemon E S) (c : Command) (expected : ℕ) (m : Moment)
      → expected ≢ d.revision
      → execute d (record { command = c; expected = expected; moment = m })
        ≡ (d, err (conflict expected d.revision))
  unfolding execute start stop retry select_input set_suppression_enabled set_strength
      set_latency_profile set_fail_mode set_start_with_noise_reduction
  execute_stale_command d starts expected m h = ground arith
  execute_stale_command d stops expected m h = ground arith
  execute_stale_command d retries expected m h = ground arith
  execute_stale_command d (selects s) expected m h = mutate_stale d expected _ m h
  execute_stale_command d (suppresses b) expected m h = mutate_stale d expected _ m h
  execute_stale_command d (strengthens n) expected m h = mutate_stale d expected _ m h
  execute_stale_command d (schedules p) expected m h = mutate_stale d expected _ m h
  execute_stale_command d (fails f) expected m h = mutate_stale d expected _ m h
  execute_stale_command d (prefers b) expected m h = ground arith

  -- A request that expects another revision than the current one, whatever its command, gets a
  -- conflict that names both revisions, and changes nothing: not the daemon, not the engine, not
  -- the store.
  pub execute_stale :
      (d : Daemon E S) (r : Request)
      → r.expected ≢ d.revision
      → execute d r ≡ (d, err (conflict r.expected d.revision))
  execute_stale d r h = execute_stale_command d r.command r.expected r.moment h

  -- What no request changes, and what a read-only daemon keeps.
  abbrev KeepsFile : Daemon E S → Reply E S → Type 0
  KeepsFile d (next, reply) =
      (next.config ≡ d.config) × (next.store ≡ d.store) × (next.writable ≡ d.writable)

  mutate_read_only :
      (d : Daemon E S) (expected : ℕ) (update : Config → Config) (m : Moment)
      → d.writable ≡ false
      → KeepsFile d (mutate d expected update m)
  unfolding mutate
  mutate_read_only d expected update m h = ground arith

  execute_read_only_command :
      (d : Daemon E S) (c : Command) (expected : ℕ) (m : Moment)
      → d.writable ≡ false
      → KeepsFile d (execute d (record { command = c; expected = expected; moment = m }))
  unfolding execute start stop retry select_input set_suppression_enabled set_strength
      set_latency_profile set_fail_mode set_start_with_noise_reduction
  execute_read_only_command d starts expected m h =
      ground (arith, mutate_read_only d expected (λ c. record c { active = true }) m h)
  execute_read_only_command d stops expected m h =
      ground (arith, mutate_read_only d expected (λ c. record c { active = false }) m h)
  execute_read_only_command d retries expected m h = ground arith
  execute_read_only_command d (selects s) expected m h = mutate_read_only d expected _ m h
  execute_read_only_command d (suppresses b) expected m h = mutate_read_only d expected _ m h
  execute_read_only_command d (strengthens n) expected m h = mutate_read_only d expected _ m h
  execute_read_only_command d (schedules p) expected m h = mutate_read_only d expected _ m h
  execute_read_only_command d (fails f) expected m h = mutate_read_only d expected _ m h
  execute_read_only_command d (prefers b) expected m h = ground arith

  -- On a daemon that started read-only (the file is of a newer schema), a request leaves the
  -- configuration and the store as they were, whatever its command, and the daemon stays
  -- read-only.
  pub execute_read_only :
      (d : Daemon E S) (r : Request)
      → d.writable ≡ false
      → ((execute d r).0.config ≡ d.config)
        × ((execute d r).0.store ≡ d.store)
        × ((execute d r).0.writable ≡ false)
  execute_read_only d r h =
      let kept = execute_read_only_command d r.command r.expected r.moment h in
      (kept.0, kept.1, kept.2 ∙ h)
