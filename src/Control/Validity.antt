-- ===== src/Control/Validity.antt =====
-- crates/noired/src/control.rs: requests and the validity of the configuration.
use noire.Base.{ℕ, ◌≡◌, refl, Bool, true, false, List, [], ◌∷◌, is_ok, arith}
use noire.Config.Types.{Config}
use noire.Config.Check.{validate}
use noire.Control.Ports.{AudioEngine, ConfigStore}
use noire.Control.Daemon.{Daemon}
use noire.Control.Commands.{
  Command, starts, stops, retries, selects, suppresses, strengthens, schedules, fails, prefers,
  Request, execute, run,
}
use noire.Control.Methods.{
  Moment, Reply, mutate, start, stop, select_input, set_suppression_enabled, set_strength,
  set_latency_profile, set_fail_mode, set_start_with_noise_reduction, retry,
}

prefers-Keeps :
    (c : Config) (b : Bool) → validate (record c { start_with_noise_reduction = b }) ≡ validate c
unfolding validate
prefers-Keeps c b = refl

module _ {E : AudioEngine} {S : ConfigStore} where
  abbrev Keeps : Reply E S → Type 0
  Keeps (next, reply) = is_ok (validate next.config) ≡ true

  mutate-Keeps :
      (d : Daemon E S) (expected : ℕ) (update : Config → Config) (m : Moment)
      → is_ok (validate d.config) ≡ true
      → Keeps (mutate d expected update m)
  unfolding mutate
  mutate-Keeps d expected update m h = ground arith

  execute-Keeps :
      (d : Daemon E S) (c : Command) (expected : ℕ) (m : Moment)
      → is_ok (validate d.config) ≡ true
      → Keeps (execute d (record { command = c; expected = expected; moment = m }))
  unfolding execute start stop retry select_input set_suppression_enabled set_strength
      set_latency_profile set_fail_mode set_start_with_noise_reduction
  execute-Keeps d starts expected m h =
      ground (arith, mutate-Keeps d expected (λ c. record c { active = true }) m h)
  execute-Keeps d stops expected m h =
      ground (arith, mutate-Keeps d expected (λ c. record c { active = false }) m h)
  execute-Keeps d retries expected m h = ground arith
  execute-Keeps d (selects s) expected m h = mutate-Keeps d expected _ m h
  execute-Keeps d (suppresses b) expected m h = mutate-Keeps d expected _ m h
  execute-Keeps d (strengthens n) expected m h = mutate-Keeps d expected _ m h
  execute-Keeps d (schedules p) expected m h = mutate-Keeps d expected _ m h
  execute-Keeps d (fails f) expected m h = mutate-Keeps d expected _ m h
  execute-Keeps d (prefers b) expected m h = ground (arith, prefers-Keeps d.config b)

  -- Whatever requests a daemon with a valid configuration gets, its configuration is valid.
  pub run_valid :
      (d : Daemon E S) (rs : List Request)
      → is_ok (validate d.config) ≡ true
      → is_ok (validate (run d rs).config) ≡ true
  unfolding run
  run_valid d [] h = h
  run_valid d (r ∷ rs) h =
      run_valid (execute d r).0 rs (execute-Keeps d r.command r.expected r.moment h)
