-- ===== src/Control/Commands.antt =====
-- crates/noired/src/control.rs: the client's mutations as data, so that a history is a list.
use noire.Base.{ℕ, Bool, List, [], ◌∷◌}
use noire.Base.Text.{String}
use noire.Config.Types.{LatencyProfile, FailMode}
use noire.Control.Ports.{AudioEngine, ConfigStore}
use noire.Control.Daemon.{Daemon}
use noire.Control.Methods.{
  Moment, Reply, start, stop, select_input, set_suppression_enabled, set_strength,
  set_latency_profile, set_fail_mode, set_start_with_noise_reduction, retry,
}

pub data Command : Type 0 where
  starts stops retries : Command
  selects : String → Command
  suppresses : Bool → Command
  strengthens : ℕ → Command
  schedules : LatencyProfile → Command
  fails : FailMode → Command
  prefers : Bool → Command

-- A command, the revision that its client expects, and the moment of the call.
pub record Request : Type 0 where
  pub command : Command
  pub expected : ℕ
  pub moment : Moment

module _ {E : AudioEngine} {S : ConfigStore} where
  execute_command : Daemon E S → Command → ℕ → Moment → Reply E S
  execute_command d starts expected m = start d expected m
  execute_command d stops expected m = stop d expected m
  execute_command d retries expected m = retry d expected m
  execute_command d (selects s) expected m = select_input d s expected m
  execute_command d (suppresses b) expected m = set_suppression_enabled d b expected m
  execute_command d (strengthens n) expected m = set_strength d n expected m
  execute_command d (schedules p) expected m = set_latency_profile d p expected m
  execute_command d (fails f) expected m = set_fail_mode d f expected m
  execute_command d (prefers b) expected m = set_start_with_noise_reduction d b expected m

  unfoldable pub execute : Daemon E S → Request → Reply E S
  unfolding execute_command
  execute d r = execute_command d r.command r.expected r.moment

  unfoldable pub run : Daemon E S → List Request → Daemon E S
  run d [] = d
  run d (r ∷ rs) = run (execute d r).0 rs
