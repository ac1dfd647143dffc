-- ===== src/Control/Ports.antt =====
-- crates/noired/src/control.rs: the daemon's view of the audio engine, and of what it persists
-- with. An engine, a store and a launch manager are states with operations on them. The contract of
-- the engine is from the documentation of its trait; those of the store and of the launch manager
-- say only what a call that succeeds has done.
use noire.Base.{◌≡◌, Bool, List, [], Option, none, Result, is_ok, true, false}
use noire.Base.Text.{String}
use noire.Config.Types.{Config}
use noire.Ipc.{Metrics, no_metrics, InputDescriptor}

pub data LifecycleState : Type 0 where
  stopped running degraded : LifecycleState

-- `Display` of the state.
abbrev pub lifecycle_text : LifecycleState → String
lifecycle_text stopped = "stopped"
lifecycle_text running = "running"
lifecycle_text degraded = "degraded"

pub record EngineError : Type 0 where
  pub code : String
  pub message : String
  pub recovery : String
  pub retryable : Bool

pub record EngineObservation : Type 0 where
  pub state : LifecycleState
  pub input_display_name : String
  pub pipewire_version : String
  pub metrics : Metrics
  pub fault : Option EngineError
  pub devices : List InputDescriptor

abbrev pub default_observation : EngineObservation
default_observation = record {
  state = stopped;
  input_display_name = "";
  pipewire_version = "";
  metrics = no_metrics;
  fault = none;
  devices = [];
}

pub record AudioEngine : Type 1 where
  pub State : Type 0
  pub apply : State → Config → State × Result EngineError EngineObservation
  pub retry : State → Config → State × Result EngineError EngineObservation
  pub observe : State → EngineObservation → State × Result EngineError EngineObservation
  pub set_meter_monitoring : State → Bool → State × Result EngineError (Unit {0})
  pub inputs : State → State × Result EngineError (List InputDescriptor)

-- `save`, with the text of its error.
pub record ConfigStore : Type 1 where
  pub State : Type 0
  pub save : State → Config → State × Result String (Unit {0})

-- `set_enabled`, with the text of its error.
pub record LaunchManager : Type 1 where
  pub State : Type 0
  pub set_enabled : State → Bool → State × Result String (Unit {0})

-- What a config says to the engine: the preferences that only concern the start are left out.
abbrev pub audible : Config → Config
audible c = record c { start_with_noise_reduction = false; launch_at_login = false }

-- "Applies a fully validated complete config or leaves previous intent intact"; the other
-- operations do not change the intent.
pub record EngineContract (E : AudioEngine) : Type 0 where
  pub intent : E.State → Config
  pub apply_ok :
      (s : E.State) (c : Config) → is_ok (E.apply s c).1 ≡ true → intent (E.apply s c).0 ≡ c
  pub apply_err :
      (s : E.State) (c : Config) → is_ok (E.apply s c).1 ≡ false → intent (E.apply s c).0 ≡ intent s
  pub retry_intent :
      (s : E.State) (c : Config)
      → audible (intent s) ≡ audible c
      → audible (intent (E.retry s c).0) ≡ audible c
  pub observe_intent : (s : E.State) (o : EngineObservation) → intent (E.observe s o).0 ≡ intent s
  pub meter_intent : (s : E.State) (b : Bool) → intent (E.set_meter_monitoring s b).0 ≡ intent s
  pub inputs_intent : (s : E.State) → intent (E.inputs s).0 ≡ intent s

-- A save that succeeds has replaced the authoritative file. One that fails promises nothing.
pub record StoreContract (S : ConfigStore) : Type 0 where
  pub saved : S.State → Config
  pub save_ok : (s : S.State) (c : Config) → is_ok (S.save s c).1 ≡ true → saved (S.save s c).0 ≡ c

-- "Enables or disables the Noire user unit": a call that succeeds has done so. One that fails
-- promises nothing.
pub record ManagerContract (M : LaunchManager) : Type 0 where
  pub enabled : M.State → Bool
  pub set_ok :
      (s : M.State) (b : Bool)
      → is_ok (M.set_enabled s b).1 ≡ true
      → enabled (M.set_enabled s b).0 ≡ b
