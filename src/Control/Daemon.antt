-- ===== src/Control/Daemon.antt =====
-- crates/noired/src/control.rs: `Daemon` and its methods.
use noire.Base.{ℕ, Bool, true, false, not, ◌&&◌, List, [], ◌∷◌, Option, none, some}
use noire.Base.Text.{String, str_eq}
use noire.Config.Types.{
  Config, InputMode, selected, follow_default, LatencyProfile, low, balanced, FailMode, closed,
  opened,
}
use noire.Ipc.{ErrorInfo, no_error_info, InputDescriptor, error_catalog_entry, ErrorCatalogEntry}
use noire.Control.Ports.{
  LifecycleState, stopped, running, degraded, EngineError, EngineObservation, AudioEngine,
  ConfigStore,
}

pub data ControlError : Type 0 where
  conflict : (expected current : ℕ) → ControlError
  invalid : String → ControlError
  audio : EngineError → ControlError
  persistence : String → ControlError
  persistence_rollback : String → EngineError → ControlError
  read_only : ControlError
  launch_manager : String → ControlError

-- `CARGO_PKG_VERSION` and `noire_pipewire::RESERVED_NODE_NAME`.
abbrev pub build_version : String
build_version = "1.1.16"

abbrev pub reserved_node_name : String
reserved_node_name = "io.github.rayan6ms.Noire.Microphone"

error_info_from : EngineError → ℕ → Option ErrorCatalogEntry → ErrorInfo
error_info_from e now none = record {
  code = e.code;
  message = e.message;
  recovery = e.recovery;
  component = "audio";
  retryable = e.retryable;
  timestamp_millis = now;
}
error_info_from e now (some entry) = record {
  code = entry.code;
  message = entry.cause;
  recovery = entry.recovery;
  component = "audio";
  retryable = entry.retryable;
  timestamp_millis = now;
}

unfoldable pub error_info : EngineError → ℕ → ErrorInfo
unfolding error_info_from
error_info e now = error_info_from e now (error_catalog_entry e.code)

abbrev pub descriptor_eq : InputDescriptor → InputDescriptor → Bool
descriptor_eq a b =
    str_eq a.stable_id b.stable_id
    && str_eq a.display_name b.display_name
    && bool_eq a.is_default b.is_default
    && str_eq a.availability b.availability
  where
    bool_eq : Bool → Bool → Bool
    bool_eq true b = b
    bool_eq false b = not b

-- `==` of two device lists.
unfoldable pub devices_eq : List InputDescriptor → List InputDescriptor → Bool
devices_eq [] [] = true
devices_eq (a ∷ as') (b ∷ bs) = descriptor_eq a b && devices_eq as' bs
devices_eq _ _ = false

abbrev pub state_eq : LifecycleState → LifecycleState → Bool
state_eq stopped stopped = true
state_eq running running = true
state_eq degraded degraded = true
state_eq _ _ = false

abbrev pub is_degraded : LifecycleState → Bool
is_degraded degraded = true
is_degraded _ = false

-- The code of a fault, and `==` of two of them.
abbrev pub fault_code_eq : Option EngineError → Option EngineError → Bool
fault_code_eq none none = true
fault_code_eq (some a) (some b) = str_eq a.code b.code
fault_code_eq _ _ = false

abbrev pub input_mode_text : InputMode → String
input_mode_text selected = "selected"
input_mode_text follow_default = "follow-default"

abbrev pub latency_text : LatencyProfile → String
latency_text low = "low"
latency_text balanced = "balanced"

abbrev pub fail_mode_text : FailMode → String
fail_mode_text closed = "closed"
fail_mode_text opened = "open"

abbrev pub info_or_default : Option ErrorInfo → ErrorInfo
info_or_default none = no_error_info
info_or_default (some e) = e

abbrev pub is_some_info : Option ErrorInfo → Bool
is_some_info none = false
is_some_info (some e) = true

abbrev pub is_audio_error : Option ErrorInfo → Bool
is_audio_error none = false
is_audio_error (some e) = str_eq e.component "audio"

pub record Daemon (E : AudioEngine) (S : ConfigStore) : Type 0 where
  pub store : S.State
  pub config : Config
  pub writable : Bool
  pub revision : ℕ  -- u64
  pub device_revision : ℕ  -- u64
  pub devices : List InputDescriptor
  pub engine : E.State
  pub observation : EngineObservation
  pub last_error : Option ErrorInfo
