-- ===== src/Ipc.antt =====
-- crates/noire-ipc/src/lib.rs: the public control-plane types and the error catalogue.
use noire.Base.{ℕ, Bool, true, false, List, [], ◌∷◌, Option, none, some, if◌then◌else◌}
use noire.Base.Text.{String, str_eq}

abbrev pub snapshot_schema_version : ℕ
snapshot_schema_version = 1

abbrev pub api_version : String
api_version = "1.0"

pub record ErrorCatalogEntry : Type 0 where
  pub code : String
  pub cause : String
  pub recovery : String
  pub retryable : Bool

abbrev entry : String → String → String → Bool → ErrorCatalogEntry
entry code cause recovery retryable = record {
  code = code;
  cause = cause;
  recovery = recovery;
  retryable = retryable;
}

unfoldable pub error_catalog : List ErrorCatalogEntry
error_catalog =
    entry "conflict" "Another client committed a newer state revision."
      "Refresh daemon state and retry." true
    ∷ entry "invalid-argument" "A requested setting failed complete validation."
        "Correct the rejected value and retry." false
    ∷ entry "config-persistence" "The validated configuration could not be saved durably."
        "Check configuration directory permissions and free storage." true
    ∷ entry "config-rollback-failed"
        "Noire could not restore the previous audio state after a configuration save failed."
        "Restart Noire, then check configuration permissions and free storage." false
    ∷ entry "config-newer-schema" "The configuration was written by a newer incompatible daemon."
        "Run a daemon supporting that schema; the file remains untouched." false
    ∷ entry "config-recovered"
        "The primary configuration was invalid and a safe fallback was loaded."
        "Inspect the preserved primary configuration and correct it." false
    ∷ entry "input-unavailable" "The selected or default input is not currently available."
        "Select an available input or enable explicit default fallback." true
    ∷ entry "pipewire-unavailable" "The per-user PipeWire service cannot be reached."
        "Restore the user PipeWire session and retry." true
    ∷ entry "audio-backend-unavailable"
        "This daemon build does not include the native audio backend."
        "Install or run the native daemon build." false
    ∷ entry "audio-thread-unavailable" "Noire could not create its audio control thread."
        "Free process resources and restart Noire." true
    ∷ entry "audio-command-busy" "The bounded audio control queue is temporarily full."
        "Wait briefly and retry." true
    ∷ entry "audio-command-timeout" "The audio control thread did not respond in time."
        "Retry; restart Noire if the condition persists." true
    ∷ entry "audio-thread-stopped" "The audio control thread stopped unexpectedly."
        "Restart the Noire user service." false
    ∷ entry "audio-stream-failed" "A native capture or virtual-source stream stopped unexpectedly."
        "Allow bounded graph recovery; restart PipeWire if it persists." true
    ∷ entry "audio-transport-failed"
        "The processed audio transport stalled and output was safely muted."
        "Allow automatic recovery; restart Noire if silence persists." true
    ∷ entry "audio-graph-unavailable" "The live microphone processing graph could not be created."
        "Verify PipeWire and the selected input, then retry." true
    ∷ entry "audio-meter-unavailable" "Live microphone metering could not be started or stopped."
        "Retry; restart PipeWire if the meter remains unavailable." true
    ∷ entry "model-initialization-failed" "The bundled suppression model could not initialize."
        "Restart Noire; reinstall if the condition persists." true
    ∷ entry "model-processing-failed"
        "The suppression model failed while processing microphone audio."
        "Allow automatic recovery; restart Noire if the failure persists." true
    ∷ entry "launch-manager-unavailable"
        "The per-user systemd manager rejected launch-at-login control."
        "Verify the user systemd session and retry." true
    ∷ []

find_entry : String → List ErrorCatalogEntry → Option ErrorCatalogEntry
find_entry code [] = none
find_entry code (e ∷ es) = if str_eq e.code code then some e else find_entry code es

unfoldable pub error_catalog_entry : String → Option ErrorCatalogEntry
unfolding find_entry error_catalog
error_catalog_entry code = find_entry code error_catalog

pub record ErrorInfo : Type 0 where
  pub code : String
  pub message : String
  pub recovery : String
  pub component : String
  pub retryable : Bool
  pub timestamp_millis : ℕ  -- u64

abbrev pub no_error_info : ErrorInfo
no_error_info = record {
  code = "";
  message = "";
  recovery = "";
  component = "";
  retryable = false;
  timestamp_millis = 0;
}

-- Durations, counts and bit patterns of f64 levels.
pub record Metrics : Type 0 where
  pub callback_p50_ns : ℕ  -- u64
  pub callback_p95_ns : ℕ  -- u64
  pub callback_p99_ns : ℕ  -- u64
  pub callback_max_ns : ℕ  -- u64
  pub model_p50_ns : ℕ  -- u64
  pub model_p95_ns : ℕ  -- u64
  pub model_p99_ns : ℕ  -- u64
  pub model_max_ns : ℕ  -- u64
  pub ring_current_samples : ℕ  -- u64
  pub ring_high_water_samples : ℕ  -- u64
  pub underflows : ℕ  -- u64
  pub overflows : ℕ  -- u64
  pub buffer_errors : ℕ  -- u64
  pub model_errors : ℕ  -- u64
  pub resets : ℕ  -- u64
  pub non_finite_samples : ℕ  -- u64
  pub vad_probability : ℕ  -- f64
  pub rms : ℕ  -- f64
  pub peak : ℕ  -- f64

abbrev pub no_metrics : Metrics
no_metrics = record {
  callback_p50_ns = 0;
  callback_p95_ns = 0;
  callback_p99_ns = 0;
  callback_max_ns = 0;
  model_p50_ns = 0;
  model_p95_ns = 0;
  model_p99_ns = 0;
  model_max_ns = 0;
  ring_current_samples = 0;
  ring_high_water_samples = 0;
  underflows = 0;
  overflows = 0;
  buffer_errors = 0;
  model_errors = 0;
  resets = 0;
  non_finite_samples = 0;
  vad_probability = 0;
  rms = 0;
  peak = 0;
}

pub record InputDescriptor : Type 0 where
  pub stable_id : String
  pub display_name : String
  pub is_default : Bool
  pub availability : String

pub record Snapshot : Type 0 where
  pub schema_version : ℕ  -- u32
  pub api_version : String
  pub build_version : String
  pub revision : ℕ  -- u64
  pub device_revision : ℕ  -- u64
  pub state : String
  pub active : Bool
  pub launch_at_login : Bool
  pub input_mode : String
  pub input_stable_id : String
  pub input_display_name : String
  pub channel : String
  pub fallback_to_default : Bool
  pub source_node_name : String
  pub latency_profile : String
  pub suppression_enabled : Bool
  pub strength : ℕ  -- f64
  pub fail_mode : String
  pub model_id : String
  pub model_delay_samples : ℕ  -- u32
  pub pipewire_version : String
  pub uptime_millis : ℕ  -- u64
  pub has_error : Bool
  pub last_error : ErrorInfo
  pub metrics : Metrics

pub record DiagnosticReport : Type 0 where
  pub schema_version : ℕ  -- u32
  pub build_version : String
  pub api_version : String
  pub state : String
  pub source_node_name : String
  pub selected_input_id : String
  pub last_error_code : String
  pub journal_hint : String
  pub privacy : String
