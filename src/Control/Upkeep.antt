-- ===== src/Control/Upkeep.antt =====
-- crates/noired/src/control.rs: start of the daemon, refresh of its observation, the device list,
-- and the diagnostic report.
use noire.Base.{
  ℕ, Bool, true, false, not, ◌&&◌, ◌||◌, List, [], ◌∷◌, Option, none, some, if◌then◌else◌, Result,
  ok, err, saturating_add, u64_max,
}
use noire.Base.Text.{String, str_eq}
use noire.Config.Types.{Config, LoadSource, LoadOutcome, newer_read_only}
use noire.Ipc.{
  DiagnosticReport, ErrorInfo, InputDescriptor, error_catalog_entry, api_version, ErrorCatalogEntry,
}
use noire.Control.Ports.{
  degraded, lifecycle_text, EngineError, EngineObservation, default_observation, AudioEngine,
  ConfigStore,
}
use noire.Control.Daemon.{
  Daemon, ControlError, audio, build_version, reserved_node_name, error_info, devices_eq, state_eq,
  is_degraded, fault_code_eq, is_audio_error,
}
use noire.Control.Methods.{next_revision}

catalog_error_info_from : String → String → ℕ → Option ErrorCatalogEntry → ErrorInfo
catalog_error_info_from code component now none = record {
  code = code;
  message = "Noire recovered from a configuration problem.";
  recovery = "Inspect the preserved configuration before retrying.";
  component = component;
  retryable = false;
  timestamp_millis = now;
}
catalog_error_info_from code component now (some entry) = record {
  code = entry.code;
  message = entry.cause;
  recovery = entry.recovery;
  component = component;
  retryable = entry.retryable;
  timestamp_millis = now;
}

unfoldable pub catalog_error_info : String → String → ℕ → ErrorInfo
unfolding catalog_error_info_from
catalog_error_info code component now =
    catalog_error_info_from code component now (error_catalog_entry code)

abbrev load_code : LoadSource → String
load_code newer_read_only = "config-newer-schema"
load_code _ = "config-recovered"

abbrev load_error : LoadOutcome → Option String → ℕ → Option ErrorInfo
load_error loaded none now = none
load_error loaded (some message) now =
    some (catalog_error_info (load_code loaded.source) "config" now)

-- `u64::from(!devices.is_empty())`.
abbrev count_devices : List InputDescriptor → ℕ
count_devices [] = 0
count_devices (d ∷ ds) = 1

-- `loaded.config` once `active` is set from the startup preference.
abbrev pub startup_config : LoadOutcome → Config
startup_config loaded = record (loaded.config) { active = loaded.config.start_with_noise_reduction }

-- Whether the public state of two observations differs.
abbrev pub public_changed : EngineObservation → EngineObservation → Bool
public_changed previous next =
    not (state_eq previous.state next.state)
    || not (str_eq previous.input_display_name next.input_display_name)
    || not (str_eq previous.pipewire_version next.pipewire_version)
    || not (fault_code_eq previous.fault next.fault)

module _ {E : AudioEngine} {S : ConfigStore} where
  compose : S.State → LoadOutcome → ℕ → E.State × Result EngineError EngineObservation → Daemon E S
  compose store loaded now (engine, ok observation) = record {
    store = store;
    config = startup_config loaded;
    writable = loaded.writable;
    revision = 1;
    device_revision = count_devices observation.devices;
    devices = observation.devices;
    engine = engine;
    observation = observation;
    last_error = load_error loaded loaded.warning now;
  }
  compose store loaded now (engine, err e) = record {
    store = store;
    config = startup_config loaded;
    writable = loaded.writable;
    revision = 1;
    device_revision = 0;
    devices = [];
    engine = engine;
    observation = record default_observation { state = degraded };
    last_error = some (error_info e now);
  }

  unfoldable pub new : S.State → E.State → LoadOutcome → ℕ → Daemon E S
  unfolding compose
  new store engine loaded now = compose store loaded now (E.apply engine (startup_config loaded))

  -- `last_error` after an observation that came back.
  abbrev observed_error : Daemon E S → EngineObservation → Option EngineError → ℕ → Option ErrorInfo
  observed_error d observation none now =
      if not (is_degraded observation.state) && is_audio_error d.last_error
      then none
      else d.last_error
  observed_error d observation (some e) now = some (error_info e now)

  observe_ok : Daemon E S → E.State → EngineObservation → ℕ → Daemon E S
  observe_ok d engine observation now =
      let same = devices_eq observation.devices d.devices in
      record d {
        engine = engine;
        last_error = observed_error d observation observation.fault now;
        devices = if same then d.devices else observation.devices;
        device_revision =
            if same then d.device_revision else saturating_add u64_max d.device_revision 1;
        observation = observation;
      }

  after_observe : Daemon E S → ℕ → E.State × Result EngineError EngineObservation → Daemon E S
  unfolding observe_ok
  after_observe d now (engine, ok observation) = observe_ok d engine observation now
  after_observe d now (engine, err e) = record d {
    engine = engine;
    last_error = some (error_info e now);
    observation = record (d.observation) { state = degraded };
  }

  finish_refresh : Daemon E S → Daemon E S → Daemon E S × Bool
  finish_refresh d next =
      if public_changed d.observation next.observation
      then (record next { revision = next_revision next }, true)
      else (next, false)

  unfoldable pub refresh_observation : Daemon E S → ℕ → Daemon E S × Bool
  unfolding after_observe finish_refresh
  refresh_observation d now =
      finish_refresh d (after_observe d now (E.observe d.engine d.observation))

  after_inputs :
      Daemon E S
      → E.State × Result EngineError (List InputDescriptor)
      → Daemon E S × Result ControlError (List InputDescriptor)
  after_inputs d (engine, err e) = (record d { engine = engine }, err (audio e))
  after_inputs d (engine, ok next) =
      let same = devices_eq next d.devices in
      let devices = if same then d.devices else next in
      (
        record d {
          engine = engine;
          devices = devices;
          device_revision =
              if same then d.device_revision else saturating_add u64_max d.device_revision 1;
          observation = record (d.observation) { devices = next };
        },
        ok devices,
      )

  unfoldable pub inputs : Daemon E S → Daemon E S × Result ControlError (List InputDescriptor)
  unfolding after_inputs
  inputs d = after_inputs d (E.inputs d.engine)

  after_meter :
      Daemon E S
      → E.State × Result EngineError (Unit {0})
      → Daemon E S × Result ControlError (Unit {0})
  after_meter d (engine, ok u) = (record d { engine = engine }, ok u)
  after_meter d (engine, err e) = (record d { engine = engine }, err (audio e))

  unfoldable pub set_meter_monitoring :
      Daemon E S → Bool → Daemon E S × Result ControlError (Unit {0})
  unfolding after_meter
  set_meter_monitoring d enabled = after_meter d (E.set_meter_monitoring d.engine enabled)

  unfoldable pub diagnostics : Daemon E S → DiagnosticReport
  diagnostics d = record {
    schema_version = 1;
    build_version = build_version;
    api_version = api_version;
    state = lifecycle_text d.observation.state;
    source_node_name = reserved_node_name;
    selected_input_id = d.config.input.stable_id;
    last_error_code = last_code d.last_error;
    journal_hint = "journalctl --user-unit=noire.service --since=-15min";
    privacy = "contains no audio, raw device properties, environment dump, or automatic upload";
  }
    where
      last_code : Option ErrorInfo → String
      last_code none = ""
      last_code (some e) = e.code
