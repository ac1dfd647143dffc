-- ===== src/Tests/UiTests.antt =====
-- crates/noire-ui/src/state.rs and crates/noire-dsp/src/channels.rs at concrete inputs.
use noire.Base.{◌≡◌, refl, true, false, List, [], ◌∷◌, Option, some}
use noire.Ipc.{InputDescriptor, Snapshot, no_error_info, no_metrics}
use noire.Ui.{UserError, default_ui, reject}
use noire.Ui.Truth.{
  UiEvent, pending, converged, refreshed, rejected, measured, handle_all, settings,
  shows_last_given, rejection_visible,
}
use noire.Dsp.Channels.{ChannelPosition, front_left, front_center, channel, ChannelMap, process}
use noire.Dsp.Channels.Selected.{process_agree}
use noire.Tests.DspTests.{two}
use noire.Tests.CaptureTests.{floats}

abbrev shown : Snapshot
shown = record {
  schema_version = 1;
  api_version = "1";
  build_version = "0";
  revision = 7;
  device_revision = 3;
  state = "running";
  active = true;
  launch_at_login = false;
  input_mode = "selected";
  input_stable_id = "usb:desk";
  input_display_name = "Desk microphone";
  channel = "auto";
  fallback_to_default = false;
  source_node_name = "noire";
  latency_profile = "low";
  suppression_enabled = true;
  strength = 0;
  fail_mode = "closed";
  model_id = "model";
  model_delay_samples = 512;
  pipewire_version = "1.4.7";
  uptime_millis = 5;
  has_error = false;
  last_error = no_error_info;
  metrics = no_metrics;
}

abbrev refused : UserError
refused = record {
  code = "stale-revision";
  cause = "changed";
  recovery = "retry";
  retryable = true;
}

abbrev session : List UiEvent
session =
    converged shown []
    ∷ pending true
    ∷ rejected refused (some (record shown { revision = 8 }, []))
    ∷ measured no_metrics
    ∷ []

shows_last_given_example :
    let last = handle_all default_ui session in
    ◌≡◌ {A = Option Snapshot × List InputDescriptor}
      (settings last.snapshot, last.inputs)
      (some (record shown { revision = 8 }), [])
shows_last_given_example = shows_last_given session

rejection_visible_example :
    (handle_all
      (reject default_ui refused (some (shown, [])))
      (refreshed shown [] ∷ measured no_metrics ∷ [])).client_error
    ≡ some refused
rejection_visible_example =
    (rejection_visible default_ui refused shown [] (refreshed shown [] ∷ measured no_metrics ∷ [])
      (tt, (tt, tt))).0

-- The second of two channels.
abbrev second : ChannelMap
second = record {
  channel_count = 2;
  selected = false ∷ true ∷ [];
  selected_count = 1;
  gain = 0x3f80_0000;
}

process_agree_example :
    process floats second (5 ∷ two ∷ 6 ∷ 0 ∷ []) 2 ≡ process floats second (7 ∷ two ∷ 8 ∷ 0 ∷ []) 2
process_agree_example =
    process_agree floats second (5 ∷ two ∷ 6 ∷ 0 ∷ []) (7 ∷ two ∷ 8 ∷ 0 ∷ []) 2 refl
      ((refl, tt), ((refl, tt), tt))

abbrev positions : List ChannelPosition
positions = front_left ∷ front_center ∷ []
