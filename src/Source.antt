-- ===== src/Source.antt =====
-- crates/noire-pipewire/src/source.rs and the types of format.rs: the virtual microphone. The stream's
-- listeners are functions of the control state; an instant is a number of nanoseconds; the command
-- that the control loop leaves for the callback is a field of the processor.
pub mod Callback
pub mod Demand
pub mod Bounds
pub mod Privacy
use noire.Base.{
  ℕ, ◌+◌, ◌-◌, ◌*◌, Bool, true, false, not, ◌&&◌, List, [], ◌∷◌, Option, none, some, if◌then◌else◌,
  ltb, leb, ◌==◌, length, replicate, wrapping_add64,
}
use noire.Base.Text.{String}
use noire.Dsp.Canonical.{Sample}
use noire.Transport.{Ring, SharedState, fetch_max, set_publication_enabled}
use noire.Transport.Output.{BypassOutput, Channel, clear_sensitive, discard_pending_sensitive}

-- format.rs: the format that capture accepts, and why another is refused.
pub record CaptureFormat : Type 0 where
  pub sample_rate : ℕ
  pub channels : ℕ

pub data NegotiatedFormatError : Type 0 where
  malformed unsupported_media unsupported_sample_format unsupported_sample_rate :
      NegotiatedFormatError
  unsupported_channel_count unsupported_channel_position : NegotiatedFormatError

pub data NegotiatedFormatEvent : Type 0 where
  accepted : CaptureFormat → NegotiatedFormatEvent
  rejected : NegotiatedFormatError → NegotiatedFormatEvent

abbrev pub audio_command_none : ℕ
audio_command_none = 0

abbrev pub audio_command_discard : ℕ
audio_command_discard = 1

abbrev pub audio_command_clear : ℕ
audio_command_clear = 2

abbrev pub consumer_idle_debounce : ℕ
consumer_idle_debounce = 500_000_000

pub data StreamLatency : Type 0 where
  low balanced : StreamLatency

unfoldable pub quantum_frames : StreamLatency → ℕ
quantum_frames low = 256
quantum_frames balanced = 512

-- PipeWire's stream states.
pub data StreamState : Type 0 where
  error : String → StreamState
  unconnected connecting paused streaming : StreamState

pub data SourceStreamState : Type 0 where
  source_unconnected source_connecting source_paused source_streaming source_error :
      SourceStreamState

pub data ConsumerDemand : Type 0 where
  idle active : ConsumerDemand

pub data DemandTransition : Type 0 where
  activate deactivate : DemandTransition

pub record ControlState : Type 0 where
  pub stream_state : SourceStreamState
  pub demand : ConsumerDemand
  pub idle_since : Option ℕ
  pub format_event : Option NegotiatedFormatEvent
  pub stream_error : Option String

abbrev pub default_control : ControlState
default_control = record {
  stream_state = source_unconnected;
  demand = idle;
  idle_since = none;
  format_event = none;
  stream_error = none;
}

unfoldable pub map_stream_state : StreamState → SourceStreamState
map_stream_state unconnected = source_unconnected
map_stream_state connecting = source_connecting
map_stream_state paused = source_paused
map_stream_state streaming = source_streaming
map_stream_state (error message) = source_error

-- `get_or_insert_with(Instant::now)`.
abbrev pub get_or_insert : Option ℕ → ℕ → Option ℕ
get_or_insert none now = some now
get_or_insert (some t) now = some t

abbrev pub is_streaming : SourceStreamState → Bool
is_streaming source_streaming = true
is_streaming _ = false

abbrev pub is_active : ConsumerDemand → Bool
is_active active = true
is_active idle = false

-- The match of the `state_changed` listener, at the instant `now`.
unfoldable pub note_change : ControlState → StreamState → (now : ℕ) → ControlState
note_change c streaming now = record c { idle_since = none }
note_change c paused now =
    if is_active c.demand then record c { idle_since = get_or_insert c.idle_since now } else c
note_change c (error message) now = record c {
  stream_error = some message;
  idle_since = get_or_insert c.idle_since now;
}
note_change c unconnected now = record c { idle_since = get_or_insert c.idle_since now }
note_change c connecting now = c

abbrev is_streaming_event : StreamState → Bool
is_streaming_event streaming = true
is_streaming_event _ = false

-- The `state_changed` listener.
unfoldable pub state_changed :
    ControlState × SharedState → StreamState → (now : ℕ) → ControlState × SharedState
unfolding map_stream_state note_change set_publication_enabled
state_changed (c, s) new now = (
  note_change (record c { stream_state = map_stream_state new }) new now,
  set_publication_enabled s (is_streaming_event new),
)

unfoldable pub resolve_demand_transition :
    ControlState → (now : ℕ) → ControlState × Option DemandTransition
resolve_demand_transition c now =
    if is_streaming c.stream_state && not (is_active c.demand)
    then (record c { demand = active; idle_since = none }, some activate)
    else if is_active c.demand && (not (is_streaming c.stream_state) && idle_for c.idle_since now)
    then (record c { demand = idle; idle_since = none }, some deactivate)
    else (c, none)
  where
    idle_for : Option ℕ → ℕ → Bool
    idle_for none now = false
    idle_for (some since) now = leb consumer_idle_debounce (now - since)

unfoldable pub take_negotiated_format : ControlState → ControlState × Option NegotiatedFormatEvent
take_negotiated_format c = (record c { format_event = none }, c.format_event)

unfoldable pub take_error : ControlState → ControlState × Option String
take_error c = (record c { stream_error = none }, c.stream_error)

abbrev pub has_error : ControlState → Bool
has_error c = elim c.stream_error [ none ↦ false | some message ↦ true ]

-- The u64 counters of the source, which wrap.
pub record SourceTelemetry : Type 0 where
  pub callbacks : ℕ
  pub empty_dequeues : ℕ
  pub missing_buffers : ℕ
  pub malformed_buffers : ℕ

-- `SourceAudio`, with the counters that its output shares.
pub record SourceProcessor (R : Ring) : Type 0 where
  pub audio : Channel R
  pub scratch : List Sample
  pub audio_command : ℕ
  pub telemetry : SourceTelemetry

module _ (R : Ring) where
  unfoldable pub schedule_audio_command : SourceProcessor R → ℕ → SourceProcessor R
  schedule_audio_command p command = record p { audio_command = fetch_max p.audio_command command }

  unfoldable pub apply_audio_command : SourceProcessor R → SourceProcessor R
  unfolding clear_sensitive discard_pending_sensitive
  apply_audio_command p =
      let taken = record p { audio_command = audio_command_none } in
      let cleared = record taken { scratch = replicate (length p.scratch) 0 } in
      if p.audio_command == audio_command_clear
      then record cleared { audio = clear_sensitive R p.audio }
      else if p.audio_command == audio_command_discard
      then record cleared { audio = discard_pending_sensitive R p.audio }
      else taken
