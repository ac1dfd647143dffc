-- ===== src/Capture.antt =====
-- crates/noire-pipewire/src/capture.rs: the checks on a mapped chunk, its decoding, and its delivery
-- to the sink. Bytes and words are numbers; the machine is little-endian and has 64-bit addresses.
-- The command that the control loop writes and the callback reads is a field.
pub mod Process
pub mod Chunk
pub mod Deliver
pub mod Encoded
pub mod Order
use noire.Base.{
  ℕ, ◌+◌, ◌-◌, ◌*◌, ◌/◌, ◌%◌, Bool, true, false, not, ◌||◌, ◌&&◌, List, [], ◌∷◌, ◌++◌, Option, none,
  some, if◌then◌else◌, ltb, leb, ◌==◌, Result, ok, err, length, take, drop, replicate,
  saturating_add, u64_max,
}
use noire.Dsp.Canonical.{Sample, max_callback_frames}
use noire.Dsp.Sanitize.{SanitizeReport, no_replacements, sanitize_buffer}
use noire.Dsp.Floats.{Floats}
use noire.Dsp.Meter.{Meter, observe}
use noire.Dsp.Meter
use noire.Transport.{fetch_max}
use noire.Transport.Output.{to_u16}

abbrev pub InputGeneration : Type 0
InputGeneration = ℕ

abbrev pub initial : InputGeneration
initial = 1

abbrev pub next : InputGeneration → InputGeneration
next generation = saturating_add u64_max generation 1

-- The stride is an i32 by its bits.
pub record ChunkMetadata : Type 0 where
  pub offset_bytes : ℕ
  pub size_bytes : ℕ
  pub stride_bytes : ℕ
  pub corrupted : Bool

pub data CaptureBufferError : Type 0 where
  malformed_chunk quantum_too_large : CaptureBufferError

pub record CaptureCounters : Type 0 where
  pub callbacks : ℕ
  pub frames : ℕ
  pub empty_buffers : ℕ
  pub malformed_chunks : ℕ
  pub oversized_chunks : ℕ
  pub non_finite_samples : ℕ
  pub subnormal_samples : ℕ
  pub input_generation_resets : ℕ

abbrev pub no_counts : CaptureCounters
no_counts = record {
  callbacks = 0;
  frames = 0;
  empty_buffers = 0;
  malformed_chunks = 0;
  oversized_chunks = 0;
  non_finite_samples = 0;
  subnormal_samples = 0;
  input_generation_resets = 0;
}

pub record CaptureReport : Type 0 where
  pub generation : InputGeneration
  pub frames : ℕ  -- u16
  pub sanitized : SanitizeReport

pub record CaptureSink : Type 1 where
  pub State : Type 0
  pub reset : State → InputGeneration → State
  pub write : State → InputGeneration → List Sample → State

-- The counters are stored one by one in the source.
pub record CaptureTelemetry : Type 0 where
  pub generation : InputGeneration
  pub counters : CaptureCounters
  pub peak_bits : ℕ
  pub recent_peak_bits : ℕ
  pub rms_bits : ℕ

abbrev pub default_telemetry : CaptureTelemetry
default_telemetry = record {
  generation = initial;
  counters = no_counts;
  peak_bits = 0;
  recent_peak_bits = 0;
  rms_bits = 0;
}

pub record CaptureTelemetrySnapshot : Type 0 where
  pub generation : InputGeneration
  pub counters : CaptureCounters
  pub peak : Sample
  pub recent_peak : Sample
  pub rms : Sample

unfoldable pub snapshot : CaptureTelemetry → CaptureTelemetrySnapshot
snapshot t = record {
  generation = t.generation;
  counters = t.counters;
  peak = t.peak_bits;
  recent_peak = t.recent_peak_bits;
  rms = t.rms_bits;
}

pub record CaptureProcessor (S : CaptureSink) : Type 0 where
  pub sink : S.State
  pub scratch : List Sample
  pub meter : Meter
  pub counters : CaptureCounters
  pub telemetry : CaptureTelemetry
  pub generation : InputGeneration
  pub generation_command : InputGeneration

unfoldable pub new : (S : CaptureSink) → S.State → CaptureTelemetry → CaptureProcessor S
unfolding Meter.new
new S sink telemetry = record {
  sink = sink;
  scratch = replicate max_callback_frames 0;
  meter = Meter.new;
  counters = no_counts;
  telemetry = telemetry;
  generation = initial;
  generation_command = initial;
}

-- `checked_add` on usize.
abbrev pub checked_add64 : ℕ → ℕ → Option ℕ
checked_add64 a b = if ltb u64_max (a + b) then none else some (a + b)

-- `bytes.get(start..end)`.
unfoldable pub get_range : List ℕ → ℕ → ℕ → Option (List ℕ)
get_range bytes start finish =
    if leb start finish && leb finish (length bytes)
    then some (take (finish - start) (drop start bytes))
    else none

-- `chunks_exact(4)` and `f32::from_ne_bytes`.
unfoldable pub decode : List ℕ → List Sample
decode (a ∷ b ∷ c ∷ d ∷ rest) = (a + 256 * (b + 256 * (c + 256 * d))) ∷ decode rest
decode _ = []

-- `NativeCaptureStream::advance_input_generation`, with no other writer.
unfoldable pub advance_input_generation :
    {S : CaptureSink} → CaptureProcessor S → CaptureProcessor S
advance_input_generation p = record p { generation_command = next p.generation_command }
