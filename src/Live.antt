-- ===== src/Live.antt =====
-- crates/noire-pipewire/src/live.rs: the parameters, the health and the timing of live processing,
-- and the interface of a model (crates/noire-model/src). Atomics are fields of one shared record.
pub mod Sink
pub mod Frames
pub mod Closed
use noire.Base.{
  ℕ, ◌+◌, ◌-◌, ◌*◌, ◌/◌, ◌%◌, min, Bool, true, false, not, ◌&&◌, List, [], ◌∷◌, Option, none, some,
  if◌then◌else◌, ltb, leb, ◌==◌, Result, ok, err, length, replicate, set, get_or, wrapping_add64,
  saturating_add, saturating_mul, u64_max,
}
use noire.Dsp.Canonical.{Sample}
use noire.Dsp.Fault.{one}
use noire.Dsp.Floats.{Floats}
use noire.Dsp.Ramp.{finite_unit}
use noire.Dsp.Delay.{DryDelayError}
use noire.Transport.{SharedState, BypassTelemetrySnapshot, fetch_max}
use noire.Transport

abbrev pub timing_buckets : ℕ
timing_buckets = 32

abbrev pub timing_bucket_width_ns : ℕ
timing_bucket_width_ns = 50_000

abbrev pub default_timing_sample_interval : ℕ
default_timing_sample_interval = 100

abbrev pub meter_publish_samples : ℕ
meter_publish_samples = 4800

-- crates/noire-model/src/descriptor.rs, the fields that describe the signal.
pub record ModelDescriptor : Type 0 where
  pub sample_rate_hz : ℕ
  pub channels : ℕ
  pub frame_samples : ℕ
  pub hop_samples : ℕ
  pub delay_samples : ℕ

-- crates/noire-model/src/error.rs.
pub data ProcessError : Type 0 where
  input_frame_length output_frame_length non_finite_input non_finite_output : ProcessError
  invalid_statistics model_failure : ProcessError

-- crates/noire-model/src/lib.rs: a model, with the statistics that it returns (a probability).
pub record Denoiser : Type 1 where
  pub State : Type 0
  pub descriptor : ModelDescriptor
  pub reset : State → State
  pub process_frame :
      State → List Sample → List Sample → State × List Sample × Result ProcessError Sample

-- Durations and instants are nanoseconds.
pub record DeadlinePolicy : Type 0 where
  pub model_deadline : ℕ
  pub misses_per_window : ℕ
  pub window : ℕ

abbrev pub default_policy : DeadlinePolicy
default_policy = record {
  model_deadline = 4_000_000;
  misses_per_window = 5;
  window = 10_000_000_000;
}

pub data FailMode : Type 0 where
  fail_closed fail_open : FailMode

pub data LiveState : Type 0 where
  running degraded_performance model_failed transport_failed : LiveState

pub data LivePipelineError : Type 0 where
  incompatible_model : LivePipelineError
  dry_delay : DryDelayError → LivePipelineError

pub record AtomicParameters : Type 0 where
  pub epoch : ℕ
  pub strength_bits : Sample
  pub enabled : Bool
  pub fail_mode : FailMode
  pub diagnostic_timing : Bool

abbrev pub default_parameters : AtomicParameters
default_parameters = record {
  epoch = 0;
  strength_bits = one;
  enabled = true;
  fail_mode = fail_closed;
  diagnostic_timing = false;
}

pub record TimingHistogram : Type 0 where
  pub samples : ℕ
  pub total_ns : ℕ
  pub maximum_ns : ℕ
  pub buckets : List ℕ

abbrev pub empty_histogram : TimingHistogram
empty_histogram = record {
  samples = 0;
  total_ns = 0;
  maximum_ns = 0;
  buckets = replicate timing_buckets 0;
}

unfoldable pub observe_time : TimingHistogram → (elapsed : ℕ) → TimingHistogram
observe_time h elapsed =
    let nanos = if ltb u64_max elapsed then u64_max else elapsed in
    let bucket = min (nanos / timing_bucket_width_ns) (timing_buckets - 1) in
    record {
      samples = wrapping_add64 h.samples 1;
      total_ns = wrapping_add64 h.total_ns nanos;
      maximum_ns = fetch_max h.maximum_ns nanos;
      buckets = set h.buckets bucket (wrapping_add64 (get_or h.buckets bucket 0) 1);
    }

-- The loop of `percentile_ns`, from the bucket `index`.
unfoldable pub percentile_loop : (rank index cumulative maximum_ns : ℕ) → List ℕ → ℕ
percentile_loop rank index cumulative maximum_ns [] = maximum_ns
percentile_loop rank index cumulative maximum_ns (count ∷ counts) =
    let total = saturating_add u64_max cumulative count in
    let rest = percentile_loop rank (index + 1) total maximum_ns counts in
    if leb (if ltb rank 1 then 1 else rank) total
    then saturating_mul u64_max (index + 1) timing_bucket_width_ns
    else rest

unfoldable pub percentile_ns : TimingHistogram → (percentile : ℕ) → ℕ
unfolding percentile_loop
percentile_ns h percentile =
    if h.samples == 0
    then 0
    else percentile_loop
        (saturating_add u64_max (saturating_mul u64_max h.samples (min percentile 100)) 99 / 100) 0
        0 h.maximum_ns h.buckets

pub record SharedLiveState : Type 0 where
  pub parameters : AtomicParameters
  pub state : LiveState
  pub input_samples : ℕ
  pub model_frames : ℕ
  pub dry_frames : ℕ
  pub model_errors : ℕ
  pub model_resets : ℕ
  pub deadline_misses : ℕ
  pub hard_ceiling_samples : ℕ
  pub sanitized_samples : ℕ
  pub vad_bits : Sample
  pub peak_bits : Sample
  pub rms_bits : Sample
  pub model_timing : TimingHistogram
  pub callback_timing : TimingHistogram

abbrev pub default_live : SharedLiveState
default_live = record {
  parameters = default_parameters;
  state = running;
  input_samples = 0;
  model_frames = 0;
  dry_frames = 0;
  model_errors = 0;
  model_resets = 0;
  deadline_misses = 0;
  hard_ceiling_samples = 0;
  sanitized_samples = 0;
  vad_bits = 0;
  peak_bits = 0;
  rms_bits = 0;
  model_timing = empty_histogram;
  callback_timing = empty_histogram;
}

pub record LiveTelemetrySnapshot : Type 0 where
  pub state : LiveState
  pub input_samples : ℕ
  pub model_frames : ℕ
  pub dry_frames : ℕ
  pub model_errors : ℕ
  pub model_resets : ℕ
  pub deadline_misses : ℕ
  pub hard_ceiling_samples : ℕ
  pub sanitized_samples : ℕ
  pub vad_probability : Sample
  pub peak : Sample
  pub rms : Sample
  pub model_timing : TimingHistogram
  pub callback_timing : TimingHistogram
  pub transport : BypassTelemetrySnapshot

-- `LiveTelemetry::snapshot`, with the transport's.
unfoldable pub live_snapshot : SharedLiveState → SharedState → LiveTelemetrySnapshot
unfolding Transport.snapshot
live_snapshot s transport = record {
  state = s.state;
  input_samples = s.input_samples;
  model_frames = s.model_frames;
  dry_frames = s.dry_frames;
  model_errors = s.model_errors;
  model_resets = s.model_resets;
  deadline_misses = s.deadline_misses;
  hard_ceiling_samples = s.hard_ceiling_samples;
  sanitized_samples = s.sanitized_samples;
  vad_probability = s.vad_bits;
  peak = s.peak_bits;
  rms = s.rms_bits;
  model_timing = s.model_timing;
  callback_timing = s.callback_timing;
  transport = Transport.snapshot transport;
}

-- `LiveControl::update`: an odd epoch while the parameters are written, the next even one after.
abbrev pub begin_update : AtomicParameters → AtomicParameters
begin_update p = record p { epoch = wrapping_add64 p.epoch 1 }

unfoldable pub update : AtomicParameters → (AtomicParameters → AtomicParameters) → AtomicParameters
update p change = begin_update (change (begin_update p))

unfoldable pub set_strength : Floats → AtomicParameters → Sample → AtomicParameters
unfolding update
set_strength f p strength = update p (λ q. record q { strength_bits = finite_unit f strength })

unfoldable pub set_enabled : AtomicParameters → Bool → AtomicParameters
unfolding update
set_enabled p enabled = update p (λ q. record q { enabled = enabled })

unfoldable pub set_fail_mode : AtomicParameters → FailMode → AtomicParameters
unfolding update
set_fail_mode p mode = update p (λ q. record q { fail_mode = mode })

unfoldable pub set_diagnostic_timing : AtomicParameters → Bool → AtomicParameters
set_diagnostic_timing p enabled = record p { diagnostic_timing = enabled }

pub record ParameterSnapshot : Type 0 where
  pub epoch : ℕ
  pub fail_mode : FailMode

abbrev pub default_snapshot : ParameterSnapshot
default_snapshot = record { epoch = 0; fail_mode = fail_closed }

-- `misses` has five entries.
pub record DeadlineWindow : Type 0 where
  pub misses : List (Option ℕ)
  pub next : ℕ
  pub count : ℕ

abbrev pub empty_window : DeadlineWindow
empty_window = record { misses = replicate 5 none; next = 0; count = 0 }

abbrev is_recent : Option ℕ → (now window : ℕ) → Bool
is_recent none now window = false
is_recent (some oldest) now window = leb (now - oldest) window

-- `DeadlineWindow::record`.
unfoldable pub record_miss : DeadlineWindow → (now : ℕ) → DeadlinePolicy → DeadlineWindow × Bool
record_miss w now policy =
    let required =
      min (if ltb policy.misses_per_window 1 then 1 else policy.misses_per_window)
        (length w.misses) in
    let misses = set w.misses w.next (some now) in
    let next = (w.next + 1) % required in
    let count = min (w.count + 1) required in
    (
      record { misses = misses; next = next; count = count },
      if ltb count required then false else is_recent (get_or misses next none) now policy.window,
    )
