-- ===== src/Tests/LiveTests.antt =====
-- crates/noire-pipewire/src/live.rs and crates/noire-dsp/src/ramp.rs at concrete inputs.
use noire.Base.{
  ℕ, ◌+◌, ◌≡◌, inl, refl, true, false, not, List, [], ◌∷◌, ok, err, arith, length, replicate,
}
use noire.Dsp.Canonical.{Sample}
use noire.Dsp.Sanitize.{no_replacements, sanitize_buffer, sanitize_from, sanitize_sample}
use noire.Dsp.Ramp.{StrengthRamp, advance, advance_reaches}
use noire.Dsp.Delay.{Processed, process, pass_through}
use noire.Transport.{default_shared, write_processed}
use noire.Transport.Written.{IsWritten}
use noire.Live.{
  Denoiser, model_failure, fail_closed, default_snapshot, default_live, default_policy,
  empty_window,
}
use noire.Live.Sink.{FrameTiming, LiveCaptureSink, process_frame_parts, process_frames}
use noire.Live.Closed.{WriteCall, run_writes, failure_closes}
use noire.Live.Frames.{ComparisonLaws, limit, off_publishes_dry}
use noire.Tests.DspTests.{two}
use noire.Tests.CaptureTests.{floats}
use noire.Tests.TransportTests.{list_ring, list_contract, playing}

-- A model that fails at every frame, and one that gives silence.
abbrev broken : Denoiser
broken = record {
  State = ℕ;
  descriptor = record {
    sample_rate_hz = 48000;
    channels = 1;
    frame_samples = 512;
    hop_samples = 512;
    delay_samples = 0;
  };
  reset = λ s. 0;
  process_frame = λ s input output. (s + 1, replicate (length output) 0, err model_failure);
}

abbrev mute : Denoiser
mute = record broken {
  process_frame = λ s input output. (s + 1, replicate (length output) 0, ok 0);
}

abbrev sink_of : (D : Denoiser) → D.State → LiveCaptureSink list_ring D
sink_of D model = record {
  ring = playing.consumer;
  transport = default_shared;
  model = model;
  assembler = record { storage = replicate 1024 0; pending = 0 };
  dry_delay = record { storage = []; position = 0 };
  wet = 0 ∷ 0 ∷ [];
  dry = 0 ∷ 0 ∷ [];
  mixed = 0 ∷ 0 ∷ [];
  callback_scratch = [];
  strength = record { current = 0; target = 0; step = 0; remaining = 0 };
  parameters = default_snapshot;
  meter = record { peak = 0; mean_square = 0; samples = 0; sanitized = no_replacements };
  meter_samples = 0;
  pending_vad = 0;
  shared = default_live;
  deadline_policy = default_policy;
  deadline_window = empty_window;
  callback_count = 0;
  model_count = 0;
  failed = false;
}

abbrev frame : List Sample
frame = two ∷ 0 ∷ []

abbrev clock : ℕ → FrameTiming
clock n = record { elapsed = n; now = n }

abbrev delayed : Processed
delayed = record {
  line = record { storage = []; position = 0 };
  output = frame;
  report = no_replacements;
}

process-frame : process (record { storage = []; position = 0 }) frame 2 ≡ ok delayed
unfolding process pass_through sanitize_buffer sanitize_from sanitize_sample
process-frame = refl

abbrev later : List WriteCall
later =
    record {
      reads = record {
        first = 2;
        strength = 0;
        enabled = true;
        fail_mode = fail_closed;
        second = 2;
      };
      clock = clock;
      elapsed = 5;
      samples = frame;
    }
    ∷ []

failure_closes_example :
    (run_writes floats list_ring broken later
      (process_frames floats list_ring broken (sink_of broken 0) clock (frame ∷ frame ∷ []))).ring
    ≡ playing.consumer
failure_closes_example =
    (failure_closes floats list_ring broken (sink_of broken 0) clock frame (frame ∷ []) later
      delayed model_failure refl refl process-frame refl (refl, tt)).1

-- Comparisons of bit patterns, which agree with those of numbers that are not negative.
ordered : ComparisonLaws floats
ordered = record { zero_le_zero = refl; zero_lt_zero = refl; one_lt_zero = refl }

off_publishes_dry_example :
    let q = process_frame_parts floats list_ring mute (sink_of mute 0) clock frame in
    let samples = limit floats two ∷ limit floats 0 ∷ [] in
    IsWritten list_contract playing.consumer default_shared samples
      (q.ring, q.transport, not q.failed)
    × (q.transport ≡ (write_processed list_ring playing.consumer default_shared samples).1)
off_publishes_dry_example =
    off_publishes_dry floats list_ring mute ordered list_contract (sink_of mute 0) clock frame
      delayed 0 refl (refl, refl) process-frame refl refl

abbrev rising : StrengthRamp
rising = record { current = 0; target = two; step = 1; remaining = 960 }

advance_reaches_example : (advance floats 960 rising).current ≡ two
advance_reaches_example = (advance_reaches floats 960 rising (inl (omega arith)) (omega arith)).0
