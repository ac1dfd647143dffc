-- ===== src/Capture/Process.antt =====
-- crates/noire-pipewire/src/capture.rs: the methods of `CaptureProcessor`.
use noire.Base.{
  ℕ, ◌/◌, ◌%◌, Bool, not, ◌||◌, List, [], ◌∷◌, ◌++◌, Option, none, some, if◌then◌else◌, ltb, ◌==◌,
  Result, ok, err, length, map, drop, replicate, saturating_add, u64_max,
}
use noire.Dsp.Canonical.{Sample, max_callback_frames}
use noire.Dsp.Sanitize.{no_replacements, sanitize_buffer}
use noire.Dsp.Floats.{Floats}
use noire.Dsp.Meter.{Meter, observe}
use noire.Dsp.Meter
use noire.Transport.{fetch_max}
use noire.Transport.Output.{to_u16}
use noire.Capture.{
  InputGeneration, ChunkMetadata, CaptureBufferError, malformed_chunk, quantum_too_large,
  CaptureCounters, CaptureReport, CaptureSink, CaptureTelemetry, CaptureProcessor, checked_add64,
  get_range, decode,
}

module _ (f : Floats) where
  -- The two folds of `publish`.
  unfoldable pub peak_of : Sample → List Sample → Sample
  peak_of peak [] = peak
  peak_of peak (x ∷ xs) = peak_of (f.max peak (f.abs x)) xs

  unfoldable pub sum_of : Sample → List Sample → Sample
  sum_of sum [] = sum
  sum_of sum (x ∷ xs) = sum_of (f.add sum x) xs

  unfoldable pub rms_of : List Sample → Sample
  unfolding sum_of
  rms_of [] = 0
  rms_of (x ∷ xs) =
      let samples = x ∷ xs in
      f.sqrt (f.div (sum_of 0 (map (λ y. f.mul y y) samples)) (f.from_int (length samples)))

  unfoldable pub publish :
      CaptureTelemetry → CaptureCounters → InputGeneration → List Sample → CaptureTelemetry
  unfolding peak_of rms_of
  publish t counters generation samples =
      let peak = peak_of 0 samples in
      record {
        generation = generation;
        counters = counters;
        peak_bits = fetch_max t.peak_bits peak;
        recent_peak_bits = peak;
        rms_bits = rms_of samples;
      }

  unfoldable pub reset_generation :
      CaptureTelemetry → CaptureCounters → InputGeneration → CaptureTelemetry
  unfolding publish
  reset_generation t counters generation =
      publish (record t { peak_bits = 0; recent_peak_bits = 0; rms_bits = 0 }) counters generation
        []

  module _ (S : CaptureSink) where
    unfoldable pub apply_generation : CaptureProcessor S → InputGeneration → CaptureProcessor S
    unfolding reset_generation Meter.new
    apply_generation p generation =
        if generation == p.generation
        then p
        else let counters = record (p.counters) {
          input_generation_resets = saturating_add u64_max p.counters.input_generation_resets 1;
        } in
          record p {
            scratch = replicate max_callback_frames 0;
            meter = Meter.new;
            sink = S.reset p.sink generation;
            generation = generation;
            counters = counters;
            telemetry = reset_generation p.telemetry counters generation;
          }

    unfoldable pub synchronize_generation : CaptureProcessor S → CaptureProcessor S
    unfolding apply_generation
    synchronize_generation p = apply_generation p p.generation_command

    unfoldable pub reset_input_generation :
        CaptureProcessor S → InputGeneration → CaptureProcessor S
    unfolding apply_generation
    reset_input_generation p generation =
        apply_generation (record p { generation_command = generation }) generation

    abbrev pub count_rejected : CaptureBufferError → CaptureCounters → CaptureCounters
    count_rejected malformed_chunk c = record c {
      malformed_chunks = saturating_add u64_max c.malformed_chunks 1;
    }
    count_rejected quantum_too_large c = record c {
      oversized_chunks = saturating_add u64_max c.oversized_chunks 1;
    }

    abbrev pub Outcome : Type 0
    Outcome = CaptureProcessor S × Result CaptureBufferError CaptureReport

    unfoldable pub reject : CaptureProcessor S → CaptureBufferError → Outcome
    unfolding publish
    reject p error =
        let counters = count_rejected error p.counters in
        (
          record p {
            counters = counters;
            telemetry = publish p.telemetry counters p.generation [];
          },
          err error,
        )

    -- The branch for a chunk of no bytes.
    unfoldable pub accept_empty : CaptureProcessor S → Outcome
    unfolding publish
    accept_empty p =
        let counters = record (p.counters) {
          empty_buffers = saturating_add u64_max p.counters.empty_buffers 1;
        } in
        (
          record p {
            counters = counters;
            telemetry = publish p.telemetry counters p.generation [];
          },
          ok (record { generation = p.generation; frames = 0; sanitized = no_replacements }),
        )

    -- What follows the checks, for the samples that are decoded.
    unfoldable pub deliver : CaptureProcessor S → List Sample → Outcome
    unfolding publish observe sanitize_buffer
    deliver p decoded =
        let (samples, sanitized) = sanitize_buffer decoded in
        let frames = length samples in
        let counters = record (p.counters) {
          frames = saturating_add u64_max p.counters.frames frames;
          non_finite_samples =
              saturating_add u64_max p.counters.non_finite_samples sanitized.non_finite;
          subnormal_samples =
              saturating_add u64_max p.counters.subnormal_samples sanitized.subnormal;
        } in
        (
          record p {
            scratch = samples ++ drop frames p.scratch;
            meter = observe f p.meter samples;
            sink = S.write p.sink p.generation samples;
            counters = counters;
            telemetry = publish p.telemetry counters p.generation samples;
          },
          ok (record { generation = p.generation; frames = to_u16 frames; sanitized = sanitized }),
        )

    -- From `mapped.get(offset..end)` on.
    unfoldable pub process_bytes : CaptureProcessor S → Option (List ℕ) → Outcome
    unfolding deliver reject decode
    process_bytes p none = reject p malformed_chunk
    process_bytes p (some bytes) =
        if ltb max_callback_frames (length bytes / 4)
        then reject p quantum_too_large
        else deliver p (decode bytes)

    -- From the match on `mapped` on.
    unfoldable pub process_region : CaptureProcessor S → Option (List ℕ) → ChunkMetadata → Outcome
    unfolding reject process_bytes get_range
    process_region p none metadata = reject p malformed_chunk
    process_region p (some mapped) metadata =
        elim (checked_add64 metadata.offset_bytes metadata.size_bytes) [
          | none ↦ reject p malformed_chunk
          | some finish ↦ process_bytes p (get_range mapped metadata.offset_bytes finish)
        ]

    abbrev pub is_malformed : ChunkMetadata → Bool
    is_malformed m =
        m.corrupted
        || (not (m.stride_bytes == 0 || m.stride_bytes == 4) || not (m.size_bytes % 4 == 0))

    -- `process_mapped` once the callback is counted.
    unfoldable pub process_counted : CaptureProcessor S → Option (List ℕ) → ChunkMetadata → Outcome
    unfolding accept_empty reject process_region
    process_counted p mapped metadata =
        if metadata.size_bytes == 0
        then accept_empty p
        else if is_malformed metadata
        then reject p malformed_chunk
        else process_region p mapped metadata

    unfoldable pub process_mapped : CaptureProcessor S → Option (List ℕ) → ChunkMetadata → Outcome
    unfolding synchronize_generation process_counted
    process_mapped p mapped metadata =
        let q = synchronize_generation p in
        process_counted
          (record q {
            counters = record (q.counters) {
              callbacks = saturating_add u64_max q.counters.callbacks 1;
            };
          })
          mapped metadata
