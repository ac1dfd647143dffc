-- ===== src/Transport/Output.antt =====
-- crates/noire-pipewire/src/bypass.rs: `BypassOutput`, the consumer.
use noire.Base.{
  ℕ, zero, suc, Bool, true, false, not, ◌&&◌, List, [], ◌∷◌, ◌++◌, Option, none, some,
  if◌then◌else◌, ltb, ◌==◌, Result, ok, err, length as list_length, drop, replicate, wrapping_add64,
  saturating_add, saturating_mul, u64_max, u16_max,
}
use noire.Dsp.Canonical.{Sample, max_callback_frames, model_frame_samples}
use noire.Dsp.Fault.{
  Gain, FaultRamp, FaultRampState, FaultRampError, FaultRampReport, begin_recovery, reset_silent,
}
use noire.Dsp.Fault
use noire.Transport.{
  TaggedSample, SharedState, default_shared, Ring, request_resync, bypass_ring_capacity,
  bypass_startup_quanta,
}

pub data BypassOutputError : Type 0 where
  quantum_too_large : BypassOutputError
  fault_ramp : FaultRampError → BypassOutputError

pub record BypassOutputReport : Type 0 where
  pub frames : ℕ  -- u16
  pub missing_frames : ℕ  -- u16
  pub startup : Bool
  pub ramp_state : FaultRampState

pub record BypassOutput (R : Ring) : Type 0 where
  pub consumer : R.State
  pub generation : ℕ
  pub startup_ready : Bool
  pub scratch : List Sample
  pub ramp : FaultRamp
  pub startup_frame_samples : ℕ
  pub startup_quanta : ℕ
  pub empty_while_buffering : Bool
  pub leading_silence_pending : Bool

-- `u16::try_from(n).unwrap_or(u16::MAX)`.
abbrev pub to_u16 : ℕ → ℕ
to_u16 n = if ltb u16_max n then u16_max else n

-- `peek().is_ok_and(|sample| sample.generation != self.generation)`.
abbrev pub is_stale : ℕ → Option TaggedSample → Bool
is_stale generation none = false
is_stale generation (some x) = not (x.generation == generation)

module _ (R : Ring) where
  -- The consumer with the counters that it shares.
  abbrev pub Channel : Type 0
  Channel = BypassOutput R × SharedState

  unfoldable pub publish_occupancy : Channel → Channel
  publish_occupancy (o, s) = (o, record s { current_frames = R.held_slots o.consumer })

  unfoldable pub record_published_frames : Channel → ℕ → Channel
  unfolding publish_occupancy
  record_published_frames (o, s) frames =
      publish_occupancy (o, record s { output_frames = wrapping_add64 s.output_frames frames })

  unfoldable pub synchronize_generation : Channel → Channel
  synchronize_generation (o, s) =
      if not (s.generation == o.generation)
      then (
        record o {
          generation = s.generation;
          startup_ready = false;
          leading_silence_pending = o.empty_while_buffering;
          ramp = reset_silent o.ramp;
          scratch = replicate (list_length o.scratch) 0;
        },
        s,
      )
      else (o, s)

  -- The `while` loop; every round takes a sample out, so the slots held are enough rounds.
  unfoldable pub discard_loop : ℕ → Channel → Channel
  discard_loop zero c = c
  discard_loop (suc fuel) (o, s) = elim (is_stale o.generation (R.peek o.consumer)) [
    | false ↦ (o, s)
    | true ↦ discard_loop fuel (
      record o { consumer = (R.pop o.consumer).0 },
      record s { discarded_stale_frames = wrapping_add64 s.discarded_stale_frames 1 },
    )
  ]

  unfoldable pub discard_stale_prefix : Channel → Channel
  discard_stale_prefix (o, s) = discard_loop (R.held_slots o.consumer) (o, s)

  -- What the `for` loop over `scratch` has read, and whether it read all.
  pub record Taken : Type 0 where
    pub ring : R.State
    pub values : List Sample
    pub complete : Bool

  -- One round of the loop, with the rounds that follow it.
  unfoldable pub taken : ℕ → R.State × Option TaggedSample → (R.State → Taken) → Taken
  taken generation (next, none) rest = record { ring = next; values = []; complete = false }
  taken generation (next, some x) rest =
      if x.generation == generation
      then record (rest next) { values = x.value ∷ (rest next).values }
      else record { ring = next; values = []; complete = false }

  unfoldable pub take_samples : ℕ → ℕ → R.State → Taken
  unfolding taken
  take_samples zero generation ring = record { ring = ring; values = []; complete = true }
  take_samples (suc n) generation ring = taken generation (R.pop ring) (take_samples n generation)

  -- `while self.consumer.pop().is_ok()`, with a round for each sample held.
  unfoldable pub drain_loop : ℕ → Channel → Channel
  drain_loop zero c = c
  drain_loop (suc fuel) (o, s) =
      let (next, popped) = R.pop o.consumer in
      elim popped [
        | none ↦ (record o { consumer = next }, s)
        | some x ↦ drain_loop fuel (
          record o { consumer = next },
          record s { discarded_stale_frames = wrapping_add64 s.discarded_stale_frames 1 },
        )
      ]

  unfoldable pub discard_pending_sensitive : Channel → Channel
  unfolding publish_occupancy
  discard_pending_sensitive (o, s) =
      let (o', s') = drain_loop (suc (R.held_slots o.consumer)) (o, s) in
      publish_occupancy (
        record o' {
          scratch = replicate (list_length o'.scratch) 0;
          startup_ready = false;
          leading_silence_pending = o'.empty_while_buffering;
          ramp = reset_silent o'.ramp;
        },
        s',
      )

  unfoldable pub clear_sensitive : Channel → Channel
  unfolding request_resync discard_pending_sensitive
  clear_sensitive (o, s) =
      let (o', s') = discard_pending_sensitive (o, (request_resync s).0) in
      (record o' { generation = s'.generation }, s')

  unfoldable pub reject_oversized_request : Channel → ℕ → Channel
  reject_oversized_request (o, s) frames = (
    record o { ramp = reset_silent o.ramp },
    record s {
      output_callbacks = wrapping_add64 s.output_callbacks 1;
      output_frames = wrapping_add64 s.output_frames frames;
      oversized_requests = wrapping_add64 s.oversized_requests 1;
    },
  )

  module _ (g : Gain) where
    abbrev pub Filled : Type 0
    Filled = Channel × List Sample × Result BypassOutputError BypassOutputReport

    -- The two early returns of `fill` that publish silence.
    unfoldable pub fill_silence : Channel → (length published : ℕ) → Filled
    unfolding record_published_frames
    fill_silence c length published =
        let (o, s) = record_published_frames c published in
        (
          (
            o,
            record s { startup_silence_frames = wrapping_add64 s.startup_silence_frames published },
          ),
          replicate length 0,
          ok (record {
            frames = to_u16 published;
            missing_frames = 0;
            startup = true;
            ramp_state = o.ramp.state;
          }),
        )

    -- The end of `fill`, from the answer of the ramp.
    unfoldable pub finish_fill :
        Channel → ℕ → FaultRamp × List Sample × Result FaultRampError FaultRampReport → Filled
    unfolding record_published_frames
    finish_fill (o, s) length (ramp, output, err e) =
        ((record o { ramp = ramp }, s), output, err (fault_ramp e))
    finish_fill (o, s) length (ramp, output, ok report) = (
      record_published_frames
          (
            record o { ramp = ramp },
            record s {
              missing_frames = wrapping_add64 s.missing_frames report.missing_samples;
              sanitized_samples =
                  wrapping_add64 s.sanitized_samples
                    (saturating_add u64_max report.sanitized.non_finite report.sanitized.subnormal);
            },
          )
          length,
      output,
      ok (record {
        frames = to_u16 length;
        missing_frames = report.missing_samples;
        startup = false;
        ramp_state = report.state;
      }),
    )

    -- `fill` once the `for` loop has run.
    unfoldable pub fill_taken : Channel → ℕ → Taken → Filled
    unfolding finish_fill request_resync
    fill_taken (o, s) length t =
        let o' = record o {
          consumer = t.ring;
          scratch = t.values ++ drop (list_length t.values) o.scratch;
        } in
        if t.complete
        then finish_fill (o', s) length (Fault.process g o.ramp (some t.values) length)
        else finish_fill
            (
              record o' {
                startup_ready = false;
                leading_silence_pending = o.empty_while_buffering;
              },
              (request_resync (record s { underflows = wrapping_add64 s.underflows 1 })).0,
            )
            length (Fault.process g o.ramp none length)

    unfoldable pub start_output : BypassOutput R → BypassOutput R
    start_output o =
        if not o.startup_ready
        then record o { startup_ready = true; ramp = begin_recovery o.ramp }
        else o

    -- `fill` once the output is started.
    unfoldable pub fill_started : Channel → ℕ → Filled
    unfolding fill_silence fill_taken
    fill_started (o, s) length =
        if o.empty_while_buffering && o.leading_silence_pending
        then fill_silence (record o { leading_silence_pending = false }, s) length length
        else fill_taken (o, s) length (take_samples length o.generation o.consumer)

    -- `fill` once the output has enough samples to start.
    unfoldable pub fill_ready : Channel → ℕ → Filled
    unfolding start_output fill_started
    fill_ready (o, s) length = fill_started (start_output o, s) length

    -- The samples that must be held before the output starts.
    abbrev pub startup_required : BypassOutput R → ℕ → ℕ
    startup_required o length =
        saturating_add u64_max o.startup_frame_samples
          (saturating_mul u64_max length o.startup_quanta)

    -- `fill` once the stale samples are gone.
    unfoldable pub fill_synchronized : Channel → ℕ → Filled
    unfolding fill_silence fill_ready
    fill_synchronized (o, s) length =
        if not o.startup_ready && ltb (R.held_slots o.consumer) (startup_required o length)
        then fill_silence (o, s) length (if o.empty_while_buffering then 0 else length)
        else fill_ready (o, s) length

    unfoldable pub fill : Channel → ℕ → Filled
    unfolding fill_synchronized reset_silent
    fill (o, s) length =
        let called = record s { output_callbacks = wrapping_add64 s.output_callbacks 1 } in
        if ltb max_callback_frames length
        then (
          (
            record o { ramp = reset_silent o.ramp },
            record called { oversized_requests = wrapping_add64 called.oversized_requests 1 },
          ),
          replicate length 0,
          err quantum_too_large,
        )
        else fill_synchronized (discard_stale_prefix (synchronize_generation (o, called))) length

-- The output that `create_channel` makes beside the shared state.
unfoldable pub create_channel :
    (R : Ring) → (startup_frame_samples startup_quanta : ℕ) → Bool → Channel R
create_channel R startup_frame_samples startup_quanta empty_while_buffering = (
  record {
    consumer = R.new bypass_ring_capacity;
    generation = default_shared.generation;
    startup_ready = false;
    scratch = replicate max_callback_frames 0;
    ramp = reset_silent Fault.new;
    startup_frame_samples = startup_frame_samples;
    startup_quanta = startup_quanta;
    empty_while_buffering = empty_while_buffering;
    leading_silence_pending = empty_while_buffering;
  },
  default_shared,
)

unfoldable pub create_bypass_channel : (R : Ring) → Channel R
unfolding create_channel
create_bypass_channel R = create_channel R model_frame_samples bypass_startup_quanta false

unfoldable pub create_processed_channel : (R : Ring) → Channel R
unfolding create_channel
create_processed_channel R = create_channel R model_frame_samples 0 true
