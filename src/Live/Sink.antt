-- ===== src/Live/Sink.antt =====
-- crates/noire-pipewire/src/live.rs: `LiveCaptureSink`. The processed frames are handled one after the
-- other once the assembler has cut the callback, which holds no state that they touch; what the
-- clock gives for a frame is a function of the number of frames that the model was given. A callback
-- has at most `max_callback_frames` samples; the source would panic at more.
use noire.Base.{
  ℕ, ◌%◌, Bool, true, false, not, ◌||◌, List, [], ◌∷◌, ◌++◌, if◌then◌else◌, ltb, ◌==◌, Result, ok,
  err, length, drop, replicate, wrapping_add64, saturating_add, u64_max,
}
use noire.Dsp.Canonical.{Sample, max_callback_frames, model_frame_samples}
use noire.Dsp.Sanitize.{SanitizeReport, sanitize_buffer}
use noire.Dsp.Floats.{Floats}
use noire.Dsp.Fault.{one}
use noire.Dsp.Frame.{FrameAssembler, FrameAssemblerError, PushState, push}
use noire.Dsp.Frame
use noire.Dsp.Delay.{DryDelay, DryDelayError, Processed, process}
use noire.Dsp.Delay
use noire.Dsp.Ramp.{StrengthRamp, MixReport, no_mix, set_target, next, mix}
use noire.Dsp.Ramp
use noire.Dsp.Meter.{Meter, observe, take_snapshot}
use noire.Dsp.Meter
use noire.Transport.{Ring, SharedState, write_processed}
use noire.Transport
use noire.Live.{
  ProcessError, Denoiser, DeadlinePolicy, default_policy, FailMode, fail_closed, fail_open, running,
  degraded_performance, model_failed, transport_failed, LivePipelineError, incompatible_model,
  dry_delay, ParameterSnapshot, default_snapshot, DeadlineWindow, empty_window, record_miss,
  observe_time, SharedLiveState, default_timing_sample_interval, meter_publish_samples,
}

-- `started.elapsed()`, and `Instant::now()` after it.
pub record FrameTiming : Type 0 where
  pub elapsed : ℕ
  pub now : ℕ

-- What `load_parameters` reads: the epoch, the fields, and the epoch again.
pub record ParameterReads : Type 0 where
  pub first : ℕ
  pub strength : Sample
  pub enabled : Bool
  pub fail_mode : FailMode
  pub second : ℕ

pub record LiveCaptureSink (R : Ring) (D : Denoiser) : Type 0 where
  pub ring : R.State
  pub transport : SharedState
  pub model : D.State
  pub assembler : FrameAssembler
  pub dry_delay : DryDelay
  pub wet : List Sample
  pub dry : List Sample
  pub mixed : List Sample
  pub callback_scratch : List Sample
  pub strength : StrengthRamp
  pub parameters : ParameterSnapshot
  pub meter : Meter
  pub meter_samples : ℕ
  pub pending_vad : Sample
  pub shared : SharedLiveState
  pub deadline_policy : DeadlinePolicy
  pub deadline_window : DeadlineWindow
  pub callback_count : ℕ
  pub model_count : ℕ
  pub failed : Bool

-- `saturating_add` of the two counts of a report.
abbrev pub replaced : SanitizeReport → ℕ
replaced r = saturating_add u64_max r.non_finite r.subnormal

abbrev pub is_open : FailMode → Bool
is_open fail_open = true
is_open fail_closed = false

module _ (f : Floats) (R : Ring) (D : Denoiser) where
  abbrev pub Sink : Type 0
  Sink = LiveCaptureSink R D

  unfoldable pub new :
      R.State → SharedState → D.State → SharedLiveState → Result LivePipelineError Sink
  unfolding Frame.new Delay.new Ramp.new Meter.new
  new ring transport model shared =
      let d = D.descriptor in
      if not (d.sample_rate_hz == 48000)
        || (not (d.channels == 1)
            || (not (d.frame_samples == model_frame_samples)
                || not (d.hop_samples == model_frame_samples)))
      then err incompatible_model
      else elim (Delay.new d.delay_samples) [
        | err e ↦ err (dry_delay e)
        | ok line ↦ ok (record {
          ring = ring;
          transport = transport;
          model = model;
          assembler = Frame.new;
          dry_delay = line;
          wet = replicate model_frame_samples 0;
          dry = replicate model_frame_samples 0;
          mixed = replicate model_frame_samples 0;
          callback_scratch = replicate max_callback_frames 0;
          strength = Ramp.new f one;
          parameters = default_snapshot;
          meter = Meter.new;
          meter_samples = 0;
          pending_vad = 0;
          shared = shared;
          deadline_policy = default_policy;
          deadline_window = empty_window;
          callback_count = 0;
          model_count = 0;
          failed = false;
        })
      ]

  unfoldable pub reset_signal_state : Sink → Sink
  unfolding Frame.reset Delay.reset Meter.new
  reset_signal_state k = record k {
    assembler = Frame.reset k.assembler;
    dry_delay = Delay.reset k.dry_delay;
    wet = replicate (length k.wet) 0;
    dry = replicate (length k.dry) 0;
    mixed = replicate (length k.mixed) 0;
    callback_scratch = replicate (length k.callback_scratch) 0;
    meter = Meter.new;
    meter_samples = 0;
    pending_vad = 0;
    deadline_window = empty_window;
    failed = false;
    shared = record (k.shared) { state = running };
  }

  unfoldable pub reset_deactivated : Sink → Sink
  unfolding reset_signal_state
  reset_deactivated k =
      let q = reset_signal_state (record k { model = D.reset k.model }) in
      record q {
        shared = record (q.shared) { model_resets = wrapping_add64 q.shared.model_resets 1 };
      }

  unfoldable pub set_deadline_policy_deactivated : Sink → DeadlinePolicy → Sink
  set_deadline_policy_deactivated k policy = record k {
    deadline_policy = policy;
    deadline_window = empty_window;
  }

  unfoldable pub load_parameters : Sink → ParameterReads → Sink
  unfolding set_target
  load_parameters k r =
      if r.first == k.parameters.epoch || not (r.first % 2 == 0)
      then k
      else if not (r.first == r.second)
      then k
      else let target = if r.enabled then r.strength else 0 in
        record k {
          parameters = record { epoch = r.second; fail_mode = r.fail_mode };
          strength =
              if not (target == k.strength.target)
              then set_target f k.strength target 0
              else k.strength;
        }

  -- `transport.write_processed(..)`.
  unfoldable pub publish : Sink → List Sample → Sink × Bool
  unfolding write_processed
  publish k samples =
      let (ring, transport, accepted) = write_processed R k.ring k.transport samples in
      (record k { ring = ring; transport = transport }, accepted)

  abbrev count_dry : Sink × Bool → Sink
  count_dry (k, false) = k
  count_dry (k, true) = record k {
    shared = record (k.shared) { dry_frames = wrapping_add64 k.shared.dry_frames 1 };
  }

  -- `if fail_mode == Open && transport.write_processed(dry) { dry_frames += 1 }`.
  unfoldable pub publish_dry : Sink → Sink
  unfolding publish
  publish_dry k = if is_open k.parameters.fail_mode then count_dry (publish k k.dry) else k

  unfoldable pub fail_model : Sink → Sink
  fail_model k = record k {
    failed = true;
    shared = record (k.shared) {
      state = model_failed;
      model_errors = wrapping_add64 k.shared.model_errors 1;
    };
  }

  -- The deadline of a sampled frame.
  unfoldable pub check_deadline : Sink → FrameTiming → Sink
  unfolding record_miss
  check_deadline k t =
      let missed = record k {
        shared = record (k.shared) { deadline_misses = wrapping_add64 k.shared.deadline_misses 1 };
      } in
      let (window, degraded) = record_miss k.deadline_window t.now k.deadline_policy in
      if ltb k.deadline_policy.model_deadline t.elapsed
      then (if degraded
          then record missed {
            deadline_window = window;
            shared = record (missed.shared) { state = degraded_performance };
          }
          else record missed { deadline_window = window })
      else k

  -- `if let Some(started) = started`.
  unfoldable pub time_frame : Sink → FrameTiming → Sink
  unfolding check_deadline observe_time
  time_frame k t =
      let sampled = k.model_count % default_timing_sample_interval == 0 in
      let timed = record k {
        shared = record (k.shared) { model_timing = observe_time k.shared.model_timing t.elapsed };
      } in
      if k.shared.parameters.diagnostic_timing || sampled
      then (if sampled then check_deadline timed t else timed)
      else k

  -- The loop that mixes the two frames.
  unfoldable pub mix_frames :
      StrengthRamp → List Sample → List Sample → MixReport → StrengthRamp × List Sample × MixReport
  unfolding next mix
  mix_frames s (d ∷ dry) (w ∷ wet) report =
      let (s', level) = next f s in
      let (x, r) = mix f d w level report in
      let (last, xs, total) = mix_frames s' dry wet r in (last, x ∷ xs, total)
  mix_frames s _ _ report = (s, [], report)

  -- The meter, and what it publishes every tenth of a second.
  unfoldable pub meter_frame : Sink → Sink
  unfolding observe take_snapshot
  meter_frame k =
      let meter = observe f k.meter k.mixed in
      let meter_samples = saturating_add u64_max k.meter_samples model_frame_samples in
      let (fresh, snapshot) = take_snapshot f meter in
      if ltb meter_samples meter_publish_samples
      then record k { meter = meter; meter_samples = meter_samples }
      else record k {
        meter = fresh;
        meter_samples = 0;
        shared = record (k.shared) {
          vad_bits = k.pending_vad;
          peak_bits = snapshot.peak;
          rms_bits = snapshot.rms;
        };
      }

  -- From `let mut mix_report` on, for the probability of speech.
  unfoldable pub mix_frame : Sink → Sample → Sink
  unfolding mix_frames
  mix_frame k vad =
      let (strength, mixed, report) = mix_frames k.strength k.dry k.wet no_mix in
      record k {
        strength = strength;
        mixed = mixed;
        pending_vad = vad;
        shared = record (k.shared) {
          hard_ceiling_samples = wrapping_add64 k.shared.hard_ceiling_samples report.hard_ceiling;
          sanitized_samples = wrapping_add64 k.shared.sanitized_samples (replaced report.sanitized);
        };
      }

  unfoldable pub publish_mixed : Sink → Sink
  unfolding publish
  publish_mixed k =
      let (q, accepted) = publish k k.mixed in
      if accepted
      then record q {
        shared = record (q.shared) { model_frames = wrapping_add64 q.shared.model_frames 1 };
      }
      else record q { failed = true; shared = record (q.shared) { state = transport_failed } }

  -- The match on the answer of the model.
  unfoldable pub after_model : Sink → Result ProcessError Sample → Sink
  unfolding mix_frame meter_frame publish_mixed fail_model publish_dry
  after_model k (err e) = publish_dry (fail_model (record k { wet = replicate (length k.wet) 0 }))
  after_model k (ok vad) = publish_mixed (meter_frame (mix_frame k vad))

  -- From `model_count` on.
  unfoldable pub run_model : Sink → (ℕ → FrameTiming) → List Sample → Sink
  unfolding after_model time_frame
  run_model k clock frame =
      let model_count = saturating_add u64_max k.model_count 1 in
      let (model, wet, result) = D.process_frame k.model frame k.wet in
      after_model
        (time_frame (record k { model_count = model_count; model = model; wet = wet })
          (clock model_count))
        result

  -- What follows the dry delay.
  unfoldable pub after_delay :
      Sink → (ℕ → FrameTiming) → List Sample → Result DryDelayError Processed → Sink
  unfolding run_model publish_dry fail_model
  after_delay k clock frame (err e) = fail_model k
  after_delay k clock frame (ok p) =
      let q = record k {
        dry_delay = p.line;
        dry = p.output;
        shared = record (k.shared) {
          sanitized_samples = wrapping_add64 k.shared.sanitized_samples (replaced p.report);
        };
      } in
      if k.failed then publish_dry q else run_model q clock frame

  unfoldable pub process_frame_parts : Sink → (ℕ → FrameTiming) → List Sample → Sink
  unfolding after_delay process
  process_frame_parts k clock frame =
      after_delay k clock frame (process k.dry_delay frame (length k.dry))

  unfoldable pub process_frames : Sink → (ℕ → FrameTiming) → List (List Sample) → Sink
  unfolding process_frame_parts
  process_frames k clock [] = k
  process_frames k clock (frame ∷ frames) =
      process_frames (process_frame_parts k clock frame) clock frames

  -- The callback's samples through the assembler.
  unfoldable pub after_push : Sink → (ℕ → FrameTiming) → Result FrameAssemblerError PushState → Sink
  unfolding process_frames fail_model
  after_push k clock (err e) = fail_model k
  after_push k clock (ok s) = process_frames (record k { assembler = s.assembler }) clock s.frames

  unfoldable pub count_input : Sink → List Sample → Sink
  count_input k samples = record k {
    callback_count = saturating_add u64_max k.callback_count 1;
    shared = record (k.shared) {
      input_samples = wrapping_add64 k.shared.input_samples (length samples);
    };
  }

  unfoldable pub sanitize_input : Sink → List Sample → Sink × List Sample
  unfolding sanitize_buffer
  sanitize_input k samples =
      let (clean_samples, report) = sanitize_buffer samples in
      (
        record k {
          callback_scratch = clean_samples ++ drop (length samples) k.callback_scratch;
          shared = record (k.shared) {
            sanitized_samples = wrapping_add64 k.shared.sanitized_samples (replaced report);
          };
        },
        clean_samples,
      )

  unfoldable pub time_callback : Sink → (elapsed : ℕ) → Sink
  unfolding observe_time
  time_callback k elapsed =
      if k.shared.parameters.diagnostic_timing
        || k.callback_count % default_timing_sample_interval == 0
      then record k {
        shared = record (k.shared) {
          callback_timing = observe_time k.shared.callback_timing elapsed;
        };
      }
      else k

  -- `CaptureSink::write`.
  unfoldable pub write :
      Sink → ParameterReads → (ℕ → FrameTiming) → (elapsed : ℕ) → List Sample → Sink
  unfolding load_parameters count_input sanitize_input after_push time_callback push
  write k reads clock elapsed samples =
      let (q, clean_samples) =
        sanitize_input (load_parameters (count_input k samples) reads) samples in
      time_callback (after_push q clock (push q.assembler clean_samples)) elapsed

  -- `CaptureSink::reset`.
  unfoldable pub reset : Sink → Sink
  unfolding reset_deactivated Transport.reset
  reset k = reset_deactivated (record k { transport = Transport.reset R k.transport })
