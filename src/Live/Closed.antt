-- ===== src/Live/Closed.antt =====
-- crates/noire-pipewire/src/live.rs: the sink after a failure.
use mathlib.Core.Path.{subst⁻¹}
use noire.Base.{
  ℕ, ◌≡◌, refl, ap, ◌∙◌, true, false, List, [], ◌∷◌, Result, ok, err, arith, length, All,
  wrapping_add64, saturating_add, u64_max,
}
use noire.Dsp.Canonical.{Sample}
use noire.Dsp.Floats.{Floats}
use noire.Dsp.Frame.{FrameAssemblerError, PushState, push}
use noire.Dsp.Delay.{DryDelayError, Processed, process}
use noire.Transport.{Ring, SharedState}
use noire.Live.{ParameterSnapshot, ProcessError, Denoiser, fail_closed}
use noire.Live.Sink.{
  replaced, FrameTiming, ParameterReads, Sink, load_parameters, publish_dry, fail_model,
  check_deadline, time_frame, after_model, run_model, after_delay, process_frame_parts,
  process_frames, after_push, count_input, sanitize_input, time_callback, write,
}

-- A callback: what it reads of the parameters and of the clock, and its samples.
pub record WriteCall : Type 0 where
  pub reads : ParameterReads
  pub clock : ℕ → FrameTiming
  pub elapsed : ℕ
  pub samples : List Sample

module _ (f : Floats) (R : Ring) (D : Denoiser) where
  unfoldable pub run_writes : List WriteCall → Sink f R D → Sink f R D
  unfolding write
  run_writes [] k = k
  run_writes (c ∷ calls) k = run_writes calls (write f R D k c.reads c.clock c.elapsed c.samples)

  -- The sink stays closed, and the transport is as it was.
  abbrev pub IsShut : R.State → SharedState → Sink f R D → Type 0
  IsShut ring transport k =
      (k.parameters.fail_mode ≡ fail_closed) × (k.ring ≡ ring) × (k.transport ≡ transport)

  abbrev pub IsStopped : R.State → SharedState → Sink f R D → Type 0
  IsStopped ring transport k = (k.failed ≡ true) × IsShut ring transport k

  publish_dry_closed :
      (k : Sink f R D) → k.parameters.fail_mode ≡ fail_closed → publish_dry f R D k ≡ k
  unfolding publish_dry
  publish_dry_closed k h = simp (h)

  after_delay_failed :
      (k : Sink f R D) (clock : ℕ → FrameTiming) (frame : List Sample) (p : Processed)
      → k.failed ≡ true
      → after_delay f R D k clock frame (ok p)
        ≡ publish_dry f R D (record k {
          dry_delay = p.line;
          dry = p.output;
          shared = record (k.shared) {
            sanitized_samples = wrapping_add64 k.shared.sanitized_samples (replaced p.report);
          };
        })
  unfolding after_delay
  after_delay_failed k clock frame p h = simp (h)

  pub after_delay_running :
      (k : Sink f R D) (clock : ℕ → FrameTiming) (frame : List Sample) (p : Processed)
      → k.failed ≡ false
      → after_delay f R D k clock frame (ok p)
        ≡ run_model f R D
            (record k {
              dry_delay = p.line;
              dry = p.output;
              shared = record (k.shared) {
                sanitized_samples = wrapping_add64 k.shared.sanitized_samples (replaced p.report);
              };
            })
            clock
            frame
  unfolding after_delay
  after_delay_running k clock frame p h = simp (h)

  pub time_frame_keeps :
      (k : Sink f R D) (t : FrameTiming)
      → let q = time_frame f R D k t in
        (q.parameters ≡ k.parameters) × (q.ring ≡ k.ring) × (q.transport ≡ k.transport)
  unfolding time_frame check_deadline
  time_frame_keeps k t = ground arith

  load_parameters_keeps :
      (k : Sink f R D) (r : ParameterReads)
      → r.fail_mode ≡ fail_closed
      → k.parameters.fail_mode ≡ fail_closed
      → let q = load_parameters f R D k r in
        (q.failed ≡ k.failed)
        × (q.parameters.fail_mode ≡ fail_closed)
        × (q.ring ≡ k.ring)
        × (q.transport ≡ k.transport)
  unfolding load_parameters
  load_parameters_keeps k r h w = ground arith

  time_callback_keeps :
      (k : Sink f R D) (elapsed : ℕ)
      → let q = time_callback f R D k elapsed in
        (q.failed ≡ k.failed)
        × (q.parameters ≡ k.parameters)
        × (q.ring ≡ k.ring)
        × (q.transport ≡ k.transport)
  unfolding time_callback
  time_callback_keeps k elapsed = ground arith

  module _ (ring : R.State) (transport : SharedState) where
    after_delay-IsStopped :
        (k : Sink f R D) (clock : ℕ → FrameTiming) (frame : List Sample)
        (r : Result DryDelayError Processed)
        → IsStopped ring transport k
        → IsStopped ring transport (after_delay f R D k clock frame r)
    after_delay-IsStopped k clock frame (err e) h = unfold after_delay fail_model in (refl, h.1)
    after_delay-IsStopped k clock frame (ok p) h =
        subst⁻¹ (IsStopped ring transport)
          (after_delay_failed k clock frame p h.0 ∙ publish_dry_closed _ h.1.0) h

    process_frames-IsStopped :
        (frames : List (List Sample)) (k : Sink f R D) (clock : ℕ → FrameTiming)
        → IsStopped ring transport k
        → IsStopped ring transport (process_frames f R D k clock frames)
    unfolding process_frames process_frame_parts
    process_frames-IsStopped [] k clock h = h
    process_frames-IsStopped (x ∷ xs) k clock h =
        process_frames-IsStopped xs (process_frame_parts f R D k clock x) clock
          (after_delay-IsStopped k clock x (process k.dry_delay x (length k.dry)) h)

    after_push-IsStopped :
        (k : Sink f R D) (clock : ℕ → FrameTiming) (r : Result FrameAssemblerError PushState)
        → IsStopped ring transport k
        → IsStopped ring transport (after_push f R D k clock r)
    unfolding after_push fail_model
    after_push-IsStopped k clock (err e) h = (refl, h.1)
    after_push-IsStopped k clock (ok s) h =
        process_frames-IsStopped s.frames (record k { assembler = s.assembler }) clock h

    write-IsStopped :
        (c : WriteCall) (k : Sink f R D)
        → c.reads.fail_mode ≡ fail_closed
        → IsStopped ring transport k
        → IsStopped ring transport (write f R D k c.reads c.clock c.elapsed c.samples)
    unfolding write count_input sanitize_input
    write-IsStopped c k e h =
        let counted = count_input f R D k c.samples in
        let (failed, closed, same_ring, same_transport) =
          load_parameters_keeps counted c.reads e h.1.0 in
        let loaded : IsStopped ring transport (load_parameters f R D counted c.reads) =
          (failed ∙ h.0, (closed, same_ring ∙ h.1.1, same_transport ∙ h.1.2)) in
        let (q, clean_samples) =
          sanitize_input f R D (load_parameters f R D counted c.reads) c.samples in
        let r = after_push f R D q c.clock (push q.assembler clean_samples) in
        let pushed = after_push-IsStopped q c.clock (push q.assembler clean_samples) loaded in
        let (failed', parameters', ring', transport') = time_callback_keeps r c.elapsed in
        (
          failed' ∙ pushed.0,
          (
            ap (λ (p : ParameterSnapshot). p.fail_mode) parameters' ∙ pushed.1.0,
            ring' ∙ pushed.1.1,
            transport' ∙ pushed.1.2,
          ),
        )

    run_writes-IsStopped :
        (calls : List WriteCall) (k : Sink f R D)
        → All (λ c. c.reads.fail_mode ≡ fail_closed) calls
        → IsStopped ring transport k
        → IsStopped ring transport (run_writes calls k)
    unfolding run_writes
    run_writes-IsStopped [] k e h = h
    run_writes-IsStopped (c ∷ calls) k e h =
        run_writes-IsStopped calls (write f R D k c.reads c.clock c.elapsed c.samples) e.1
          (write-IsStopped c k e.0 h)

    after_model-IsStopped :
        (k : Sink f R D) (e : ProcessError)
        → IsShut ring transport k
        → IsStopped ring transport (after_model f R D k (err e))
    unfolding after_model fail_model
    after_model-IsStopped k e h =
        subst⁻¹ (IsStopped ring transport) (publish_dry_closed _ h.0) (refl, h)

  run_model-IsStopped :
      (k : Sink f R D) (clock : ℕ → FrameTiming) (frame : List Sample) (e : ProcessError)
      → k.parameters.fail_mode ≡ fail_closed
      → (D.process_frame k.model frame k.wet).2 ≡ err e
      → IsStopped k.ring k.transport (run_model f R D k clock frame)
  unfolding run_model
  run_model-IsStopped k clock frame e closed broken =
      let (model, wet, result) = D.process_frame k.model frame k.wet in
      let q = record k {
        model_count = saturating_add u64_max k.model_count 1;
        model = model;
        wet = wet;
      } in
      let t = clock (saturating_add u64_max k.model_count 1) in
      let (parameters', ring', transport') = time_frame_keeps q t in
      subst⁻¹ (λ r. IsStopped k.ring k.transport (after_model f R D (time_frame f R D q t) r))
        broken
        (after_model-IsStopped k.ring k.transport (time_frame f R D q t) e
          (ap (λ (p : ParameterSnapshot). p.fail_mode) parameters' ∙ closed, ring', transport'))

  -- A sink that is to fail closed publishes nothing more from the frame on at which the model fails,
  -- not even that frame: however many frames are left of the callback, and whatever callbacks
  -- follow, as long as the parameters that they read say closed, the ring and the shared counters of
  -- the transport stay as they were, and the sink stays failed.
  pub failure_closes :
      (k : Sink f R D) (clock : ℕ → FrameTiming) (frame : List Sample) (frames : List (List Sample))
      (calls : List WriteCall) (p : Processed) (e : ProcessError)
      → k.failed ≡ false
      → k.parameters.fail_mode ≡ fail_closed
      → process k.dry_delay frame (length k.dry) ≡ ok p
      → (D.process_frame k.model frame k.wet).2 ≡ err e
      → All (λ c. c.reads.fail_mode ≡ fail_closed) calls
      → let last = run_writes calls (process_frames f R D k clock (frame ∷ frames)) in
        (last.failed ≡ true) × (last.ring ≡ k.ring) × (last.transport ≡ k.transport)
  unfolding process_frames process_frame_parts
  failure_closes k clock frame frames calls p e running closed delayed broken reads =
      let q : Sink f R D = record k {
        dry_delay = p.line;
        dry = p.output;
        shared = record (k.shared) {
          sanitized_samples = wrapping_add64 k.shared.sanitized_samples (replaced p.report);
        };
      } in
      let first : IsStopped k.ring k.transport (process_frame_parts f R D k clock frame) =
        subst⁻¹ (IsStopped k.ring k.transport)
          (ap (after_delay f R D k clock frame) delayed
            ∙ after_delay_running k clock frame p running)
          (run_model-IsStopped q clock frame e closed broken) in
      let rest =
        process_frames-IsStopped k.ring k.transport frames (process_frame_parts f R D k clock frame)
          clock first in
      let last =
        run_writes-IsStopped k.ring k.transport calls
          (process_frames f R D k clock (frame ∷ frames)) reads rest in
      (last.0, last.1.1, last.1.2)
