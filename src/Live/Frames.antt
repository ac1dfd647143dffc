-- ===== src/Live/Frames.antt =====
-- crates/noire-pipewire/src/live.rs: a frame while suppression is off.
use mathlib.Core.Path.{ap₂, subst⁻¹, transport}
use noire.Base.{
  ℕ, ◌≡◌, inl, inr, refl, sym, ap, ◌∙◌, Bool, true, false, not, List, [], ◌∷◌, map, ok, arith,
  length, Bool-cases, wrapping_add64, saturating_add, u64_max,
}
use noire.Dsp.Canonical.{Sample}
use noire.Dsp.Sanitize.{clean, sanitize_sample-clean, clean-IsClean, clean-IsClean_eq}
use noire.Dsp.Floats.{Floats}
use noire.Dsp.Fault.{one}
use noire.Dsp.Ramp.{StrengthRamp, MixReport, no_mix, minus_one, clamp, next_from, next, mix}
use noire.Dsp.Delay.{Processed, process}
use noire.Transport.{Ring, RingContract, SharedState, write_processed}
use noire.Transport.Written.{IsWritten, write_processed-IsWritten}
use noire.Live.{Denoiser}
use noire.Live.Sink.{
  replaced, FrameTiming, Sink, publish, time_frame, check_deadline, mix_frames, meter_frame,
  mix_frame, publish_mixed, after_model, run_model, after_delay, process_frame_parts,
}
use noire.Live.Closed.{after_delay_running}

-- Comparisons of f32 with zero and one.
pub record ComparisonLaws (f : Floats) : Type 0 where
  pub zero_le_zero : f.le 0 0 ≡ true
  pub zero_lt_zero : f.lt 0 0 ≡ false
  pub one_lt_zero : f.lt one 0 ≡ false

-- A dry sample as it is published: sanitized, and within the hard ceiling.
abbrev pub limit : Floats → Sample → Sample
limit f x = clamp f (clean x) minus_one one

-- The strength stays at zero.
abbrev pub IsOff : StrengthRamp → Type 0
IsOff s = (s.remaining ≡ 0) × (s.current ≡ 0)

clean_twice : (x : Sample) → clean (clean x) ≡ clean x
clean_twice x = clean-IsClean_eq (clean x) (clean-IsClean x)

not-not : (b : Bool) → not (not b) ≡ b
not-not true = refl
not-not false = refl

module _ (f : Floats) (R : Ring) (D : Denoiser) (laws : ComparisonLaws f) where
  mix_zero : (dry wet : Sample) (report : MixReport) → (mix f dry wet 0 report).0 ≡ limit f dry
  unfolding mix
  mix_zero dry wet report =
      simp
        (laws.zero_lt_zero, laws.one_lt_zero, laws.zero_le_zero, sanitize_sample-clean, clean_twice)

  next_off : (s : StrengthRamp) → IsOff s → next f s ≡ (s, 0)
  unfolding next next_from
  next_off s h = ap (λ n. next_from f n s) h.0 ∙ ap (λ x. (s, x)) h.1

  mix_frames_off :
      (s : StrengthRamp) (dry wet : List Sample) (report : MixReport)
      → IsOff s
      → length dry ≡ length wet
      → (mix_frames f R D s dry wet report).1 ≡ map (limit f) dry
  unfolding mix_frames
  mix_frames_off s [] wet report h e = refl
  mix_frames_off s (d ∷ dry) [] report h e = absurd (omega arith)
  mix_frames_off s (d ∷ dry) (w ∷ wet) report h e = rw (next_off s h) (
      ap₂ ◌∷◌ (mix_zero d w report)
        (mix_frames_off s dry wet (mix f d w 0 report).1 h (omega arith)))

  meter_frame_keeps :
      (k : Sink f R D)
      → let q = meter_frame f R D k in
        (q.failed ≡ k.failed)
        × (q.mixed ≡ k.mixed)
        × (q.ring ≡ k.ring)
        × (q.transport ≡ k.transport)
  unfolding meter_frame
  meter_frame_keeps k = ground arith

  mix_frame_lem :
      (k : Sink f R D) (vad : Sample)
      → let q = mix_frame f R D k vad in
        (q.failed ≡ k.failed)
        × (q.mixed ≡ (mix_frames f R D k.strength k.dry k.wet no_mix).1)
        × (q.ring ≡ k.ring)
        × (q.transport ≡ k.transport)
  unfolding mix_frame
  mix_frame_lem k vad = (refl, refl, refl, refl)

  -- The transport's answer to a frame is all that decides what the sink becomes.
  abbrev pub IsPublished : R.State → SharedState → List Sample → Sink f R D → Type 0
  IsPublished ring transport samples q =
      let (next, counted, accepted) = write_processed R ring transport samples in
      (q.ring ≡ next) × (q.transport ≡ counted) × (q.failed ≡ not accepted)

  publish_mixed_lem :
      (k : Sink f R D)
      → k.failed ≡ false
      → IsPublished k.ring k.transport k.mixed (publish_mixed f R D k)
  unfolding publish_mixed publish
  publish_mixed_lem k h = elim (Bool-cases (write_processed R k.ring k.transport k.mixed).2) [
    | inl accepted ↦ rw accepted (refl, refl, h)
    | inr refused ↦ rw refused (refl, refl, refl)
  ]

  after_model_off :
      (k : Sink f R D) (vad : Sample)
      → k.failed ≡ false
      → IsOff k.strength
      → length k.dry ≡ length k.wet
      → IsPublished k.ring k.transport (map (limit f) k.dry) (after_model f R D k (ok vad))
  unfolding after_model
  after_model_off k vad running off sized =
      let m = mix_frame f R D k vad in
      let q = meter_frame f R D m in
      let (failed, mixed, ring, shared) = mix_frame_lem k vad in
      let (failed', mixed', ring', shared') = meter_frame_keeps m in
      let samples : q.mixed ≡ map (limit f) k.dry =
        mixed' ∙ mixed ∙ mix_frames_off k.strength k.dry k.wet no_mix off sized in
      transport
        (λ i.
          IsPublished ((ring' ∙ ring) i) ((shared' ∙ shared) i) (samples i) (publish_mixed f R D q))
        (publish_mixed_lem q (failed' ∙ failed ∙ running))

  time_frame_same :
      (k : Sink f R D) (t : FrameTiming)
      → let q = time_frame f R D k t in
        (q.failed ≡ k.failed)
        × (q.strength ≡ k.strength)
        × (q.dry ≡ k.dry)
        × (q.wet ≡ k.wet)
        × (q.ring ≡ k.ring)
        × (q.transport ≡ k.transport)
  unfolding time_frame check_deadline
  time_frame_same k t = ground arith

  run_model_off :
      (k : Sink f R D) (clock : ℕ → FrameTiming) (frame : List Sample) (vad : Sample)
      → k.failed ≡ false
      → IsOff k.strength
      → (D.process_frame k.model frame k.wet).2 ≡ ok vad
      → length k.dry ≡ length (D.process_frame k.model frame k.wet).1
      → IsPublished k.ring k.transport (map (limit f) k.dry) (run_model f R D k clock frame)
  unfolding run_model
  run_model_off k clock frame vad running off done sized =
      let (model, wet, result) = D.process_frame k.model frame k.wet in
      let count = saturating_add u64_max k.model_count 1 in
      let q =
        time_frame f R D (record k { model_count = count; model = model; wet = wet })
          (clock count) in
      let (failed, strength, dry, wet', ring, shared) =
        time_frame_same (record k { model_count = count; model = model; wet = wet })
          (clock count) in
      let off' : IsOff q.strength = subst⁻¹ IsOff strength off in
      let sized' : length q.dry ≡ length q.wet = ap length dry ∙ sized ∙ sym (ap length wet') in
      subst⁻¹ (λ r. IsPublished k.ring k.transport (map (limit f) k.dry) (after_model f R D q r))
        done
        (transport
          (λ i.
            IsPublished (ring i) (shared i) (map (limit f) (dry i)) (after_model f R D q (ok vad)))
          (after_model_off q vad (failed ∙ running) off' sized'))

  off-IsPublished :
      (k : Sink f R D) (clock : ℕ → FrameTiming) (frame : List Sample) (p : Processed)
      (vad : Sample)
      → k.failed ≡ false
      → IsOff k.strength
      → process k.dry_delay frame (length k.dry) ≡ ok p
      → (D.process_frame k.model frame k.wet).2 ≡ ok vad
      → length p.output ≡ length (D.process_frame k.model frame k.wet).1
      → IsPublished k.ring k.transport
          (map (limit f) p.output)
          (process_frame_parts f R D k clock frame)
  unfolding process_frame_parts
  off-IsPublished k clock frame p vad running off delayed done sized =
      subst⁻¹ (IsPublished k.ring k.transport (map (limit f) p.output))
        (ap (after_delay f R D k clock frame) delayed
          ∙ after_delay_running f R D k clock frame p running)
        (run_model_off
          (record k {
            dry_delay = p.line;
            dry = p.output;
            shared = record (k.shared) {
              sanitized_samples = wrapping_add64 k.shared.sanitized_samples (replaced p.report);
            };
          })
          clock frame vad running off done sized)

  -- Over a ring that is a FIFO, and with the comparisons of zero and one that f32 makes: while the
  -- strength rests at zero and the sink has not failed, what is published of a frame does not
  -- depend on what the model makes of it: if the dry delay line takes the frame, and the model
  -- answers without an error and with a frame of the right length, the samples that are offered to
  -- the transport are those of the dry delay line, each sanitized and held within the hard ceiling.
  -- If publication is off, they are passed over, and the sink goes on. If they do not fit, nothing
  -- is written, an overflow is counted, and the sink has failed. Otherwise they stand, in their
  -- order and with the current generation, behind what the ring held, and the sink goes on.
  pub off_publishes_dry :
      (C : RingContract R) (k : Sink f R D) (clock : ℕ → FrameTiming) (frame : List Sample)
      (p : Processed) (vad : Sample)
      → k.failed ≡ false
      → IsOff k.strength
      → process k.dry_delay frame (length k.dry) ≡ ok p
      → (D.process_frame k.model frame k.wet).2 ≡ ok vad
      → length p.output ≡ length (D.process_frame k.model frame k.wet).1
      → let q = process_frame_parts f R D k clock frame in
        IsWritten C k.ring k.transport (map (limit f) p.output) (q.ring, q.transport, not q.failed)
        × (q.transport ≡ (write_processed R k.ring k.transport (map (limit f) p.output)).1)
  off_publishes_dry C k clock frame p vad running off delayed done sized =
      let (ring, shared, failed) =
        off-IsPublished k clock frame p vad running off delayed done sized in
      let samples = map (limit f) p.output in
      let goes_on = ap not failed ∙ not-not (write_processed R k.ring k.transport samples).2 in
      (
        transport
            (λ i. IsWritten C k.ring k.transport samples (sym ring i, sym shared i, sym goes_on i))
            (write_processed-IsWritten C k.ring k.transport samples),
        shared,
      )
