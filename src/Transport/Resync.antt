-- ===== src/Transport/Resync.antt =====
-- crates/noire-pipewire/src/bypass.rs: a new generation and the callback that follows it.
use mathlib.Core.Path.{ap₂, subst⁻¹}
use noire.Base.{
  ℕ, ◌≤◌, ◌<◌, ◌≡◌, ◌≢◌, refl, ap, ◌∙◌, Bool, true, false, List, [], ltb, ◌==◌, arith, le→ltb_false,
  lt→ltb, length, replicate, wrapping_add64,
}
use noire.Dsp.Canonical.{Sample, max_callback_frames}
use noire.Dsp.Fault.{Gain}
use noire.Transport.{
  SharedState, Ring, RingContract, request_resync, record_overflow, write_processed, reset,
}
use noire.Transport.Output.{
  BypassOutput, Filled, synchronize_generation, discard_stale_prefix, publish_occupancy,
  record_published_frames, fill_silence, startup_required, fill_synchronized, fill,
}
use noire.Transport.Laws.{
  fresh_from, discard_stale_prefix_lem, held_samples, fresh_from_none, NoneOf,
}
use noire.Transport.Fill.{synchronized_lem}

module _ {R : Ring} (C : RingContract R) (g : Gain) where
  -- Silence is written, nothing is queued, and the output waits for new samples.
  abbrev pub IsQuiet : ℕ → Filled R g → Type 0
  IsQuiet n q =
      (q.1 ≡ replicate n 0) × (C.contents q.0.0.consumer ≡ []) × (q.0.0.startup_ready ≡ false)

  fill_synchronized_waits :
      (o : BypassOutput R) (s : SharedState) (n : ℕ)
      → o.startup_ready ≡ false
      → 0 < o.startup_frame_samples
      → C.contents o.consumer ≡ []
      → IsQuiet n (fill_synchronized R g (o, s) n)
  unfolding fill_synchronized fill_silence record_published_frames publish_occupancy
  fill_synchronized_waits o s n early some_needed e =
      let none_held = held_samples C o [] e in
      let short : ltb (R.held_slots o.consumer) (startup_required R g o n) ≡ true = ground arith in
      rw (early, short) (refl, e, refl)

  synchronized_new :
      (o : BypassOutput R) (s : SharedState)
      → (s.generation == o.generation) ≡ false
      → ((synchronize_generation R (o, s)).0.startup_ready ≡ false)
        × ((synchronize_generation R (o, s)).0.startup_frame_samples ≡ o.startup_frame_samples)
  unfolding synchronize_generation
  synchronized_new o s e = rw e (refl, refl)

  -- A callback that finds a new generation and nothing of it.
  fill_stale :
      (o : BypassOutput R) (s : SharedState) (n : ℕ)
      → n ≤ max_callback_frames
      → 0 < o.startup_frame_samples
      → (s.generation == o.generation) ≡ false
      → fresh_from s.generation (C.contents o.consumer) ≡ []
      → IsQuiet n (fill R g (o, s) n)
  unfolding fill
  fill_stale o s n h some_needed other stale =
      let called = record s { output_callbacks = wrapping_add64 s.output_callbacks 1 } in
      let c = synchronize_generation R (o, called) in
      let (gen, ring, shared) = synchronized_lem C g o called in
      let (early, frames) = synchronized_new o called other in
      let d = discard_stale_prefix_lem C c.0 c.1 in
      let p = discard_stale_prefix R c in
      let early' : p.0.startup_ready ≡ false =
        ap (λ (k : BypassOutput R). k.startup_ready) d.only_ring ∙ early in
      let frames' : p.0.startup_frame_samples ≡ o.startup_frame_samples =
        ap (λ (k : BypassOutput R). k.startup_frame_samples) d.only_ring ∙ frames in
      rw (le→ltb_false max_callback_frames n h) (
        fill_synchronized_waits p.0 p.1 n early' (omega (arith, frames'))
          (d.fresh ∙ ap₂ (λ k r. fresh_from k (C.contents r)) gen ring ∙ stale))

  -- The state that the consumer finds at a callback after a generation was begun that neither it
  -- nor a sample of the ring carries yet.
  resync_silences :
      (o : BypassOutput R) (s : SharedState) (n : ℕ)
      → n ≤ max_callback_frames
      → 0 < o.startup_frame_samples
      → o.generation ≢ s.generation
      → NoneOf s.generation (C.contents o.consumer)
      → IsQuiet n (fill R g (o, s) n)
  resync_silences o s n h some_needed other stale =
      fill_stale o s n h some_needed (ground arith)
        (fresh_from_none s.generation (C.contents o.consumer) stale)

  write_refused :
      (ring : R.State) (s : SharedState) (samples : List Sample)
      → s.publication_enabled ≡ true
      → R.free_slots ring < length samples
      → write_processed R ring s samples ≡ (ring, record_overflow s (length samples), false)
  unfolding write_processed
  write_refused ring s samples enabled full =
      simp (enabled, lt→ltb (R.free_slots ring) (length samples) full)

  -- A frame that does not fit in the ring while publication is enabled is refused: the ring keeps
  -- its samples and their order, one overflow and the frame's samples are counted, and a new
  -- generation begins. The next callback, of at most the callback bound, then writes zeros, leaves
  -- the ring empty and the output waiting for new samples, whatever generations the output and the
  -- samples in the ring carry, so also after overflows that the output has not seen yet; only the
  -- generation that begins must be none of theirs, and the output must need a sample to start.
  pub overflow_silences :
      (o : BypassOutput R) (s : SharedState) (samples : List Sample) (n : ℕ)
      → n ≤ max_callback_frames
      → 0 < o.startup_frame_samples
      → s.publication_enabled ≡ true
      → o.generation ≢ wrapping_add64 s.generation 1
      → NoneOf (wrapping_add64 s.generation 1) (C.contents o.consumer)
      → R.free_slots o.consumer < length samples
      → let (ring, s', accepted) = write_processed R o.consumer s samples in
        (accepted ≡ false)
        × (ring ≡ o.consumer)
        × (s'.overflows ≡ wrapping_add64 s.overflows 1)
        × (s'.dropped_frames ≡ wrapping_add64 s.dropped_frames (length samples))
        × (s'.generation ≡ wrapping_add64 s.generation 1)
        × IsQuiet n (fill R g (o, s') n)
  unfolding record_overflow request_resync
  overflow_silences o s samples n h some_needed enabled other stale full =
      subst⁻¹
        (λ (w : R.State × SharedState × Bool).
          (w.2 ≡ false)
          × (w.0 ≡ o.consumer)
          × (w.1.overflows ≡ wrapping_add64 s.overflows 1)
          × (w.1.dropped_frames ≡ wrapping_add64 s.dropped_frames (length samples))
          × (w.1.generation ≡ wrapping_add64 s.generation 1)
          × IsQuiet n (fill R g (o, w.1) n))
        (write_refused o.consumer s samples enabled full)
        (
          refl,
          refl,
          refl,
          refl,
          refl,
          resync_silences o (record_overflow s (length samples)) n h some_needed other stale,
        )

  -- A reset of the capture side ends what is queued: the next callback writes zeros, leaves the
  -- ring empty and the output waiting for new samples, if the generation that begins is none that
  -- the output or a sample in the ring carries.
  pub reset_silences :
      (o : BypassOutput R) (s : SharedState) (n : ℕ)
      → n ≤ max_callback_frames
      → 0 < o.startup_frame_samples
      → o.generation ≢ wrapping_add64 s.generation 1
      → NoneOf (wrapping_add64 s.generation 1) (C.contents o.consumer)
      → IsQuiet n (fill R g (o, reset R s) n)
  unfolding reset request_resync
  reset_silences o s n h some_needed other stale =
      resync_silences o (reset R s) n h some_needed other stale
