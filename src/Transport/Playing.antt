-- ===== src/Transport/Playing.antt =====
-- crates/noire-pipewire/src/bypass.rs: a write and a callback while the output plays.
use mathlib.Core.Path.{ap₂, subst, subst⁻¹}
use mathlib.Core.List.{map-append}
use noire.Base.{
  ℕ, ◌+◌, ◌≤◌, ◌≡◌, refl, sym, ap, ◌∙◌, Bool, true, false, ◌&&◌, List, ◌++◌, map, wrapping_add64,
  some, Result, ok, err, ==_refl, arith, le→ltb_false, length, length-map, take, drop,
  take-append-drop, length-take,
}
use noire.Dsp.Canonical.{Sample, max_callback_frames}
use noire.Dsp.Sanitize.{clean}
use noire.Dsp.Fault.{Gain, FaultRamp, FaultRampError, FaultRampReport, passing}
use noire.Dsp.Fault
use noire.Dsp.Fault.Process.{process_passing}
use noire.Transport.{SharedState, Ring, RingContract, write_processed, push_samples, finish_write}
use noire.Transport.Output.{
  BypassOutput, Filled, Taken, synchronize_generation, discard_stale_prefix, publish_occupancy,
  record_published_frames, finish_fill, fill_taken, take_samples, start_output, fill_started,
  fill_ready, fill_synchronized, fill,
}
use noire.Transport.Written.{push_samples_lem}
use noire.Transport.Laws.{
  tag, fresh_from, fresh_from-tag, discard_stale_prefix_lem, take_samples_run,
}

module _ {R : Ring} (C : RingContract R) (g : Gain) where
  -- The output plays: it is past its start, on the current generation, at full gain.
  pub record IsPlaying (capacity : ℕ) (queue : List Sample) (o : BypassOutput R) (s : SharedState)
      : Type 0 where
    pub enabled : s.publication_enabled ≡ true
    pub current : o.generation ≡ s.generation
    pub ready : o.startup_ready ≡ true
    pub audible : (o.empty_while_buffering && o.leading_silence_pending) ≡ false
    pub full_gain : o.ramp.state ≡ passing
    pub queued : C.contents o.consumer ≡ map (tag s.generation) queue
    pub sized : R.capacity o.consumer ≡ capacity

  finish_write_done :
      (s : SharedState) (n : ℕ) (p : R.State × Bool)
      → p.1 ≡ true
      → let w = finish_write R s n p in
        (w.0 ≡ p.0)
        × (w.1.generation ≡ s.generation)
        × (w.1.publication_enabled ≡ s.publication_enabled)
  unfolding finish_write
  finish_write_done s n (ring, true) e = (refl, refl, refl)
  finish_write_done s n (ring, false) e = cc

  write_fits :
      (ring : R.State) (s : SharedState) (samples : List Sample)
      → s.publication_enabled ≡ true
      → length samples ≤ R.free_slots ring
      → write_processed R ring s samples
        ≡ finish_write R s (length samples) (push_samples R ring s.generation samples)
  unfolding write_processed
  write_fits ring s samples enabled room =
      simp (enabled, le→ltb_false (R.free_slots ring) (length samples) room)

  pub write-IsPlaying :
      (capacity : ℕ) (queue samples : List Sample) (o : BypassOutput R) (s : SharedState)
      → IsPlaying capacity queue o s
      → length queue + length samples ≤ capacity
      → let (ring, s', accepted) = write_processed R o.consumer s samples in
        IsPlaying capacity (queue ++ samples) (record o { consumer = ring }) s'
  write-IsPlaying capacity queue samples o s p h =
      let room : length samples ≤ R.free_slots o.consumer = omega (
        arith,
        C.slots o.consumer,
        C.held o.consumer,
        ap length p.queued,
        length-map queue (tag s.generation),
        p.sized,
      ) in
      let (done, all, cap) = push_samples_lem C samples o.consumer s.generation room in
      let (ring, gen, pub_) =
        finish_write_done s (length samples) (push_samples R o.consumer s.generation samples)
          done in
      subst⁻¹ (λ w. IsPlaying capacity (queue ++ samples) (record o { consumer = w.0 }) w.1)
        (write_fits o.consumer s samples p.enabled room)
        (record {
          enabled = pub_ ∙ p.enabled;
          current = p.current ∙ sym gen;
          ready = p.ready;
          audible = p.audible;
          full_gain = p.full_gain;
          queued =
              ap C.contents ring
              ∙ all
              ∙ ap (λ l. l ++ map (tag s.generation) samples) p.queued
              ∙ sym (map-append (tag s.generation) queue samples)
              ∙ ap (λ k. map (tag k) (queue ++ samples)) (sym gen);
          sized = ap R.capacity ring ∙ cap ∙ p.sized;
        })

  -- What a callback that plays leaves and writes.
  abbrev pub Played : ℕ → (values rest : List Sample) → Filled R g → Type 0
  Played capacity values rest q = (q.1 ≡ map clean values) × IsPlaying capacity rest q.0.0 q.0.1

  finish_fill-Played :
      (capacity : ℕ) (values rest : List Sample) (o : BypassOutput R) (s : SharedState)
      (p : FaultRamp × List Sample × Result FaultRampError FaultRampReport)
      → IsPlaying capacity rest o s
      → p.0.state ≡ passing
      → p.1 ≡ map clean values
      → Played capacity values rest (finish_fill R g (o, s) (length values) p)
  unfolding finish_fill record_published_frames publish_occupancy
  finish_fill-Played capacity values rest o s (r, out, ok report) p h e = (
    e,
    record {
      enabled = p.enabled;
      current = p.current;
      ready = p.ready;
      audible = p.audible;
      full_gain = h;
      queued = p.queued;
      sized = p.sized;
    },
  )
  finish_fill-Played capacity values rest o s (r, out, err x) p h e = (
    e,
    record {
      enabled = p.enabled;
      current = p.current;
      ready = p.ready;
      audible = p.audible;
      full_gain = h;
      queued = p.queued;
      sized = p.sized;
    },
  )

  fill_taken-Played :
      (capacity : ℕ) (values rest : List Sample) (o : BypassOutput R) (s : SharedState)
      (t : Taken R)
      → IsPlaying capacity rest (record o { consumer = t.ring }) s
      → t.complete ≡ true
      → t.values ≡ values
      → length values ≤ max_callback_frames
      → Played capacity values rest (fill_taken R g (o, s) (length values) t)
  unfolding fill_taken
  fill_taken-Played capacity values rest o s t p done same h =
      let (pass, out) = process_passing g o.ramp values p.full_gain h in
      rw (done, same)
        (finish_fill-Played capacity values rest
          (record o { consumer = t.ring; scratch = values ++ drop (length values) o.scratch }) s
          (Fault.process g o.ramp (some values) (length values))
          (record {
            enabled = p.enabled;
            current = p.current;
            ready = p.ready;
            audible = p.audible;
            full_gain = p.full_gain;
            queued = p.queued;
            sized = p.sized;
          })
          pass out)

  fill_synchronized_ready :
      (o : BypassOutput R) (s : SharedState) (n : ℕ)
      → o.startup_ready ≡ true
      → fill_synchronized R g (o, s) n ≡ fill_ready R g (o, s) n
  unfolding fill_synchronized
  fill_synchronized_ready o s n e = simp (e)

  start_output_ready : (o : BypassOutput R) → o.startup_ready ≡ true → start_output R g o ≡ o
  unfolding start_output
  start_output_ready o e = simp (e)

  fill_ready_started :
      (o : BypassOutput R) (s : SharedState) (n : ℕ)
      → o.startup_ready ≡ true
      → fill_ready R g (o, s) n ≡ fill_started R g (o, s) n
  unfolding fill_ready
  fill_ready_started o s n e =
      ap (λ (k : BypassOutput R). fill_started R g (k, s) n) (start_output_ready o e)

  fill_started_audible :
      (o : BypassOutput R) (s : SharedState) (n : ℕ)
      → (o.empty_while_buffering && o.leading_silence_pending) ≡ false
      → fill_started R g (o, s) n
        ≡ fill_taken R g (o, s) n (take_samples R n o.generation o.consumer)
  unfolding fill_started
  fill_started_audible o s n e = simp (e)

  fill_synchronized-Played :
      (capacity : ℕ) (values rest : List Sample) (o : BypassOutput R) (s : SharedState)
      → IsPlaying capacity (values ++ rest) o s
      → length values ≤ max_callback_frames
      → Played capacity values rest (fill_synchronized R g (o, s) (length values))
  fill_synchronized-Played capacity values rest o s p h =
      let split : C.contents o.consumer
          ≡ map (tag o.generation) values ++ map (tag s.generation) rest =
        p.queued
        ∙ map-append (tag s.generation) values rest
        ∙ ap (λ k. map (tag k) values ++ map (tag s.generation) rest) (sym p.current) in
      let (done, same, left, cap) =
        take_samples_run C values (map (tag s.generation) rest) o.generation o.consumer split in
      let taken : Taken R = take_samples R (length values) o.generation o.consumer in
      let n : ℕ = length values in
      subst⁻¹ (Played capacity values rest)
        (fill_synchronized_ready o s n p.ready
          ∙ fill_ready_started o s n p.ready
          ∙ fill_started_audible o s n p.audible)
        (fill_taken-Played capacity values rest o s taken
          (record {
            enabled = p.enabled;
            current = p.current;
            ready = p.ready;
            audible = p.audible;
            full_gain = p.full_gain;
            queued = left;
            sized = cap ∙ p.sized;
          })
          done same h)

  pub synchronized_same :
      (o : BypassOutput R) (s : SharedState)
      → o.generation ≡ s.generation
      → synchronize_generation R (o, s) ≡ (o, s)
  unfolding synchronize_generation
  synchronized_same o s e = simp (e, ==_refl)

  discard_none :
      (capacity : ℕ) (queue : List Sample) (o : BypassOutput R) (s : SharedState)
      → IsPlaying capacity queue o s
      → let c = discard_stale_prefix R (o, s) in IsPlaying capacity queue c.0 c.1
  discard_none capacity queue o s p =
      let d = discard_stale_prefix_lem C o s in
      let c = discard_stale_prefix R (o, s) in
      subst⁻¹ (λ k. IsPlaying capacity queue k c.1) d.only_ring
        (record {
          enabled = d.same_enabled ∙ p.enabled;
          current = p.current ∙ sym d.same_generation;
          ready = p.ready;
          audible = p.audible;
          full_gain = p.full_gain;
          queued =
              d.fresh
              ∙ ap₂ fresh_from p.current p.queued
              ∙ fresh_from-tag s.generation queue
              ∙ ap (λ k. map (tag k) queue) (sym d.same_generation);
          sized = d.same_capacity ∙ p.sized;
        })

  pub fill_opens :
      (o : BypassOutput R) (s : SharedState) (n : ℕ)
      → n ≤ max_callback_frames
      → fill R g (o, s) n
        ≡ fill_synchronized R g
            (discard_stale_prefix R (
              synchronize_generation R
                (o, record s { output_callbacks = wrapping_add64 s.output_callbacks 1 })))
            n
  unfolding fill
  fill_opens o s n h = simp (le→ltb_false max_callback_frames n h)

  fill-Played :
      (capacity : ℕ) (values rest : List Sample) (o : BypassOutput R) (s : SharedState)
      → IsPlaying capacity (values ++ rest) o s
      → length values ≤ max_callback_frames
      → Played capacity values rest (fill R g (o, s) (length values))
  fill-Played capacity values rest o s p h =
      let called = record s { output_callbacks = wrapping_add64 s.output_callbacks 1 } in
      let c = discard_stale_prefix R (o, called) in
      let still = discard_none capacity (values ++ rest) o called (record {
        enabled = p.enabled;
        current = p.current;
        ready = p.ready;
        audible = p.audible;
        full_gain = p.full_gain;
        queued = p.queued;
        sized = p.sized;
      }) in
      subst⁻¹ (Played capacity values rest)
        (fill_opens o s (length values) h
          ∙ ap (λ k. fill_synchronized R g (discard_stale_prefix R k) (length values))
              (synchronized_same o called p.current))
        (fill_synchronized-Played capacity values rest c.0 c.1 still h)

  pub fill_callback-Played :
      (capacity n : ℕ) (queue : List Sample) (o : BypassOutput R) (s : SharedState)
      → IsPlaying capacity queue o s
      → n ≤ length queue
      → n ≤ max_callback_frames
      → Played capacity (take n queue) (drop n queue) (fill R g (o, s) n)
  fill_callback-Played capacity n queue o s p h w =
      let len : length (take n queue) ≡ n = omega (arith, length-take n queue) in
      subst (λ k. Played capacity (take n queue) (drop n queue) (fill R g (o, s) k)) len
        (fill-Played capacity (take n queue) (drop n queue) o s
          (subst⁻¹ (λ l. IsPlaying capacity l o s) (take-append-drop n queue) p)
          (omega (arith, len)))
