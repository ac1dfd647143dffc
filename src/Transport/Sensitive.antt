-- ===== src/Transport/Sensitive.antt =====
-- crates/noire-pipewire/src/bypass.rs: `clear_sensitive` and `discard_pending_sensitive`.
use noire.Base.{
  ℕ, zero, suc, ◌<◌, ◌≡◌, refl, ap, ◌∙◌, Option, List, [], ◌∷◌, false, arith, length, replicate,
  wrapping_add64,
}
use noire.Dsp.Fault.{silent, reset_silent}
use noire.Transport.{TaggedSample, SharedState, Ring, RingContract, request_resync}
use noire.Transport.Output.{
  BypassOutput, Channel, drain_loop, publish_occupancy, discard_pending_sensitive, clear_sensitive,
}

module _ {R : Ring} (C : RingContract R) where
  -- The loop changes nothing of the output but the ring, which it empties.
  record Drained (o : BypassOutput R) (s : SharedState) (r : Channel R) : Type 0 where
    pub only_ring : r.0 ≡ record o { consumer = r.0.consumer }
    pub same_generation : r.1.generation ≡ s.generation
    pub emptied : C.contents r.0.consumer ≡ []

  drain_loop_from :
      (fuel : ℕ) (o : BypassOutput R) (s : SharedState) (xs : List TaggedSample)
      → C.contents o.consumer ≡ xs
      → length xs < fuel
      → Drained o s (drain_loop R fuel (o, s))
  unfolding drain_loop
  drain_loop_from zero o s xs e h = absurd (omega arith)
  drain_loop_from (suc fuel) o s [] e h =
      rw (C.pop_empty o.consumer e, drain_loop)
        (record {
          only_ring = refl;
          same_generation = refl;
          emptied =
              ap (λ (k : R.State × Option TaggedSample). C.contents k.0) (C.pop_empty o.consumer e)
              ∙ e;
        })
  drain_loop_from (suc fuel) o s (x ∷ xs) e h =
      let (p, q, c) = C.pop_front o.consumer x xs e in
      let s' = record s { discarded_stale_frames = wrapping_add64 s.discarded_stale_frames 1 } in
      let d =
        drain_loop_from fuel (record o { consumer = (R.pop o.consumer).0 }) s' xs q (omega arith) in
      rw (p, drain_loop)
        (record {
          only_ring = d.only_ring;
          same_generation = d.same_generation;
          emptied = d.emptied;
        })

  -- Nothing of the old audio can be heard or read from the output.
  pub record IsCleared (o : BypassOutput R) (r : Channel R) : Type 0 where
    pub emptied : C.contents r.0.consumer ≡ []
    pub zeroed : r.0.scratch ≡ replicate (length o.scratch) 0
    pub quiet : r.0.ramp.state ≡ silent
    pub forgotten : r.0.ramp.last_output ≡ 0
    pub waiting : r.0.startup_ready ≡ false
    pub same_start : r.0.startup_frame_samples ≡ o.startup_frame_samples

  pub pending_lem :
      (o : BypassOutput R) (s : SharedState)
      → let r = discard_pending_sensitive R (o, s) in
        IsCleared o r × (r.1.generation ≡ s.generation) × (r.0.generation ≡ o.generation)
  unfolding discard_pending_sensitive publish_occupancy reset_silent
  pending_lem o s =
      let d =
        drain_loop_from (suc (R.held_slots o.consumer)) o s (C.contents o.consumer) refl
          (omega (arith, C.held o.consumer)) in
      (
        record {
          emptied = d.emptied;
          zeroed = ap (λ (k : BypassOutput R). replicate (length k.scratch) 0) d.only_ring;
          quiet = refl;
          forgotten = refl;
          waiting = refl;
          same_start = ap (λ (k : BypassOutput R). k.startup_frame_samples) d.only_ring;
        },
        d.same_generation,
        ap (λ (k : BypassOutput R). k.generation) d.only_ring,
      )

  -- Clearing the output leaves no audio behind, whatever the ring held and of whatever
  -- generations: the ring is empty, every sample of the scratch buffer is zero, the ramp is silent
  -- and remembers no sample, and the output waits for its start on a generation that is the
  -- successor of the shared one.
  pub clear_sensitive_lem :
      (o : BypassOutput R) (s : SharedState)
      → let r = clear_sensitive R (o, s) in
        IsCleared o r
        × (r.1.generation ≡ wrapping_add64 s.generation 1)
        × (r.0.generation ≡ r.1.generation)
  unfolding clear_sensitive request_resync
  clear_sensitive_lem o s =
      let (p, k, _) = pending_lem o (request_resync s).0 in
      (
        record {
          emptied = p.emptied;
          zeroed = p.zeroed;
          quiet = p.quiet;
          forgotten = p.forgotten;
          waiting = p.waiting;
          same_start = p.same_start;
        },
        k,
        refl,
      )
