-- ===== src/Transport/Fill.antt =====
-- crates/noire-pipewire/src/bypass.rs: a call of `fill`.
use mathlib.Core.Path.{subst}
use noire.Base.{
  ℕ, ◌≤◌, ◌<◌, ◌≡◌, ◌⊎◌, inl, inr, refl, sym, ap, ◌∙◌, true, false, not, ◌&&◌, if◌then◌else◌, Bool,
  ◌==◌, ltb, ltb→lt, arith, Bool-cases, le→ltb_false, length, replicate, wrapping_add64,
}
use noire.Dsp.Canonical.{max_callback_frames}
use noire.Dsp.Fault.{Gain, begin_recovery, reset_silent}
use noire.Transport.{SharedState, Ring, RingContract}
use noire.Transport.Output.{
  BypassOutput, synchronize_generation, discard_stale_prefix, start_output, fill_started,
  fill_ready, fill_synchronized, startup_required, fill,
}
use noire.Transport.Laws.{fresh_from, discard_stale_prefix_lem, held_samples}
use noire.Transport.Ends.{
  seen_current, seen_new, seen, view, IsSilence, TakeEnds, Ends, fill_taken-Ends, fill_silence-Ends,
}

and_true : (a b : Bool) → (a && b) ≡ true → (a ≡ true) × (b ≡ true)
and_true a b h = ground arith

and_self : (b : Bool) → (b && b) ≡ b
and_self b = ground arith

not-true : (b : Bool) → not b ≡ true → b ≡ false
not-true b h = ground arith

module _ {R : Ring} (C : RingContract R) (g : Gain) where
  fill_started-Ends :
      (o : BypassOutput R) (s : SharedState) (n : ℕ)
      → o.startup_ready ≡ true
      → o.generation ≡ s.generation
      → let v = view C g o s n in
        let q = fill_started R g (o, s) n in
        ((v.leads ≡ true) × IsSilence C g n v q) ⊎ ((v.leads ≡ false) × TakeEnds C g n v q)
  unfolding fill_started
  fill_started-Ends o s n started e =
      elim (Bool-cases (o.empty_while_buffering && o.leading_silence_pending)) [
        | inl silent ↦
            let kept =
              fill_silence-Ends C g (record o { leading_silence_pending = false }) s n n
                (view C g o s n) refl refl refl in
            rw silent (inl (refl, kept))
        | inr audible ↦ rw audible (inr (refl, fill_taken-Ends C g o s n started e))
      ]

  start_output_ready : (o : BypassOutput R) → o.startup_ready ≡ true → start_output R g o ≡ o
  unfolding start_output
  start_output_ready o h = rw h refl

  start_output_early :
      (o : BypassOutput R)
      → o.startup_ready ≡ false
      → start_output R g o ≡ record o { startup_ready = true; ramp = begin_recovery o.ramp }
  unfolding start_output
  start_output_early o h = rw h refl

  fill_ready-Ends :
      (o : BypassOutput R) (s : SharedState) (n : ℕ)
      → o.generation ≡ s.generation
      → let v = view C g o s n in
        let q = fill_ready R g (o, s) n in
        ((v.leads ≡ true) × IsSilence C g n v q) ⊎ ((v.leads ≡ false) × TakeEnds C g n v q)
  unfolding fill_ready
  fill_ready-Ends o s n e = elim (Bool-cases o.startup_ready) [
    | inl started ↦ rw (start_output_ready o started) (fill_started-Ends o s n started e)
    | inr early ↦
        let started : BypassOutput R = record o {
          startup_ready = true;
          ramp = begin_recovery o.ramp;
        } in
        rw (start_output_early o early, early) (fill_started-Ends started s n refl e)
  ]

  fill_synchronized-Ends :
      (o : BypassOutput R) (s : SharedState) (n : ℕ)
      → o.generation ≡ s.generation
      → Ends C g n (view C g o s n) (fill_synchronized R g (o, s) n)
  unfolding fill_synchronized
  fill_synchronized-Ends o s n e =
      let held = held_samples C o (C.contents o.consumer) refl in
      let required = startup_required R g o n in
      let few = ltb (R.held_slots o.consumer) required in
      elim (Bool-cases (not o.startup_ready && few)) [
        | inl waits ↦
            let (early, short) = and_true (not o.startup_ready) few waits in
            let held_back : length (C.contents o.consumer) < required =
              subst (λ k. k < required) held (ltb→lt (R.held_slots o.consumer) required short) in
            let kept =
              fill_silence-Ends C g o s n (if o.empty_while_buffering then 0 else n)
                (view C g o s n) refl refl refl in
            rw waits (inl (inl (not-true o.startup_ready early, held_back), kept))
        | inr begins ↦
            let begun : (o.startup_ready ≡ true) ⊎ (required ≤ length (C.contents o.consumer)) =
              subst (λ k. (o.startup_ready ≡ true) ⊎ (required ≤ k)) held (ground arith) in
            rw begins (started begun (fill_ready-Ends o s n e))
      ]
    where
      started :
          let v = view C g o s n in
          let q = fill_ready R g (o, s) n in
          (v.ready ≡ true) ⊎ (v.required ≤ length v.current)
          → ((v.leads ≡ true) × IsSilence C g n v q) ⊎ ((v.leads ≡ false) × TakeEnds C g n v q)
          → Ends C g n v q
      started begun (inl (silent, kept)) = inl (inr silent, kept)
      started begun (inr (audible, ends)) = inr ((begun, audible), ends)

  -- `fill` once it is called with a callback's samples.
  pub synchronized_lem :
      (o : BypassOutput R) (s : SharedState)
      → ((synchronize_generation R (o, s)).0.generation ≡ s.generation)
        × ((synchronize_generation R (o, s)).0.consumer ≡ o.consumer)
        × ((synchronize_generation R (o, s)).1 ≡ s)
  unfolding synchronize_generation
  synchronized_lem o s = ground arith

  fill_discarded-Ends :
      (o : BypassOutput R) (s : SharedState) (n : ℕ)
      → o.generation ≡ s.generation
      → Ends C g n
          (seen_current C g o s n)
          (fill_synchronized R g (discard_stale_prefix R (o, s)) n)
  fill_discarded-Ends o s n e =
      let d = discard_stale_prefix_lem C o s in
      let p = discard_stale_prefix R (o, s) in
      let run : C.contents p.0.consumer ≡ fresh_from s.generation (C.contents o.consumer) =
        d.fresh ∙ ap (λ k. fresh_from k (C.contents o.consumer)) e in
      let same : p.0.generation ≡ p.1.generation =
        ap (λ (k : BypassOutput R). k.generation) d.only_ring ∙ e ∙ sym d.same_generation in
      let found : view C g p.0 p.1 n ≡ seen_current C g o s n = λ i.
        record (seen_current C g (d.only_ring i) s n) {
          current = run i;
          generation = d.same_generation i;
          underflows = d.same_underflows i;
        } in
      subst (λ v. Ends C g n v (fill_synchronized R g p n)) found
        (fill_synchronized-Ends p.0 p.1 n same)

  -- A call for no more samples than the callback bound ends in one of three ways, by what it finds:
  -- the output's start, its ramp, and the run of samples that is left when the stale ones at the
  -- front of the ring are dropped. It is silent and consumes none of them, exactly if the output
  -- has not started and fewer are held than it needs to start, or a leading silence is due.
  -- Otherwise, if fewer of them than were asked for are of the current generation at the front, it
  -- renders a missing input, counts one underflow, and starts a new generation with the output not
  -- ready; and if there are enough, it renders, in their order, exactly as many samples as it was
  -- asked for, the first ones of the run, all of the generation that is current at the call, and
  -- leaves the others in the ring.
  pub fill-Ends :
      (o : BypassOutput R) (s : SharedState) (n : ℕ)
      → n ≤ max_callback_frames
      → Ends C g n (seen C g o s n) (fill R g (o, s) n)
  unfolding fill synchronize_generation
  fill-Ends o s n h =
      let called = record s { output_callbacks = wrapping_add64 s.output_callbacks 1 } in
      elim (Bool-cases (s.generation == o.generation)) [
        | inl same ↦
            let e : o.generation ≡ s.generation = ground arith in
            rw (le→ltb_false max_callback_frames n h, same) (fill_discarded-Ends o called n e)
        | inr other ↦
            let fresh : BypassOutput R = record o {
              generation = s.generation;
              startup_ready = false;
              leading_silence_pending = o.empty_while_buffering;
              ramp = reset_silent o.ramp;
              scratch = replicate (length o.scratch) 0;
            } in
            let found : seen_current C g fresh called n ≡ seen_new C g o s n =
              λ i. record (seen_new C g o s n) { leads = and_self o.empty_while_buffering i } in
            rw (le→ltb_false max_callback_frames n h, other)
              (subst
                (λ v.
                  Ends C g n v (fill_synchronized R g (discard_stale_prefix R (fresh, called)) n))
                found (fill_discarded-Ends fresh called n refl))
      ]
