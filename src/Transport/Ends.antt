-- ===== src/Transport/Ends.antt =====
-- crates/noire-pipewire/src/bypass.rs: what a call of `fill` finds, and how it ends.
use mathlib.Core.Path.{ap₂}
use noire.Base.{
  ℕ, ◌≤◌, ◌<◌, ◌≡◌, ◌⊎◌, inl, inr, refl, sym, ap, ◌∙◌, true, false, ◌&&◌, List, ◌++◌, map, none,
  some, if◌then◌else◌, Bool, ◌==◌, leb, leb→le, leb_false→lt, Result, ok, err, Bool-cases, length,
  drop, replicate, wrapping_add64,
}
use noire.Dsp.Canonical.{Sample}
use noire.Dsp.Fault.{Gain, FaultRamp, FaultRampError, FaultRampReport, begin_recovery, reset_silent}
use noire.Dsp.Fault
use noire.Transport.{TaggedSample, SharedState, Ring, RingContract, request_resync}
use noire.Transport.Output.{
  BypassOutput, Filled, take_samples, publish_occupancy, record_published_frames, fill_silence,
  finish_fill, fill_taken, startup_required,
}
use noire.Transport.Laws.{tag, fresh_from, run_length, take_samples_complete, take_samples_reaches}

-- What a call finds: whether the output has started and whether it owes a leading silence, the
-- ramp that it renders with, the samples that must be held to start, the samples that are left
-- when the stale ones at the front are gone, and two counters.
pub record Seen : Type 0 where
  pub ready : Bool
  pub leads : Bool
  pub ramp : FaultRamp
  pub required : ℕ
  pub current : List TaggedSample
  pub generation : ℕ
  pub underflows : ℕ

module _ {R : Ring} (C : RingContract R) (g : Gain) where
  -- What an output that is on the generation finds: one that starts begins a recovery.
  abbrev pub seen_current : BypassOutput R → SharedState → ℕ → Seen
  seen_current o s n = record {
    ready = o.startup_ready;
    leads = o.empty_while_buffering && o.leading_silence_pending;
    ramp = if o.startup_ready then o.ramp else begin_recovery o.ramp;
    required = startup_required R g o n;
    current = fresh_from s.generation (C.contents o.consumer);
    generation = s.generation;
    underflows = s.underflows;
  }

  -- A generation that is new to the output takes back its start, and its leading silence is due
  -- again if it has one; its ramp recovers from silence.
  abbrev pub seen_new : BypassOutput R → SharedState → ℕ → Seen
  seen_new o s n = record (seen_current o s n) {
    ready = false;
    leads = o.empty_while_buffering;
    ramp = begin_recovery (reset_silent o.ramp);
  }

  abbrev pub seen : BypassOutput R → SharedState → ℕ → Seen
  seen o s n = if s.generation == o.generation then seen_current o s n else seen_new o s n

  -- The output has not started and too few samples are held to start, or a leading silence is due.
  abbrev pub IsHeldBack : Seen → Type 0
  IsHeldBack v = ((v.ready ≡ false) × (length v.current < v.required)) ⊎ (v.leads ≡ true)

  abbrev pub IsStarted : Seen → Type 0
  IsStarted v = ((v.ready ≡ true) ⊎ (v.required ≤ length v.current)) × (v.leads ≡ false)

  -- The three ends of a call for `n` samples.
  abbrev pub IsSilence : ℕ → Seen → Filled R g → Type 0
  IsSilence n v q =
      (q.1 ≡ replicate n 0)
      × (C.contents q.0.0.consumer ≡ v.current)
      × (q.0.1.generation ≡ v.generation)
      × (q.0.1.underflows ≡ v.underflows)

  abbrev pub IsUnderflow : ℕ → Seen → Filled R g → Type 0
  IsUnderflow n v q =
      (q.1 ≡ (Fault.process g v.ramp none n).1)
      × (q.0.0.startup_ready ≡ false)
      × (q.0.1.generation ≡ wrapping_add64 v.generation 1)
      × (q.0.1.underflows ≡ wrapping_add64 v.underflows 1)

  abbrev pub IsPlayed : ℕ → Seen → Filled R g → Type 0
  IsPlayed n v q =
      (values : List Sample) × (length values ≡ n)
      × (q.1 ≡ (Fault.process g v.ramp (some values) n).1)
      × (v.current ≡ map (tag v.generation) values ++ C.contents q.0.0.consumer)
      × (q.0.1.generation ≡ v.generation)
      × (q.0.1.underflows ≡ v.underflows)

  -- The end of a call that takes samples.
  abbrev pub TakeEnds : ℕ → Seen → Filled R g → Type 0
  TakeEnds n v q =
      ((run_length v.generation v.current < n) × IsUnderflow n v q)
      ⊎ ((n ≤ run_length v.generation v.current) × IsPlayed n v q)

  abbrev pub Ends : ℕ → Seen → Filled R g → Type 0
  Ends n v q = (IsHeldBack v × IsSilence n v q) ⊎ (IsStarted v × TakeEnds n v q)

  -- What is there once the stale samples are gone.
  abbrev pub view : BypassOutput R → SharedState → ℕ → Seen
  view o s n = record (seen_current o s n) { current = C.contents o.consumer }

  -- What the end of `fill` keeps of the channel.
  finish_fill_lem :
      (o : BypassOutput R) (s : SharedState) (n : ℕ)
      (p : FaultRamp × List Sample × Result FaultRampError FaultRampReport)
      → let q = finish_fill R g (o, s) n p in
        (q.1 ≡ p.1)
        × (q.0.0 ≡ record o { ramp = p.0 })
        × (q.0.1.generation ≡ s.generation)
        × (q.0.1.underflows ≡ s.underflows)
  unfolding finish_fill record_published_frames publish_occupancy
  finish_fill_lem o s n (r, out, ok report) = (refl, refl, refl, refl)
  finish_fill_lem o s n (r, out, err e) = (refl, refl, refl, refl)

  pub fill_taken-Ends :
      (o : BypassOutput R) (s : SharedState) (n : ℕ)
      → o.startup_ready ≡ true
      → o.generation ≡ s.generation
      → TakeEnds n (view o s n) (fill_taken R g (o, s) n (take_samples R n o.generation o.consumer))
  unfolding fill_taken request_resync
  fill_taken-Ends o s n started e =
      let t = take_samples R n o.generation o.consumer in
      let reaches : t.complete ≡ leb n (run_length s.generation (C.contents o.consumer)) =
        take_samples_reaches C n o.generation o.consumer
        ∙ ap (λ k. leb n (run_length k (C.contents o.consumer))) e in
      let ramp : o.ramp ≡ (view o s n).ramp = rw started refl in
      elim (Bool-cases t.complete) [
        | inl done ↦
            let (len, all) = take_samples_complete C n o.generation o.consumer done in
            let o' : BypassOutput R = record o {
              consumer = t.ring;
              scratch = t.values ++ drop (length t.values) o.scratch;
            } in
            let f = finish_fill_lem o' s n (Fault.process g o.ramp (some t.values) n) in
            rw done (
              inr (
                leb→le n _ (sym reaches ∙ done),
                (
                  t.values,
                  len,
                  f.0 ∙ ap (λ r. (Fault.process g r (some t.values) n).1) ramp,
                  all
                      ∙ ap₂
                          (λ k (l : BypassOutput R). map (tag k) t.values ++ C.contents l.consumer)
                          e (sym f.1),
                  f.2,
                  f.3,
                ),
              ))
        | inr short ↦
            let o' : BypassOutput R = record o {
              consumer = t.ring;
              startup_ready = false;
              scratch = t.values ++ drop (length t.values) o.scratch;
              leading_silence_pending = o.empty_while_buffering;
            } in
            let f =
              finish_fill_lem o'
                (request_resync (record s { underflows = wrapping_add64 s.underflows 1 })).0 n
                (Fault.process g o.ramp none n) in
            rw short (
              inl (
                leb_false→lt n _ (sym reaches ∙ short),
                (
                  f.0 ∙ ap (λ r. (Fault.process g r none n).1) ramp,
                  ap (λ (o : BypassOutput R). o.startup_ready) f.1,
                  f.2,
                  f.3,
                ),
              ))
      ]

  pub fill_silence-Ends :
      (o : BypassOutput R) (s : SharedState) (n m : ℕ) (v : Seen)
      → v.current ≡ C.contents o.consumer
      → v.generation ≡ s.generation
      → v.underflows ≡ s.underflows
      → IsSilence n v (fill_silence R g (o, s) n m)
  unfolding fill_silence record_published_frames publish_occupancy
  fill_silence-Ends o s n m v run gen unders = (refl, sym run, sym gen, sym unders)
