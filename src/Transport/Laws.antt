-- ===== src/Transport/Laws.antt =====
-- crates/noire-pipewire/src/bypass.rs: what the loops of the two ends do to the ring's contents.
use mathlib.Core.Path.{ap₂}
use noire.Base.{
  ℕ, zero, suc, All, ◌≤◌, ◌≡◌, ◌≢◌, inl, inr, refl, sym, ap, ◌∙◌, true, false, List, [], ◌∷◌, ◌++◌,
  map, if◌then◌else◌, ◌==◌, leb, arith, Bool-cases, ==_refl, length,
}
use noire.Dsp.Canonical.{Sample}
use noire.Transport.{TaggedSample, SharedState, Ring, RingContract}
use noire.Transport.Output.{
  BypassOutput, Channel, discard_loop, discard_stale_prefix, taken, take_samples,
}

-- Samples of one generation.
abbrev pub tag : ℕ → Sample → TaggedSample
tag generation value = record { generation = generation; value = value }

-- What is left once the stale samples at the front are gone.
abbrev pub fresh_from : ℕ → List TaggedSample → List TaggedSample
fresh_from generation [] = []
fresh_from generation (x ∷ xs) =
    if x.generation == generation then x ∷ xs else fresh_from generation xs

-- How many samples at the front are of the generation.
abbrev pub run_length : ℕ → List TaggedSample → ℕ
run_length generation [] = 0
run_length generation (x ∷ xs) =
    let rest = run_length generation xs in if x.generation == generation then suc rest else 0

module _ {R : Ring} (C : RingContract R) where
  -- The loop changes nothing of the output but the ring, and no generation.
  pub record Discarded (o : BypassOutput R) (s : SharedState) (r : Channel R) : Type 0 where
    pub only_ring : r.0 ≡ record o { consumer = r.0.consumer }
    pub same_generation : r.1.generation ≡ s.generation
    pub same_capacity : R.capacity r.0.consumer ≡ R.capacity o.consumer
    pub same_enabled : r.1.publication_enabled ≡ s.publication_enabled
    pub same_underflows : r.1.underflows ≡ s.underflows
    pub fresh : C.contents r.0.consumer ≡ fresh_from o.generation (C.contents o.consumer)

  discard_loop_from :
      (fuel : ℕ) (o : BypassOutput R) (s : SharedState) (xs : List TaggedSample)
      → C.contents o.consumer ≡ xs
      → length xs ≤ fuel
      → Discarded o s (discard_loop R fuel (o, s))
  unfolding discard_loop
  discard_loop_from zero o s [] e h = record {
    only_ring = refl;
    same_generation = refl;
    same_underflows = refl;
    same_enabled = refl;
    same_capacity = refl;
    fresh = rw e refl;
  }
  discard_loop_from zero o s (x ∷ xs) e h = absurd (omega arith)
  discard_loop_from (suc fuel) o s [] e h =
      rw (C.peek_empty o.consumer e, discard_loop)
        (record {
          only_ring = refl;
          same_generation = refl;
          same_underflows = refl;
          same_enabled = refl;
          same_capacity = refl;
          fresh = rw e refl;
        })
  discard_loop_from (suc fuel) o s (x ∷ xs) e h = elim (Bool-cases (x.generation == o.generation)) [
    | inl current ↦
        rw (C.peek_front o.consumer x xs e, current, discard_loop)
          (record {
            only_ring = refl;
            same_generation = refl;
            same_underflows = refl;
            same_enabled = refl;
            same_capacity = refl;
            fresh = rw (e, current) refl;
          })
    | inr stale ↦
        let (p, q, c) = C.pop_front o.consumer x xs e in
        let d =
          discard_loop_from fuel (record o { consumer = (R.pop o.consumer).0 }) _ xs q
            (omega arith) in
        rw (C.peek_front o.consumer x xs e, stale, discard_loop)
          (record {
            only_ring = d.only_ring;
            same_generation = d.same_generation;
            same_underflows = d.same_underflows;
            same_enabled = d.same_enabled;
            same_capacity = d.same_capacity ∙ c;
            fresh = d.fresh ∙ ap (fresh_from o.generation) q ∙ rw (e, stale) refl;
          })
  ]

  pub discard_stale_prefix_lem :
      (o : BypassOutput R) (s : SharedState) → Discarded o s (discard_stale_prefix R (o, s))
  unfolding discard_stale_prefix
  discard_stale_prefix_lem o s =
      discard_loop_from (R.held_slots o.consumer) o s (C.contents o.consumer) refl
        (omega (arith, C.held o.consumer))

  -- A run of the current generation at the front is taken whole and in order.
  pub take_samples_run :
      (values : List Sample) (rest : List TaggedSample) (generation : ℕ) (ring : R.State)
      → C.contents ring ≡ map (tag generation) values ++ rest
      → let t = take_samples R (length values) generation ring in
        (t.complete ≡ true)
        × (t.values ≡ values)
        × (C.contents t.ring ≡ rest)
        × (R.capacity t.ring ≡ R.capacity ring)
  unfolding take_samples taken
  take_samples_run [] rest generation ring e = (refl, refl, e, refl)
  take_samples_run (x ∷ xs) rest generation ring e =
      let (p, q, c) = C.pop_front ring (tag generation x) (map (tag generation) xs ++ rest) e in
      let (done, same, left, cap) = take_samples_run xs rest generation (R.pop ring).0 q in
      rw (p, ==_refl generation) (done, ap (◌∷◌ x) same, left, cap ∙ c)

  -- What a complete take has read.
  take_samples_from :
      (n : ℕ) (generation : ℕ) (ring : R.State) (xs : List TaggedSample)
      → C.contents ring ≡ xs
      → (take_samples R n generation ring).complete ≡ true
      → let t = take_samples R n generation ring in
        (length t.values ≡ n) × (xs ≡ map (tag generation) t.values ++ C.contents t.ring)
  unfolding take_samples taken
  take_samples_from zero generation ring xs e h = (refl, sym e)
  take_samples_from (suc n) generation ring [] e h =
      let impossible : false ≡ true = rw (C.pop_empty ring e) at h in cc
  take_samples_from (suc n) generation ring (x ∷ xs) e h =
      let (p, q, c) = C.pop_front ring x xs e in
      elim (Bool-cases (x.generation == generation)) [
        | inr stale ↦ (let impossible : false ≡ true = rw (p, stale) at h in cc)
        | inl current ↦
            let (len, all) =
              take_samples_from n generation (R.pop ring).0 xs q (rw (p, current) at h) in
            let same : x.generation ≡ generation = ground arith in
            rw (p, current) (ap suc len, ap₂ ◌∷◌ (ap (λ k. tag k x.value) same) all)
      ]

  pub take_samples_complete :
      (n : ℕ) (generation : ℕ) (ring : R.State)
      → (take_samples R n generation ring).complete ≡ true
      → let t = take_samples R n generation ring in
        (length t.values ≡ n)
        × (C.contents ring ≡ map (tag generation) t.values ++ C.contents t.ring)
  take_samples_complete n generation ring =
      take_samples_from n generation ring (C.contents ring) refl

  take_samples_reaches_from :
      (n : ℕ) (generation : ℕ) (ring : R.State) (xs : List TaggedSample)
      → C.contents ring ≡ xs
      → (take_samples R n generation ring).complete ≡ leb n (run_length generation xs)
  unfolding take_samples taken
  take_samples_reaches_from zero generation ring xs e = ground arith
  take_samples_reaches_from (suc n) generation ring [] e = rw (C.pop_empty ring e) (ground arith)
  take_samples_reaches_from (suc n) generation ring (x ∷ xs) e =
      let (p, q, c) = C.pop_front ring x xs e in
      elim (Bool-cases (x.generation == generation)) [
        | inr stale ↦ rw (p, stale) (ground arith)
        | inl current ↦
            rw (p, current)
              (take_samples_reaches_from n generation (R.pop ring).0 xs q ∙ ground arith)
      ]

  -- A take is complete exactly if the run at the front is long enough.
  pub take_samples_reaches :
      (n : ℕ) (generation : ℕ) (ring : R.State)
      → (take_samples R n generation ring).complete
        ≡ leb n (run_length generation (C.contents ring))
  take_samples_reaches n generation ring =
      take_samples_reaches_from n generation ring (C.contents ring) refl

  pub held_samples :
      (o : BypassOutput R) (xs : List TaggedSample)
      → C.contents o.consumer ≡ xs
      → R.held_slots o.consumer ≡ length xs
  held_samples o xs e = C.held o.consumer ∙ ap length e

pub fresh_from-tag :
    (generation : ℕ) (queue : List Sample)
    → fresh_from generation (map (tag generation) queue) ≡ map (tag generation) queue
fresh_from-tag generation [] = refl
fresh_from-tag generation (x ∷ xs) = rw (==_refl generation) refl

-- No sample of the generation.
abbrev pub NoneOf : (generation : ℕ) → List TaggedSample → Type 0
NoneOf generation = All (λ x. x.generation ≢ generation)

pub fresh_from_none :
    (generation : ℕ) (xs : List TaggedSample) → NoneOf generation xs → fresh_from generation xs ≡ []
fresh_from_none generation [] h = refl
fresh_from_none generation (x ∷ xs) h = elim (Bool-cases (x.generation == generation)) [
  | inl same ↦ (let e : x.generation ≡ generation = ground arith in absurd (h.0 e))
  | inr other ↦ rw other (fresh_from_none generation xs h.1)
]

pub NoneOf-tag :
    (generation other : ℕ) (queue : List Sample)
    → other ≢ generation
    → NoneOf generation (map (tag other) queue)
NoneOf-tag generation other [] h = tt
NoneOf-tag generation other (x ∷ xs) h = (h, NoneOf-tag generation other xs h)
