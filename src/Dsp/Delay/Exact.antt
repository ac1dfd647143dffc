-- ===== src/Dsp/Delay/Exact.antt =====
-- crates/noire-dsp/src/delay.rs: the line as a queue.
use noire.Base.{
  ℕ, zero, suc, ◌+◌, ◌≤◌, ◌<◌, ◌≡◌, refl, sym, ap, ◌∙◌, ◌⊎◌, inl, inr, List, [], ◌∷◌, ◌++◌, map,
  append-nil, append_assoc, arith, ◌==◌, ok, err, length, take, drop, set, get_or, replicate,
  length-set, length-map, take-suc-set, drop-suc-set, drop-get_or, take_all, drop_all, Bool-cases,
  add-one,
}
use noire.Dsp.Canonical.{max_callback_frames, max_dry_delay_samples, Sample}
use noire.Dsp.Sanitize.{
  SanitizeReport, no_replacements, sanitize_sample, clean, sanitize_sample-clean, sanitize_from,
  sanitize_buffer,
}
use noire.Dsp.Delay.{
  DryDelay, Processed, delay_too_large, quantum_too_large, for_pipeline, next_position, delay_loop,
  pass_through, process,
}

-- The samples in the line, the oldest first.
abbrev pub held : DryDelay → List Sample
held d = drop d.position d.storage ++ take d.position d.storage

-- The position is inside a line that is not empty.
abbrev pub IsValid : DryDelay → Type 0
IsValid d = (d.position < length d.storage) ⊎ ((length d.storage ≡ 0) × (d.position ≡ 0))

shift : Sample → DryDelay → DryDelay
shift v d = record { storage = set d.storage d.position v; position = next_position d }

shift-position :
    (v : Sample) (d : DryDelay)
    → d.position < length d.storage
    → (shift v d).position < length (shift v d).storage
unfolding shift
shift-position v d h = ground (arith, length-set d.storage d.position v)

-- Writing at the position of the oldest sample turns a ring by one.
rotate :
    (xs : List Sample) (i : ℕ) (v : Sample)
    → i < length xs
    → (drop i xs ++ take i xs) ++ v ∷ []
      ≡ get_or xs i 0 ∷ (drop (suc i) (set xs i v) ++ take (suc i) (set xs i v))
rotate xs i v h =
    rw (drop-get_or xs i 0 h, drop-suc-set xs i v, take-suc-set xs i v h)
      (ap (◌∷◌ (get_or xs i 0)) (append_assoc (drop (suc i) xs) (take i xs) (v ∷ [])))

-- One step takes the oldest sample out and puts the new one behind the youngest.
shift-held :
    (v : Sample) (d : DryDelay)
    → d.position < length d.storage
    → held d ++ v ∷ [] ≡ get_or d.storage d.position 0 ∷ held (shift v d)
unfolding shift
shift-held v d h = elim (Bool-cases (d.position + 1 == length d.storage)) [
  | inl wrap ↦ rw wrap (
      rotate d.storage d.position v h
      ∙ ap (◌∷◌ (get_or d.storage d.position 0)) (around (ground arith)))
  | inr more ↦ rw more (rw add-one (rotate d.storage d.position v h))
]
  where
    ring : List Sample
    ring = set d.storage d.position v

    around :
        suc d.position ≡ length d.storage
        → drop (suc d.position) ring ++ take (suc d.position) ring ≡ ring ++ []
    around e =
        let len : length ring ≡ length d.storage = length-set d.storage d.position v in
        rw
          (
            drop_all (suc d.position) ring (omega (arith, len)),
            take_all (suc d.position) ring (omega (arith, len)),
          )
          (sym (append-nil ring))

record Delays (d : DryDelay) (input : List Sample) (p : Processed) : Type 0 where
  valid : IsValid p.line
  sized : length p.line.storage ≡ length d.storage
  full : length p.output ≡ length input
  exact : p.output ++ held p.line ≡ held d ++ map clean input

delay_loop-Delays :
    (input : List Sample) (d : DryDelay) (r : SanitizeReport)
    → d.position < length d.storage
    → Delays d input (delay_loop d input r)
unfolding delay_loop shift
delay_loop-Delays [] d r h = record {
  valid = inl h;
  sized = refl;
  full = refl;
  exact = sym (append-nil (held d));
}
delay_loop-Delays (x ∷ input) d r h =
    let v : Sample = (sanitize_sample x r).0 in
    let e : DryDelay = shift v d in
    let p = delay_loop-Delays input e (sanitize_sample x r).1 (shift-position v d h) in
    record {
      valid = p.valid;
      sized = p.sized ∙ length-set d.storage d.position v;
      full = ap suc p.full;
      exact =
          ap (◌∷◌ (get_or d.storage d.position 0)) p.exact
          ∙ ap (λ l. l ++ map clean input) (sym (shift-held v d h))
          ∙ append_assoc (held d) (v ∷ []) (map clean input)
          ∙ ap (λ y. held d ++ (y ∷ map clean input)) (sanitize_sample-clean x r);
    }

sanitize_from-map :
    (input : List Sample) (r : SanitizeReport) → (sanitize_from input r).0 ≡ map clean input
unfolding sanitize_from
sanitize_from-map [] r = refl
sanitize_from-map (x ∷ input) r =
    rw (sanitize_sample-clean x r, sanitize_from-map input (sanitize_sample x r).1)

pass_through-Delays :
    (input : List Sample) (d : DryDelay)
    → length d.storage ≡ 0
    → d.position ≡ 0
    → Delays d input (pass_through d input)
unfolding pass_through sanitize_buffer
pass_through-Delays input d h z =
    let same : (sanitize_from input no_replacements).0 ≡ map clean input =
      sanitize_from-map input no_replacements in
    let nothing : held d ≡ [] = rw (z, drop_all 0 d.storage (omega arith)) refl in
    record {
      valid = inr (h, z);
      sized = refl;
      full = ap length same ∙ length-map input clean;
      exact = rw (nothing, same) (append-nil (map clean input));
    }

-- A line of n samples that has heard nothing yet.
abbrev pub silent : ℕ → DryDelay
silent n = record { storage = replicate n 0; position = 0 }

pub silent-IsValid : (n : ℕ) → IsValid (silent n)
silent-IsValid zero = inr (refl, refl)
silent-IsValid (suc n) = inl (omega arith)

-- A chunk within the callback bound and with a destination of its length is accepted. The written
-- samples, followed by what the line then holds, are what it held before, followed by the
-- sanitized chunk; the delay and the validity of the line stay, and every sample of the
-- destination is written.
pub process_delays :
    (d : DryDelay) (input : List Sample)
    → IsValid d
    → length input ≤ max_callback_frames
    → (p : Processed) × (process d input (length input) ≡ ok p)
      × IsValid p.line
      × (length p.line.storage ≡ length d.storage)
      × (length p.output ≡ length input)
      × (p.output ++ held p.line ≡ held d ++ map clean input)
unfolding process
process_delays d input v h = elim v [
  | inl inside ↦
      let p = delay_loop d input no_replacements in
      let e = delay_loop-Delays input d no_replacements inside in
      (p, ground arith, e.valid, e.sized, e.full, e.exact)
  | inr (none_held, start) ↦
      let p = pass_through d input in
      let e = pass_through-Delays input d none_held start in
      (p, ground arith, e.valid, e.sized, e.full, e.exact)
]

-- The line for a pipeline of any delay and quantum: an oversized quantum and a delay beyond the
-- budget are refused, each by its error; otherwise the line is valid, holds only silence, and
-- delays by exactly the sum.
pub for_pipeline_lem :
    (delay quantum : ℕ)
    → ((max_callback_frames < quantum) × (for_pipeline delay quantum ≡ err quantum_too_large))
      ⊎ ((quantum ≤ max_callback_frames)
          × (max_dry_delay_samples < delay + quantum)
          × (for_pipeline delay quantum ≡ err delay_too_large))
      ⊎ ((delay + quantum ≤ max_dry_delay_samples)
          × (for_pipeline delay quantum ≡ ok (silent (delay + quantum)))
          × IsValid (silent (delay + quantum))
          × (held (silent (delay + quantum)) ≡ replicate (delay + quantum) 0))
unfolding for_pipeline
for_pipeline_lem delay quantum =
    let v = silent-IsValid (delay + quantum) in
    let h = append-nil {A = Sample} (replicate (delay + quantum) 0) in ground (arith, v, h)
