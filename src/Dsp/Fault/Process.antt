-- ===== src/Dsp/Fault/Process.antt =====
-- crates/noire-dsp/src/fault.rs: calls of `process`.
use noire.Base.{
  ℕ, ◌≤◌, ◌≡◌, ◌≢◌, ◌⊎◌, refl, ◌∙◌, inl, inr, true, false, List, map, Option, none, some, arith,
  ltb, ◌==◌, Result, ok, length, replicate, All, All-replicate, All-drop, u16_max, drop,
  length-replicate, Bool-cases, le→ltb_false, ==_refl,
}
use noire.Dsp.Canonical.{max_callback_frames, fault_ramp_samples, Sample}
use noire.Dsp.Sanitize.{no_replacements, clean, is_zero, IsClean}
use noire.Dsp.Fault.{
  FaultRampError, FaultRampReport, FaultRamp, Gain, passing, silent, fading_in, fading_out,
  begin_fault, begin_recovery, render, render_missing, render_present, refuse, process,
  shape_mismatch, quantum_too_large,
}
use noire.Dsp.Fault.Silence.{
  IsValid, render-IsValid, render-IsClean, length-render, render-silent, render_fading_out,
  render_fading_in, render_passing,
}

-- What every call leaves behind.
abbrev pub IsSafe : ℕ → FaultRamp × List Sample × Result FaultRampError FaultRampReport → Type 0
IsSafe n (r, out, result) = IsValid r × (length out ≡ n) × All IsClean out

begin_fault-IsValid : (r : FaultRamp) → IsValid r → IsValid (begin_fault r)
unfolding begin_fault
begin_fault-IsValid r v = ground arith

begin_fault-state :
    (r : FaultRamp)
    → (((begin_fault r).state ≡ silent) ⊎ ((begin_fault r).state ≡ fading_out))
      × ((begin_fault r).gain_step ≡ r.gain_step)
unfolding begin_fault
begin_fault-state r = ground arith

begin_fault-silent : (r : FaultRamp) → r.state ≡ silent → (begin_fault r).state ≡ silent
unfolding begin_fault
begin_fault-silent r h = ground arith

module _ (g : Gain) where
  refuse-IsSafe : (r : FaultRamp) (n : ℕ) (e : FaultRampError) → IsSafe n (refuse g r n e)
  unfolding refuse
  refuse-IsSafe r n e = (ground arith, length-replicate n 0, All-replicate IsClean n 0 (refl, refl))

  render_missing-IsSafe : (r : FaultRamp) (n : ℕ) → IsValid r → IsSafe n (render_missing g r n)
  unfolding render_missing
  render_missing-IsSafe r n v =
      let xs : List Sample = replicate n r.last_output in
      (
        render-IsValid g xs r no_replacements v,
        length-render g xs r no_replacements ∙ length-replicate n r.last_output,
        render-IsClean g xs r no_replacements,
      )

  render_present-IsSafe :
      (r : FaultRamp) (xs : List Sample) → IsValid r → IsSafe (length xs) (render_present g r xs)
  unfolding render_present
  render_present-IsSafe r xs v = (
    render-IsValid g xs r no_replacements v,
    length-render g xs r no_replacements,
    render-IsClean g xs r no_replacements,
  )

  -- On every branch, errors included, a call keeps the ramp valid, writes every sample of the
  -- destination, and writes only values that are finite and not subnormal, whatever the arithmetic
  -- gives.
  pub process-IsSafe :
      (r : FaultRamp) (input : Option (List Sample)) (n : ℕ)
      → IsValid r
      → IsSafe n (process g r input n)
  unfolding process
  process-IsSafe r none n v = elim (Bool-cases (ltb max_callback_frames n)) [
    | inl long ↦ rw (long, process) (refuse-IsSafe r n quantum_too_large)
    | inr short ↦
        rw (short, process) (render_missing-IsSafe (begin_fault r) n (begin_fault-IsValid r v))
  ]
  process-IsSafe r (some xs) n v = elim (Bool-cases (ltb max_callback_frames n)) [
    | inl long ↦ rw (long, process) (refuse-IsSafe r n quantum_too_large)
    | inr short ↦ elim (Bool-cases (length xs == n)) [
      | inl same ↦
          let e : length xs ≡ n = ground arith in
          rw (short, same, process) (rw e at (render_present-IsSafe r xs v))
      | inr other ↦ rw (short, other, process) (refuse-IsSafe r n shape_mismatch)
    ]
  ]

  -- One missing callback of at least the ramp's 240 samples, within the callback bound, succeeds
  -- and ends in silence, from every valid state; all samples from the 240th on are zero, and the
  -- report counts the whole callback as missing.
  pub process_missing :
      (r : FaultRamp) (n : ℕ)
      → IsValid r
      → fault_ramp_samples ≤ n
      → n ≤ max_callback_frames
      → let (next, out, result) = process g r none n in
        (next.state ≡ silent)
        × All (λ y. is_zero y ≡ true) (drop 239 out)
        × ((report : FaultRampReport) × (result ≡ ok report)
            × (report.missing_samples ≡ n)
            × (report.state ≡ silent))
  unfolding process render_missing
  process_missing r n v h w =
      let d : FaultRamp = begin_fault r in
      let xs : List Sample = replicate n d.last_output in
      let len : length xs ≡ n = length-replicate n d.last_output in
      let faded : ((render g d xs no_replacements).0.state ≡ silent)
          × All (λ y. is_zero y ≡ true) (drop 239 (render g d xs no_replacements).1) =
        elim (begin_fault-state r).0 [
          | inl still ↦
              let (q, z) = render-silent g xs d no_replacements still in
              (q, All-drop _ 239 (render g d xs no_replacements).1 z)
          | inr falling ↦
              render_fading_out g 239 xs d no_replacements falling
                (omega (arith, (begin_fault-state r).1, v.bounded)) (omega (arith, len))
        ] in
      let short : ltb max_callback_frames n ≡ false = ground arith in
      let fits : ltb u16_max n ≡ false = ground arith in
      rw (short, fits, process) (faded.0, faded.1, (_, refl, refl, faded.0))

  -- Until a recovery is begun, a silent ramp stays silent and writes only zeros: whatever the
  -- input, present or missing, of a right or a wrong length, and whatever the callback's length.
  pub process-silent :
      (r : FaultRamp) (input : Option (List Sample)) (n : ℕ)
      → r.state ≡ silent
      → let (next, out, result) = process g r input n in
        (next.state ≡ silent) × All (λ y. is_zero y ≡ true) out
  unfolding process render_missing render_present refuse
  process-silent r none n h = elim (Bool-cases (ltb max_callback_frames n)) [
    | inl long ↦ rw (long, process) (refl, All-replicate _ n 0 refl)
    | inr short ↦
        rw (short, process)
          (render-silent g (replicate n (begin_fault r).last_output) (begin_fault r) no_replacements
            (begin_fault-silent r h))
  ]
  process-silent r (some xs) n h = elim (Bool-cases (ltb max_callback_frames n)) [
    | inl long ↦ rw (long, process) (refl, All-replicate _ n 0 refl)
    | inr short ↦ elim (Bool-cases (length xs == n)) [
      | inl same ↦ rw (short, same, process) (render-silent g xs r no_replacements h)
      | inr other ↦ rw (short, other, process) (refl, All-replicate _ n 0 refl)
    ]
  ]

  -- After a recovery is begun from any valid state that is not passing, one callback of at least
  -- 240 samples, within the bound, ends in passing, and from the 241st sample on it writes the
  -- sanitized input, sample for sample.
  pub process_recovers :
      (r : FaultRamp) (xs : List Sample)
      → IsValid r
      → r.state ≢ passing
      → fault_ramp_samples ≤ length xs
      → length xs ≤ max_callback_frames
      → let (next, out, result) = process g (begin_recovery r) (some xs) (length xs) in
        (next.state ≡ passing)
        × (drop 240 out ≡ map clean (drop 240 xs))
        × ((report : FaultRampReport) × (result ≡ ok report)
            × (report.missing_samples ≡ 0)
            × (report.state ≡ passing))
  unfolding process render_present
  process_recovers r xs v h w u =
      let d : FaultRamp = begin_recovery r in
      let rising : (d.state ≡ fading_in) × (d.gain_step ≡ r.gain_step) = begun r h in
      let (q, z) =
        render_fading_in g 239 xs d no_replacements rising.0 (omega (arith, rising.1, v.bounded))
          (omega arith) w in
      let short : ltb max_callback_frames (length xs) ≡ false = le→ltb_false _ _ u in
      let same : (length xs == length xs) ≡ true = ==_refl (length xs) in
      rw (short, same, process) (q, z, (_, refl, refl, q))
    where
      begun :
          (r : FaultRamp)
          → r.state ≢ passing
          → ((begin_recovery r).state ≡ fading_in) × ((begin_recovery r).gain_step ≡ r.gain_step)
      begun r h = unfold begin_recovery in ground arith

  pub process_passing :
      (r : FaultRamp) (xs : List Sample)
      → r.state ≡ passing
      → length xs ≤ max_callback_frames
      → let (next, out, result) = process g r (some xs) (length xs) in
        (next.state ≡ passing) × (out ≡ map clean xs)
  unfolding process render_present
  process_passing r xs h u =
      rw (le→ltb_false max_callback_frames (length xs) u, ==_refl (length xs), process)
        (render_passing g xs r no_replacements h)
