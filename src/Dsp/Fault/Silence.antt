-- ===== src/Dsp/Fault/Silence.antt =====
-- crates/noire-dsp/src/fault.rs: runs of samples in each state of the ramp.
use mathlib.Core.Path.{ap₂}
use noire.Base.{
  All-drop, ℕ, zero, suc, ◌+◌, ◌≤◌, ◌<◌, ◌≡◌, ◌≢◌, ◌⊎◌, refl, ap, ◌∙◌, inl, inr, true, List, [],
  ◌∷◌, map, arith, length, All, drop,
}
use noire.Dsp.Canonical.{fault_ramp_samples, Sample}
use noire.Dsp.Sanitize.{
  SanitizeReport, sanitize_sample, clean, sanitize_sample-clean, clean-IsClean, clean-IsClean_eq,
  clean-is_zero, sanitize_sample-IsClean, is_zero, IsClean,
}
use noire.Dsp.Fault.{
  FaultRamp, Gain, passing, silent, fading_in, fading_out, one, next_gain, render_sample, render,
}

-- The gain step is at most the length of the ramp; it is at its top while passing and at zero
-- while silent.
pub record IsValid (r : FaultRamp) : Type 0 where
  pub bounded : r.gain_step ≤ fault_ramp_samples
  pub top : (r.state ≢ passing) ⊎ (r.gain_step ≡ fault_ramp_samples)
  pub bottom : (r.state ≢ silent) ⊎ (r.gain_step ≡ 0)

steps : (n : ℕ) → (n ≤ 1) ⊎ ((j : ℕ) × (n ≡ suc (suc j)))
steps zero = inl (omega arith)
steps (suc zero) = inl (omega arith)
steps (suc (suc j)) = inr (j, refl)

drop-map : (n : ℕ) (xs : List Sample) → drop n (map clean xs) ≡ map clean (drop n xs)
drop-map zero xs = refl
drop-map (suc n) [] = refl
drop-map (suc n) (x ∷ xs) = drop-map n xs

module _ (g : Gain) where
  next_gain-IsValid : (r : FaultRamp) → IsValid r → IsValid (next_gain g r).0
  unfolding next_gain
  next_gain-IsValid r v = ground arith

  pub render-IsValid :
      (xs : List Sample) (r : FaultRamp) (s : SanitizeReport)
      → IsValid r
      → IsValid (render g r xs s).0
  unfolding render
  render-IsValid [] r s v = v
  render-IsValid (x ∷ xs) r s v =
      let (next, _, t) = render_sample g r x s in
      let w = next_gain-IsValid r v in
      render-IsValid xs next t (record { bounded = w.bounded; top = w.top; bottom = w.bottom })

  render_sample-IsClean :
      (r : FaultRamp) (x : Sample) (s : SanitizeReport) → IsClean (render_sample g r x s).1
  unfolding render_sample
  render_sample-IsClean r x s = sanitize_sample-IsClean _ _

  -- Whatever the arithmetic gives, what is written is finite and not subnormal.
  pub render-IsClean :
      (xs : List Sample) (r : FaultRamp) (s : SanitizeReport) → All IsClean (render g r xs s).1
  unfolding render
  render-IsClean [] r s = tt
  render-IsClean (x ∷ xs) r s =
      let (next, d, t) = render_sample g r x s in
      (render_sample-IsClean r x s, render-IsClean xs next t)

  pub length-render :
      (xs : List Sample) (r : FaultRamp) (s : SanitizeReport)
      → length (render g r xs s).1 ≡ length xs
  unfolding render
  length-render [] r s = refl
  length-render (x ∷ xs) r s =
      let (next, d, t) = render_sample g r x s in ap suc (length-render xs next t)

  written_zero :
      (x : Sample) (s t : SanitizeReport)
      → is_zero (sanitize_sample (g.mul (sanitize_sample x s).0 0) t).0 ≡ true
  written_zero x s t =
      rw (sanitize_sample-clean x s, sanitize_sample-clean (g.mul (clean x) 0) t)
        (clean-is_zero (g.mul (clean x) 0) (g.mul_zero (clean x) (clean-IsClean x).0))

  -- The gain is zero in silence and at the last step of a fade.
  gain_zero :
      (r : FaultRamp)
      → (r.state ≡ silent) ⊎ ((r.state ≡ fading_out) × (r.gain_step ≤ 1))
      → ((next_gain g r).1 ≡ 0) × ((next_gain g r).0.state ≡ silent)
  unfolding next_gain
  gain_zero r h = ground (arith, g.sine_zero)

  sample_zero :
      (r : FaultRamp) (x : Sample) (s : SanitizeReport)
      → (r.state ≡ silent) ⊎ ((r.state ≡ fading_out) × (r.gain_step ≤ 1))
      → ((render_sample g r x s).0.state ≡ silent) × (is_zero (render_sample g r x s).1 ≡ true)
  unfolding render_sample
  sample_zero r x s h =
      let (z, q) = gain_zero r h in (q, rw z (written_zero x s (sanitize_sample x s).1))

  fade_step :
      (r : FaultRamp) (x : Sample) (s : SanitizeReport) (k : ℕ)
      → r.state ≡ fading_out
      → r.gain_step ≡ suc (suc k)
      → ((render_sample g r x s).0.state ≡ fading_out)
        × ((render_sample g r x s).0.gain_step ≡ suc k)
  unfolding render_sample next_gain
  fade_step r x s k h e = ground arith

  -- A silent ramp stays silent and writes zeros.
  pub render-silent :
      (xs : List Sample) (r : FaultRamp) (s : SanitizeReport)
      → r.state ≡ silent
      → ((render g r xs s).0.state ≡ silent) × All (λ y. is_zero y ≡ true) (render g r xs s).1
  unfolding render
  render-silent [] r s h = (h, tt)
  render-silent (x ∷ xs) r s h =
      let (q, z) = sample_zero r x s (inl h) in
      let (last, rest) = render-silent xs (render_sample g r x s).0 (render_sample g r x s).2 q in
      (last, (z, rest))

  -- A falling ramp reaches silence when its steps are used up, and writes zeros from there on.
  pub render_fading_out :
      (k : ℕ) (xs : List Sample) (r : FaultRamp) (s : SanitizeReport)
      → r.state ≡ fading_out
      → r.gain_step ≤ suc k
      → k < length xs
      → ((render g r xs s).0.state ≡ silent)
        × All (λ y. is_zero y ≡ true) (drop k (render g r xs s).1)
  unfolding render
  render_fading_out k [] r s h e w = absurd (omega arith)
  render_fading_out zero (x ∷ xs) r s h e w =
      let (q, z) = sample_zero r x s (inr (h, e)) in
      let (last, rest) = render-silent xs (render_sample g r x s).0 (render_sample g r x s).2 q in
      (last, (z, rest))
  render_fading_out (suc k) (x ∷ xs) r s h e w = elim (steps r.gain_step) [
    | inl few ↦
        let (q, z) = sample_zero r x s (inr (h, few)) in
        let (last, rest) = render-silent xs (render_sample g r x s).0 (render_sample g r x s).2 q in
        (
          last,
          All-drop _ k (render g (render_sample g r x s).0 xs (render_sample g r x s).2).1 rest,
        )
    | inr (j, more) ↦
        let (q, z) = fade_step r x s j h more in
        render_fading_out k xs (render_sample g r x s).0 (render_sample g r x s).2 q (omega arith)
          (omega arith)
  ]

  -- A passing ramp writes the sanitized input.
  written_one :
      (x : Sample) (s t : SanitizeReport)
      → (sanitize_sample (g.mul (sanitize_sample x s).0 one) t).0 ≡ clean x
  written_one x s t =
      rw
        (
          sanitize_sample-clean x s,
          g.mul_one (clean x) (clean-IsClean x).0,
          sanitize_sample-clean (clean x) t,
        )
        (clean-IsClean_eq (clean x) (clean-IsClean x))

  sample_passing :
      (r : FaultRamp) (x : Sample) (s : SanitizeReport)
      → r.state ≡ passing
      → ((render_sample g r x s).0.state ≡ passing) × ((render_sample g r x s).1 ≡ clean x)
  unfolding render_sample
  sample_passing r x s h =
      let (z, q) = unit_gain r h in (q, rw z (written_one x s (sanitize_sample x s).1))
    where
      unit_gain :
          (r : FaultRamp)
          → r.state ≡ passing
          → ((next_gain g r).1 ≡ one) × ((next_gain g r).0.state ≡ passing)
      unit_gain r h = unfold next_gain in ground arith

  pub render_passing :
      (xs : List Sample) (r : FaultRamp) (s : SanitizeReport)
      → r.state ≡ passing
      → ((render g r xs s).0.state ≡ passing) × ((render g r xs s).1 ≡ map clean xs)
  unfolding render
  render_passing [] r s h = (h, refl)
  render_passing (x ∷ xs) r s h =
      let (q, z) = sample_passing r x s h in
      let (last, rest) = render_passing xs (render_sample g r x s).0 (render_sample g r x s).2 q in
      (last, ap₂ ◌∷◌ z rest)

  rise_step :
      (r : FaultRamp) (x : Sample) (s : SanitizeReport) (k : ℕ)
      → r.state ≡ fading_in
      → r.gain_step ≤ fault_ramp_samples
      → fault_ramp_samples ≤ r.gain_step + suc k
      → let q = (render_sample g r x s).0 in
        (q.state ≡ passing)
        ⊎ ((q.state ≡ fading_in)
            × (q.gain_step ≤ fault_ramp_samples)
            × (fault_ramp_samples ≤ q.gain_step + k)
            × (0 < k))
  unfolding render_sample next_gain
  rise_step r x s k h b e = ground arith

  -- A rising ramp passes its input when its steps are used up.
  pub render_fading_in :
      (k : ℕ) (xs : List Sample) (r : FaultRamp) (s : SanitizeReport)
      → r.state ≡ fading_in
      → r.gain_step ≤ fault_ramp_samples
      → fault_ramp_samples ≤ r.gain_step + suc k
      → k < length xs
      → ((render g r xs s).0.state ≡ passing)
        × (drop (suc k) (render g r xs s).1 ≡ map clean (drop (suc k) xs))
  unfolding render
  render_fading_in k [] r s h b e w = absurd (omega arith)
  render_fading_in zero (x ∷ xs) r s h b e w = elim (rise_step r x s 0 h b e) [
    | inl q ↦ render_passing xs (render_sample g r x s).0 (render_sample g r x s).2 q
    | inr q ↦ absurd (omega arith)
  ]
  render_fading_in (suc k) (x ∷ xs) r s h b e w = elim (rise_step r x s (suc k) h b e) [
    | inl q ↦
        let (last, rest) =
          render_passing xs (render_sample g r x s).0 (render_sample g r x s).2 q in
        (last, ap (drop (suc k)) rest ∙ drop-map (suc k) xs)
    | inr (q, b', e', _) ↦
        render_fading_in k xs (render_sample g r x s).0 (render_sample g r x s).2 q b' e'
          (omega arith)
  ]
