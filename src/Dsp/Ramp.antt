-- ===== src/Dsp/Ramp.antt =====
-- crates/noire-dsp/src/ramp.rs: `StrengthRamp` and `LinearMixer`.
use noire.Base.{
  ℕ, zero, suc, ◌+◌, ◌-◌, ◌≤◌, ◌<◌, ◌≡◌, ◌≢◌, ◌⊎◌, ◌∙◌, refl, not, ◌&&◌, if◌then◌else◌, ltb, ◌==◌,
  arith, inl, inr, wrapping_add64,
}
use noire.Dsp.Canonical.{Sample}
use noire.Dsp.Sanitize.{SanitizeReport, no_replacements, sanitize_sample, is_finite}
use noire.Dsp.Floats.{Floats}
use noire.Dsp.Fault.{one}

abbrev pub min_strength_ramp_samples : ℕ
min_strength_ramp_samples = 960

-- The bit pattern of -1.0.
abbrev pub minus_one : Sample
minus_one = 0xbf80_0000

pub record StrengthRamp : Type 0 where
  pub current : Sample
  pub target : Sample
  pub step : Sample
  pub remaining : ℕ  -- u32

pub record MixReport : Type 0 where
  pub sanitized : SanitizeReport
  pub hard_ceiling : ℕ  -- u64

abbrev pub no_mix : MixReport
no_mix = record { sanitized = no_replacements; hard_ceiling = 0 }

-- `next` computes the sum with no f32 comparison: only the sum is a parameter.
module _ (f : Floats) where
  -- `f32::clamp`.
  abbrev pub clamp : Sample → (low high : Sample) → Sample
  clamp x low high = if f.lt x low then low else if f.lt high x then high else x

  abbrev pub finite_unit : Sample → Sample
  finite_unit value = if is_finite value then clamp value 0 one else 0

  unfoldable pub new : Sample → StrengthRamp
  new initial = record {
    current = finite_unit initial;
    target = finite_unit initial;
    step = 0;
    remaining = 0;
  }

  unfoldable pub set_target : StrengthRamp → Sample → (requested_samples : ℕ) → StrengthRamp
  set_target r target requested_samples =
      let wanted = finite_unit target in
      let duration =
        if ltb requested_samples min_strength_ramp_samples
        then min_strength_ramp_samples
        else requested_samples in
      if wanted == r.current
      then record r { target = wanted; step = 0; remaining = 0 }
      else record r {
        target = wanted;
        step = f.div (f.sub wanted r.current) (f.from_int duration);
        remaining = duration;
      }

  unfoldable pub next_from : ℕ → StrengthRamp → StrengthRamp × Sample
  next_from zero r = (r, r.current)
  next_from (suc zero) r = (record r { remaining = 0; current = r.target }, r.target)
  next_from (suc (suc n)) r =
      let current = f.add r.current r.step in
      (record r { remaining = suc n; current = current }, current)

  unfoldable pub next : StrengthRamp → StrengthRamp × Sample
  unfolding next_from
  next r = next_from r.remaining r

  unfoldable pub mix : Sample → Sample → Sample → MixReport → Sample × MixReport
  mix dry wet strength report =
      let (dry', a) = sanitize_sample dry report.sanitized in
      let (wet', b) = sanitize_sample wet a in
      let level = finite_unit strength in
      let raw =
        if f.le level 0
        then dry'
        else if f.le one level
        then wet'
        else f.add (f.mul dry' (f.sub one level)) (f.mul wet' level) in
      let (mixed, c) = sanitize_sample raw b in
      let limited = clamp mixed minus_one one in
      (
        limited,
        record {
          sanitized = c;
          hard_ceiling =
              if not (f.le minus_one mixed && f.le mixed one)
              then wrapping_add64 report.hard_ceiling 1
              else report.hard_ceiling;
        },
      )

  -- `n` calls of `next`.
  abbrev pub advance : ℕ → StrengthRamp → StrengthRamp
  advance zero r = r
  advance (suc n) r = advance n (next r).0

  next_from_counts :
      (n : ℕ) (r : StrengthRamp)
      → let q = (next_from n r).0 in
        (q.target ≡ r.target)
        × ((0 < n) ⊎ (q ≡ r))
        × ((n ≢ 1) ⊎ (q.current ≡ r.target))
        × ((n ≡ 0) ⊎ (q.remaining + 1 ≡ n))
  unfolding next_from
  next_from_counts zero r = (refl, inr refl, inl (ground arith), inl refl)
  next_from_counts (suc zero) r = (refl, inl (omega arith), inr refl, inr refl)
  next_from_counts (suc (suc n)) r = (refl, inl (omega arith), inl (omega arith), inr (omega arith))

  -- A ramp is at its target once no step is left.
  abbrev pub Settles : StrengthRamp → Type 0
  Settles r = (0 < r.remaining) ⊎ (r.current ≡ r.target)

  next-Settles :
      (r : StrengthRamp)
      → Settles r
      → Settles (next r).0
        × ((next r).0.remaining ≡ r.remaining - 1)
        × ((next r).0.target ≡ r.target)
  unfolding next
  next-Settles r h =
      let (same, still, last, less) = next_from_counts r.remaining r in ground (arith, h)

  -- A ramp that has `n` steps left, or fewer, is exactly at its target after `n` calls of `next`,
  -- and then has no step left, whatever the arithmetic gives.
  pub advance_reaches :
      (n : ℕ) (r : StrengthRamp)
      → Settles r
      → r.remaining ≤ n
      → ((advance n r).current ≡ r.target) × ((advance n r).remaining ≡ 0)
  advance_reaches zero r h w = ground arith
  advance_reaches (suc n) r h w =
      let (settles, less, same) = next-Settles r h in
      let (here, done) = advance_reaches n (next r).0 settles (omega (arith, less)) in
      (here ∙ same, done)
