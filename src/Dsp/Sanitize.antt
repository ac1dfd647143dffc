-- ===== src/Dsp/Sanitize.antt =====
-- crates/noire-dsp/src/sanitize.rs over IEEE-754 bit patterns: sign bit 31, exponent bits 23 to 30,
-- mantissa bits 0 to 22.
use mathlib.Core.Path.{ap₂}
use noire.Base.{
  map, refl, All, ℕ, suc, ◌+◌, ◌/◌, ◌%◌, ◌^◌, ◌<◌, ◌≡◌, Bool, true, false, not, ◌&&◌, List, [], ◌∷◌,
  arith, ◌==◌, if◌then◌else◌, wrapping_add64, u64_max, ◌⊎◌,
}
use noire.Dsp.Canonical.{Sample}

abbrev pub exponent : Sample → ℕ
exponent bits = bits / 2 ^ 23 % 256

abbrev pub mantissa : Sample → ℕ
mantissa bits = bits % 2 ^ 23

-- `f32::is_finite`.
abbrev pub is_finite : Sample → Bool
is_finite bits = not (exponent bits == 255)

-- `f32::is_subnormal`.
abbrev pub is_subnormal : Sample → Bool
is_subnormal bits = exponent bits == 0 && not (mantissa bits == 0)

-- `sample == 0.0`, which holds of both zeros.
abbrev pub is_zero : Sample → Bool
is_zero bits = bits % 2 ^ 31 == 0

pub record SanitizeReport : Type 0 where
  pub non_finite : ℕ  -- u64
  pub subnormal : ℕ  -- u64

abbrev pub no_replacements : SanitizeReport
no_replacements = record { non_finite = 0; subnormal = 0 }

abbrev pub replaced : SanitizeReport → ℕ
replaced r = wrapping_add64 r.non_finite r.subnormal

unfoldable pub sanitize_sample : Sample → SanitizeReport → Sample × SanitizeReport
sanitize_sample sample report =
    if not (is_finite sample)
    then (0, record report { non_finite = wrapping_add64 report.non_finite 1 })
    else if not (is_zero sample) && is_subnormal sample
    then (0, record report { subnormal = wrapping_add64 report.subnormal 1 })
    else (sample, report)

-- The loop of `sanitize_buffer`.
unfoldable pub sanitize_from : List Sample → SanitizeReport → List Sample × SanitizeReport
sanitize_from [] report = ([], report)
sanitize_from (x ∷ xs) report =
    let (y, r) = sanitize_sample x report in let (ys, s) = sanitize_from xs r in (y ∷ ys, s)

unfoldable pub sanitize_buffer : List Sample → List Sample × SanitizeReport
unfolding sanitize_from
sanitize_buffer samples = sanitize_from samples no_replacements

-- The value that `sanitize_sample` returns; the report does not matter to it.
unfoldable pub clean : Sample → Sample
clean x = (sanitize_sample x no_replacements).0

-- What the sanitizer must return: a finite value that is not subnormal.
abbrev pub IsClean : Sample → Type 0
IsClean x = (is_finite x ≡ true) × (is_subnormal x ≡ false)

pub sanitize_sample-clean : (x : Sample) (r : SanitizeReport) → (sanitize_sample x r).0 ≡ clean x
unfolding sanitize_sample clean
sanitize_sample-clean x r = ground arith

pub clean-IsClean : (x : Sample) → IsClean (clean x)
unfolding clean sanitize_sample
clean-IsClean x = ground arith

pub clean-IsClean_eq : (x : Sample) → IsClean x → clean x ≡ x
unfolding clean sanitize_sample
clean-IsClean_eq x h = ground arith

pub sanitize_sample-IsClean : (x : Sample) (r : SanitizeReport) → IsClean (sanitize_sample x r).0
unfolding sanitize_sample
sanitize_sample-IsClean x r = ground arith

pub clean-is_zero : (x : Sample) → is_zero x ≡ true → is_zero (clean x) ≡ true
unfolding clean sanitize_sample
clean-is_zero x h = ground arith

sanitize_from-clean :
    (xs : List Sample) (r : SanitizeReport) → (sanitize_from xs r).0 ≡ map clean xs
unfolding sanitize_from
sanitize_from-clean [] r = refl
sanitize_from-clean (x ∷ xs) r =
    ap₂ ◌∷◌ (sanitize_sample-clean x r) (sanitize_from-clean xs (sanitize_sample x r).1)

pub sanitize_buffer-clean : (xs : List Sample) → (sanitize_buffer xs).0 ≡ map clean xs
unfolding sanitize_buffer
sanitize_buffer-clean xs = sanitize_from-clean xs no_replacements

pub clean-All : (xs : List Sample) → All IsClean (map clean xs)
clean-All [] = tt
clean-All (x ∷ xs) = (clean-IsClean x, clean-All xs)

-- Sanitizing a sample gives a finite value that is not subnormal. Either the sample is so already,
-- and stays bit for bit with the counters untouched; or it is not, becomes +0, and adds exactly
-- one to the counters, as long as they are below the limit of a u64.
pub sanitize_sample_lem :
    (x : Sample) (r : SanitizeReport)
    → r.non_finite < u64_max
    → r.subnormal < u64_max
    → let (y, s) = sanitize_sample x r in
      IsClean y
      × ((IsClean x × (y ≡ x) × (s ≡ r))
          ⊎ ((¬ IsClean x)
              × (y ≡ 0)
              × (s.non_finite + s.subnormal ≡ suc (r.non_finite + r.subnormal))))
unfolding sanitize_sample
sanitize_sample_lem x r h k = ground arith
