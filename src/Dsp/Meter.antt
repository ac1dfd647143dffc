-- ===== src/Dsp/Meter.antt =====
-- crates/noire-dsp/src/meter.rs: the bounded peak and RMS meter.
use noire.Base.{ℕ, ◌+◌, List, [], ◌∷◌, ◌==◌, if◌then◌else◌}
use noire.Dsp.Canonical.{Sample}
use noire.Dsp.Sanitize.{SanitizeReport, no_replacements, sanitize_sample}
use noire.Dsp.Floats.{Floats}

abbrev pub max_meter_window_samples : ℕ
max_meter_window_samples = 48000

pub record MeterSnapshot : Type 0 where
  pub peak : Sample
  pub rms : Sample
  pub samples : ℕ
  pub sanitized : SanitizeReport

pub record Meter : Type 0 where
  pub peak : Sample
  pub mean_square : Sample
  pub samples : ℕ  -- u16
  pub sanitized : SanitizeReport

unfoldable pub new : Meter
new = record { peak = 0; mean_square = 0; samples = 0; sanitized = no_replacements }

module _ (f : Floats) where
  -- One round of the loop of `observe`, past its bound.
  unfoldable pub observe_sample : Meter → Sample → Meter
  observe_sample m input =
      let (sample, sanitized) = sanitize_sample input m.sanitized in
      let samples = m.samples + 1 in
      record {
        peak = f.max m.peak (f.abs sample);
        mean_square =
            f.add m.mean_square
              (f.div (f.mul_add sample sample (f.neg m.mean_square)) (f.from_int samples));
        samples = samples;
        sanitized = sanitized;
      }

  unfoldable pub observe : Meter → List Sample → Meter
  unfolding observe_sample
  observe m [] = m
  observe m (x ∷ xs) =
      let rest = observe (observe_sample m x) xs in
      if m.samples == max_meter_window_samples then m else rest

  unfoldable pub snapshot : Meter → MeterSnapshot
  snapshot m = record {
    peak = m.peak;
    rms = f.sqrt (f.max m.mean_square 0);
    samples = m.samples;
    sanitized = m.sanitized;
  }

  unfoldable pub take_snapshot : Meter → Meter × MeterSnapshot
  unfolding snapshot new
  take_snapshot m = (new, snapshot m)
