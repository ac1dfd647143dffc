-- ===== src/Dsp/Fault.antt =====
-- crates/noire-dsp/src/fault.rs: the fail-closed gain ramp. `process` returns the new ramp, the
-- samples of the destination, and the report or the error. The f32 product and the sine of
-- `current_gain` are the fields of `Gain`.
pub mod Silence
pub mod Process
use noire.Base.{
  ℕ, zero, suc, ◌+◌, ◌-◌, ◌≤◌, ◌≡◌, min, Bool, true, false, List, [], ◌∷◌, Option, none, some, ltb,
  ◌==◌, not, if◌then◌else◌, Result, ok, err, length, replicate, saturating_add, u16_max,
}
use noire.Dsp.Canonical.{max_callback_frames, fault_ramp_samples, Sample}
use noire.Dsp.Sanitize.{
  SanitizeReport, no_replacements, sanitize_sample, is_finite, is_zero, IsClean,
}

pub data FaultRampState : Type 0 where
  passing fading_out silent fading_in : FaultRampState

pub data FaultRampError : Type 0 where
  shape_mismatch quantum_too_large : FaultRampError

pub record FaultRampReport : Type 0 where
  pub missing_samples : ℕ  -- u16
  pub sanitized : SanitizeReport
  pub state : FaultRampState

pub record FaultRamp : Type 0 where
  pub state : FaultRampState
  pub gain_step : ℕ  -- u16
  pub last_output : Sample

-- The bit pattern of 1.0.
abbrev pub one : Sample
one = 0x3f80_0000

-- f32 arithmetic: the product, and the quarter-sine gain of a step. The laws are IEEE-754's for a
-- factor zero and a factor one, and the sine's for zero.
pub record Gain : Type 0 where
  pub mul : Sample → Sample → Sample
  pub sine : ℕ → Sample
  pub mul_zero : (x : Sample) → is_finite x ≡ true → is_zero (mul x 0) ≡ true
  pub mul_one : (x : Sample) → is_finite x ≡ true → mul x one ≡ x
  pub sine_zero : sine 0 ≡ 0

unfoldable pub new : FaultRamp
new = record { state = passing; gain_step = fault_ramp_samples; last_output = 0 }

abbrev pub is_silent : FaultRampState → Bool
is_silent silent = true
is_silent _ = false

abbrev pub is_passing : FaultRampState → Bool
is_passing passing = true
is_passing _ = false

unfoldable pub begin_fault : FaultRamp → FaultRamp
begin_fault r = if not (is_silent r.state) then record r { state = fading_out } else r

unfoldable pub begin_recovery : FaultRamp → FaultRamp
begin_recovery r = if not (is_passing r.state) then record r { state = fading_in } else r

unfoldable pub reset_silent : FaultRamp → FaultRamp
reset_silent r = record { state = silent; gain_step = 0; last_output = 0 }

module _ (g : Gain) where
  -- `current_gain` at the ramp that `next_gain` leaves.
  abbrev pub current_gain : FaultRamp → Sample
  current_gain r = g.sine r.gain_step

  -- The branch of `next_gain` for `FadingOut`, and the one for `FadingIn`.
  abbrev pub fade_down : FaultRamp → FaultRamp
  fade_down r =
      let s = r.gain_step - 1 in
      record r { gain_step = s; state = if s == 0 then silent else r.state }

  abbrev pub fade_up : FaultRamp → FaultRamp
  fade_up r =
      let s = min (saturating_add u16_max r.gain_step 1) fault_ramp_samples in
      record r { gain_step = s; state = if s == fault_ramp_samples then passing else r.state }

  next_gain_in : FaultRampState → FaultRamp → FaultRamp × Sample
  next_gain_in passing r = (r, one)
  next_gain_in silent r = (r, 0)
  next_gain_in fading_out r = (fade_down r, current_gain (fade_down r))
  next_gain_in fading_in r = (fade_up r, current_gain (fade_up r))

  unfoldable pub next_gain : FaultRamp → FaultRamp × Sample
  unfolding next_gain_in
  next_gain r = next_gain_in r.state r

  -- The new ramp, the written sample, the report.
  unfoldable pub render_sample :
      FaultRamp → Sample → SanitizeReport → FaultRamp × Sample × SanitizeReport
  unfolding next_gain
  render_sample r source sanitized =
      let (clean_source, s) = sanitize_sample source sanitized in
      let (next, gain) = next_gain r in
      let (destination, t) = sanitize_sample (g.mul clean_source gain) s in
      (record next { last_output = destination }, destination, t)

  -- The `for` loops of `process`, over the sources.
  unfoldable pub render :
      FaultRamp → List Sample → SanitizeReport → FaultRamp × List Sample × SanitizeReport
  unfolding render_sample
  render r [] sanitized = (r, [], sanitized)
  render r (source ∷ sources) sanitized =
      let (next, destination, s) = render_sample r source sanitized in
      let (last, rest, t) = render next sources s in (last, destination ∷ rest, t)

  -- `output_length` is the length of the destination, and `n` what `u16::try_from` makes of it.
  unfoldable pub render_missing :
      FaultRamp → ℕ → FaultRamp × List Sample × Result FaultRampError FaultRampReport
  unfolding render
  render_missing r output_length =
      let (last, output, sanitized) =
        render r (replicate output_length r.last_output) no_replacements in
      let n = if ltb u16_max output_length then u16_max else output_length in
      (last, output, ok (record { missing_samples = n; sanitized = sanitized; state = last.state }))

  unfoldable pub render_present :
      FaultRamp → List Sample → FaultRamp × List Sample × Result FaultRampError FaultRampReport
  unfolding render
  render_present r input =
      let (last, output, sanitized) = render r input no_replacements in
      (last, output, ok (record { missing_samples = 0; sanitized = sanitized; state = last.state }))

  -- `output.fill(0.0); self.reset_silent(); return Err(..)`.
  unfoldable pub refuse :
      FaultRamp
      → ℕ
      → FaultRampError
      → FaultRamp × List Sample × Result FaultRampError FaultRampReport
  unfolding reset_silent
  refuse r output_length e = (reset_silent r, replicate output_length 0, err e)

  unfoldable pub process :
      FaultRamp
      → Option (List Sample)
      → ℕ
      → FaultRamp × List Sample × Result FaultRampError FaultRampReport
  unfolding refuse render_missing render_present begin_fault
  process r none output_length =
      if ltb max_callback_frames output_length
      then refuse r output_length quantum_too_large
      else render_missing (begin_fault r) output_length
  process r (some input) output_length =
      if ltb max_callback_frames output_length
      then refuse r output_length quantum_too_large
      else if not (length input == output_length)
      then refuse r output_length shape_mismatch
      else render_present r input
