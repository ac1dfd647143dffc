-- ===== src/Dsp/Delay.antt =====
-- crates/noire-dsp/src/delay.rs: the delay line of the dry path. `process` returns the new line,
-- the samples written to `output`, and the report; an error leaves line and output as they were.
pub mod Exact
pub mod Chunks
use noire.Base.{
  ℕ, zero, suc, ◌+◌, Bool, true, false, List, [], ◌∷◌, ltb, ◌==◌, not, if◌then◌else◌, Result, ok,
  err, length, set, get_or, replicate, u64_max,
}
use noire.Dsp.Canonical.{max_callback_frames, max_dry_delay_samples, Sample}
use noire.Dsp.Sanitize.{SanitizeReport, no_replacements, sanitize_sample, sanitize_buffer}

pub data DryDelayError : Type 0 where
  delay_too_large shape_mismatch quantum_too_large : DryDelayError

pub record DryDelay : Type 0 where
  pub storage : List Sample
  pub position : ℕ

pub record Processed : Type 0 where
  pub line : DryDelay
  pub output : List Sample
  pub report : SanitizeReport

unfoldable pub new : ℕ → Result DryDelayError DryDelay
new delay_samples =
    if ltb max_dry_delay_samples delay_samples
    then err delay_too_large
    else ok (record { storage = replicate delay_samples 0; position = 0 })

-- The sum is checked: past the largest usize it is the error that `new` gives for a long delay.
unfoldable pub for_pipeline :
    (pipeline_delay_samples quantum_samples : ℕ) → Result DryDelayError DryDelay
unfolding new
for_pipeline pipeline_delay_samples quantum_samples =
    if ltb max_callback_frames quantum_samples
    then err quantum_too_large
    else if ltb u64_max (pipeline_delay_samples + quantum_samples)
    then err delay_too_large
    else new (pipeline_delay_samples + quantum_samples)

abbrev pub delay_samples : DryDelay → ℕ
delay_samples d = length d.storage

unfoldable pub reset : DryDelay → DryDelay
reset d = record { storage = replicate (length d.storage) 0; position = 0 }

-- `self.position += 1; if self.position == self.storage.len() { self.position = 0; }`
abbrev pub next_position : DryDelay → ℕ
next_position d = if d.position + 1 == length d.storage then 0 else d.position + 1

-- The `for` loop over a line that is not empty. `get_or` reads in bounds by the invariant.
unfoldable pub delay_loop : DryDelay → List Sample → SanitizeReport → Processed
delay_loop d [] report = record { line = d; output = []; report = report }
delay_loop d (source ∷ input) report =
    let destination = get_or d.storage d.position 0 in
    let (value, r) = sanitize_sample source report in
    let rest =
      delay_loop (record { storage = set d.storage d.position value; position = next_position d })
        input r in
    record rest { output = destination ∷ rest.output }

-- The `for` loop over an empty line is that of `sanitize_buffer` into another buffer.
unfoldable pub pass_through : DryDelay → List Sample → Processed
pass_through d input =
    let (output, report) = sanitize_buffer input in
    record { line = d; output = output; report = report }

-- `output_length` is the length of the destination buffer.
unfoldable pub process : DryDelay → List Sample → ℕ → Result DryDelayError Processed
unfolding delay_loop pass_through
process d input output_length =
    if not (length input == output_length)
    then err shape_mismatch
    else if ltb max_callback_frames (length input)
    then err quantum_too_large
    else if length d.storage == 0
    then ok (pass_through d input)
    else ok (delay_loop d input no_replacements)
