-- ===== src/Model.antt =====
-- crates/noire-model/src: the checked description of a model (descriptor.rs), and the checks of a
-- frame before and after inference (frame.rs).
pub mod Boundary
pub mod Described
pub mod Rnnoise
use noire.Base.{
  ℕ, ◌*◌, ◌≡◌, Bool, true, false, not, ◌&&◌, ◌||◌, List, [], ◌∷◌, map, if◌then◌else◌, ltb, ◌==◌,
  Result, ok, err, length, replicate, u64_max,
}
use noire.Base.Text.{String, is_blank}
use noire.Dsp.Canonical.{Sample}
use noire.Dsp.Sanitize.{is_finite, is_subnormal, is_zero}
use noire.Dsp.Floats.{Floats}
use noire.Dsp.Fault.{one}
use noire.Live.{
  ProcessError, input_frame_length, output_frame_length, non_finite_input, non_finite_output,
  invalid_statistics,
}

pub record ModelDescriptorSpec : Type 0 where
  pub id : String
  pub name : String
  pub version : String
  pub license : String
  pub sample_rate_hz : ℕ  -- u32
  pub channels : ℕ  -- u16
  pub frame_samples : ℕ  -- usize
  pub hop_samples : ℕ
  pub lookahead_samples : ℕ
  pub delay_samples : ℕ

pub data DescriptorError : Type 0 where
  empty_id empty_name empty_version empty_license : DescriptorError
  invalid_format invalid_hop invalid_delay frame_size_overflow : DescriptorError

pub record ModelDescriptor : Type 0 where
  pub spec : ModelDescriptorSpec
  pub frame_buffer_samples : ℕ

-- The checks of the numbers; `usize` has 64 bits.
unfoldable pub new_checked : ModelDescriptorSpec → Result DescriptorError ModelDescriptor
new_checked s =
    if s.sample_rate_hz == 0 || s.channels == 0 || s.frame_samples == 0
    then err invalid_format
    else if s.hop_samples == 0 || ltb s.frame_samples s.hop_samples
    then err invalid_hop
    else if ltb s.delay_samples s.lookahead_samples
    then err invalid_delay
    else if ltb u64_max (s.frame_samples * s.channels)
    then err frame_size_overflow
    else ok (record { spec = s; frame_buffer_samples = s.frame_samples * s.channels })

unfoldable pub new : ModelDescriptorSpec → Result DescriptorError ModelDescriptor
unfolding new_checked
new s =
    if is_blank s.id
    then err empty_id
    else if is_blank s.name
    then err empty_name
    else if is_blank s.version
    then err empty_version
    else if is_blank s.license
    then err empty_license
    else new_checked s

pub record FrameStats : Type 0 where
  pub vad_probability : Sample

unfoldable pub new_stats : Floats → Sample → Result ProcessError FrameStats
new_stats f p =
    if not (is_finite p) || not (f.le 0 p && f.le p one)
    then err invalid_statistics
    else ok (record { vad_probability = p })

-- `iter().any(|sample| !sample.is_finite())`.
abbrev pub any_non_finite : List Sample → Bool
any_non_finite [] = false
any_non_finite (x ∷ xs) = not (is_finite x) || any_non_finite xs

abbrev pub cleared : List Sample → List Sample
cleared xs = replicate (length xs) 0

-- The output, and the error if there is one.
unfoldable pub prepare_process_frame :
    ModelDescriptor → (input output : List Sample) → List Sample × Result {0, 0} ProcessError Unit
prepare_process_frame d input output =
    if not (length input == d.frame_buffer_samples)
    then (cleared output, err input_frame_length)
    else if not (length output == d.frame_buffer_samples)
    then (cleared output, err output_frame_length)
    else if any_non_finite input
    then (cleared output, err non_finite_input)
    else (cleared output, ok tt)

-- The loop over the output.
abbrev pub flush : Sample → Sample
flush x = if not (is_zero x) && is_subnormal x then 0 else x

unfoldable pub finalize_process_output :
    List Sample → FrameStats → List Sample × Result ProcessError FrameStats
finalize_process_output output stats =
    if any_non_finite output
    then (cleared output, err non_finite_output)
    else (map flush output, ok stats)
