-- ===== src/Model/Rnnoise.antt =====
-- crates/noire-model-rnnoise/src/adapter.rs: one frame through the recurrent network. The network of
-- the nnnoiseless crate is a parameter.
use noire.Base.{
  ℕ, ◌≡◌, Bool, List, [], ◌∷◌, if◌then◌else◌, Result, ok, err, length, replicate, ◌/◌, ◌==◌, ◌^◌,
  ◌%◌,
}
use noire.Dsp.Canonical.{Sample}
use noire.Dsp.Floats.{Floats}
use noire.Dsp.Fault.{one}
use noire.Live.{ProcessError}
use noire.Model.{
  ModelDescriptorSpec, DescriptorError, ModelDescriptor, new, FrameStats, new_stats,
  prepare_process_frame, finalize_process_output,
}

-- `DenoiseState`: its step takes the output and the input, and returns the state, the output and
-- the probability of a voice.
pub record Network : Type 1 where
  pub DenoiseState : Type 0
  pub fresh : DenoiseState
  pub frame_size : ℕ
  pub process_frame :
      DenoiseState → (output input : List Sample) → DenoiseState × List Sample × Sample

-- A step writes into the slice that it is given.
pub record NetworkContract (N : Network) : Type 0 where
  pub keeps_length :
      (s : N.DenoiseState) (output input : List Sample)
      → length (N.process_frame s output input).1 ≡ length output

abbrev pub minus_one : Sample
minus_one = 0xbf80_0000

abbrev pub model_input_positive_scale : Sample
model_input_positive_scale = 0x46ff_fe00

abbrev pub model_input_negative_scale : Sample
model_input_negative_scale = 0x4700_0000

abbrev pub is_sign_negative : Sample → Bool
is_sign_negative x = x / 2 ^ 31 % 2 == 1

-- crates/noire-model/src/error.rs.
pub data CreateError : Type 0 where
  model_unavailable invalid_model initialization_failed : CreateError

abbrev pub rnnoise_sample_rate_hz : ℕ
rnnoise_sample_rate_hz = 48_000

-- The description in `RnnoiseFactory::new`, for the frame size of the network.
abbrev pub factory_spec : (frame_size : ℕ) → ModelDescriptorSpec
factory_spec frame_size = record {
  id = "org.rnnoise.nnnoiseless.default";
  name = "RNNoise (nnnoiseless embedded default)";
  version = "nnnoiseless-0.5.2/default-e6de5fbfadf7ec91";
  license = "BSD-3-Clause";
  sample_rate_hz = rnnoise_sample_rate_hz;
  channels = 1;
  frame_samples = frame_size;
  hop_samples = frame_size;
  lookahead_samples = 0;
  delay_samples = frame_size;
}

-- `map_err`.
abbrev pub or_initialization_failed :
    Result DescriptorError ModelDescriptor → Result CreateError ModelDescriptor
or_initialization_failed (ok d) = ok d
or_initialization_failed (err e) = err initialization_failed

-- `RnnoiseFactory::new`; a factory is its descriptor.
unfoldable pub new_factory : (frame_size : ℕ) → Result CreateError ModelDescriptor
new_factory frame_size = or_initialization_failed (new (factory_spec frame_size))

-- The loops that convert between two buffers stop at the end of the shorter one.
abbrev pub write_scaled : (Sample → Sample) → (source destination : List Sample) → List Sample
write_scaled g [] ys = ys
write_scaled g (x ∷ xs) [] = []
write_scaled g (x ∷ xs) (y ∷ ys) = g x ∷ write_scaled g xs ys

module _ (f : Floats) where
  -- `f32::clamp(-1.0, 1.0)`.
  abbrev pub clamp : Sample → Sample
  clamp x = if f.lt x minus_one then minus_one else if f.lt one x then one else x

  unfoldable pub normalized_to_model_scale : Sample → Sample
  normalized_to_model_scale x =
      let y = clamp x in
      if is_sign_negative y
      then f.mul y model_input_negative_scale
      else f.mul y model_input_positive_scale

  unfoldable pub model_to_normalized_scale : Sample → Sample
  model_to_normalized_scale x = clamp (
      if is_sign_negative x
      then f.div x model_input_negative_scale
      else f.div x model_input_positive_scale)

  module _ (N : Network) where
    pub record RnnoiseDenoiser : Type 0 where
      pub descriptor : ModelDescriptor
      pub state : N.DenoiseState
      pub model_input : List Sample
      pub model_output : List Sample

    -- `RnnoiseFactory::create`; the state that it warms up is thrown away.
    unfoldable pub create : ModelDescriptor → RnnoiseDenoiser
    create d = record {
      descriptor = d;
      state = N.fresh;
      model_input = replicate N.frame_size 0;
      model_output = replicate N.frame_size 0;
    }

    unfoldable pub reset : RnnoiseDenoiser → RnnoiseDenoiser
    reset r = record r {
      state = N.fresh;
      model_input = replicate (length r.model_input) 0;
      model_output = replicate (length r.model_output) 0;
    }

    abbrev pub Outcome : Type 0
    Outcome = RnnoiseDenoiser × List Sample × Result ProcessError FrameStats

    -- After the check of the output of the network.
    unfoldable pub after_output :
        RnnoiseDenoiser
        → (output : List Sample) → List Sample × Result ProcessError FrameStats
        → Outcome
    after_output r output (checked, err e) = (record r { model_output = checked }, output, err e)
    after_output r output (checked, ok stats) =
        let (out, result) =
          finalize_process_output (write_scaled model_to_normalized_scale checked output) stats in
        (record r { model_output = checked }, out, result)

    -- After the check of the probability.
    unfoldable pub after_stats :
        RnnoiseDenoiser → (output : List Sample) → Result ProcessError FrameStats → Outcome
    unfolding after_output
    after_stats r output (err e) = (r, output, err e)
    after_stats r output (ok stats) =
        after_output r output (finalize_process_output r.model_output stats)

    -- After the checks of the frame.
    unfoldable pub after_prepare :
        RnnoiseDenoiser
        → (input : List Sample) → List Sample × Result {0, 0} ProcessError Unit
        → Outcome
    unfolding after_stats
    after_prepare r input (output, err e) = (r, output, err e)
    after_prepare r input (output, ok u) =
        let converted = write_scaled normalized_to_model_scale input r.model_input in
        let (state, model_output, vad_probability) =
          N.process_frame r.state r.model_output converted in
        after_stats
          (record r { state = state; model_input = converted; model_output = model_output }) output
          (new_stats f vad_probability)

    unfoldable pub process_frame : RnnoiseDenoiser → (input output : List Sample) → Outcome
    unfolding after_prepare
    process_frame r input output =
        after_prepare r input (prepare_process_frame r.descriptor input output)
