-- ===== src/Tests/ModelTests.antt =====
-- crates/noire-model/src and crates/noire-model-rnnoise/src/adapter.rs at concrete inputs.
use noire.Base.{ℕ, suc, ◌≡◌, ◌⊎◌, refl, [], ◌∷◌, ok, err, length}
use noire.Dsp.Fault.{one}
use noire.Live.{ProcessError}
use noire.Model.{ModelDescriptor, new, new_checked}
use noire.Model.Rnnoise.{
  Network, NetworkContract, factory_spec, new_factory, write_scaled, create, process_frame,
}
use noire.Model.Boundary.{length-write_scaled, IsBounded, IsFrame, process_frame-IsBounded}
use noire.Model.Described.{Decides, IsDescribed, new_accepts}
use noire.Tests.CaptureTests.{floats}
use noire.Tests.DspTests.{two}

-- A network of frames of two samples that gives its input back, certain of a voice.
abbrev echo : Network
echo = record {
  DenoiseState = ℕ;
  fresh = 0;
  frame_size = 2;
  process_frame = λ s output input. (suc s, write_scaled (λ x. x) input output, one);
}

echo_contract : NetworkContract echo
echo_contract = record {
  keeps_length = λ s output input. length-write_scaled (λ x. x) input output;
}

abbrev pair : ModelDescriptor
pair = record { spec = factory_spec 2; frame_buffer_samples = 2 }

factory_pair : new_factory 2 ≡ ok pair
unfolding new_factory new new_checked
factory_pair = refl

process_frame-IsBounded_example :
    let (after, out, result) =
      process_frame floats echo (create floats echo pair) (one ∷ two ∷ []) (7 ∷ 7 ∷ []) in
    IsBounded 2 out result
    × (length after.model_input ≡ 2)
    × (length after.model_output ≡ 2)
    × (IsFrame pair (one ∷ two ∷ []) (7 ∷ 7 ∷ [])
        ⊎ ((after ≡ create floats echo pair) × ((e : ProcessError) × (result ≡ err e))))
unfolding create
process_frame-IsBounded_example =
    process_frame-IsBounded floats echo (create floats echo pair) (one ∷ two ∷ []) (7 ∷ 7 ∷ [])
      echo_contract

new_accepts_example : Decides (IsDescribed (factory_spec 2)) (factory_spec 2) (new (factory_spec 2))
new_accepts_example = new_accepts (factory_spec 2)
