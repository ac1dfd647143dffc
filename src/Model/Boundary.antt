-- ===== src/Model/Boundary.antt =====
-- crates/noire-model/src/frame.rs and crates/noire-model-rnnoise/src/adapter.rs: what leaves the
-- boundary of a model.
use mathlib.Core.Path.{subst}
use noire.Base.{
  ℕ, suc, ◌≡◌, ◌⊎◌, inl, inr, refl, ap, ◌∙◌, true, false, List, [], ◌∷◌, map, All, length-map,
  length-replicate, Result, ok, err, length, replicate, ◌==◌, arith, Bool-cases,
}
use noire.Dsp.Canonical.{Sample}
use noire.Dsp.Sanitize.{is_finite, IsClean}
use noire.Dsp.Floats.{Floats}
use noire.Live.{ProcessError, input_frame_length, output_frame_length, non_finite_input}
use noire.Model.{
  ModelDescriptor, FrameStats, new_stats, any_non_finite, cleared, prepare_process_frame, flush,
  finalize_process_output,
}
use noire.Model.Rnnoise.{
  Network, NetworkContract, write_scaled, normalized_to_model_scale, model_to_normalized_scale,
  RnnoiseDenoiser, Outcome, after_output, after_stats, after_prepare, process_frame,
}

pub length-write_scaled :
    (g : Sample → Sample) (xs ys : List Sample) → length (write_scaled g xs ys) ≡ length ys
length-write_scaled g [] ys = refl
length-write_scaled g (x ∷ xs) [] = refl
length-write_scaled g (x ∷ xs) (y ∷ ys) = ap suc (length-write_scaled g xs ys)

flush-IsClean : (x : Sample) → is_finite x ≡ true → IsClean (flush x)
flush-IsClean x h = ground arith

flush-All : (xs : List Sample) → any_non_finite xs ≡ false → All IsClean (map flush xs)
flush-All [] h = tt
flush-All (x ∷ xs) h = (flush-IsClean x (ground arith), flush-All xs (ground arith))

-- `n` samples that are finite and not subnormal, and with an error zeros.
abbrev pub IsBounded : ℕ → List Sample → Result ProcessError FrameStats → Type 0
IsBounded n out (ok stats) = (length out ≡ n) × All IsClean out
IsBounded n out (err e) = out ≡ replicate n 0

finalize_process_output-IsBounded :
    (out : List Sample) (stats : FrameStats)
    → let (checked, result) = finalize_process_output out stats in
      IsBounded (length out) checked result
unfolding finalize_process_output
finalize_process_output-IsBounded out stats = elim (Bool-cases (any_non_finite out)) [
  | inl bad ↦ rw bad refl
  | inr fine ↦ rw fine (length-map out flush, flush-All out fine)
]

length-finalize_process_output :
    (out : List Sample) (stats : FrameStats)
    → length (finalize_process_output out stats).0 ≡ length out
unfolding finalize_process_output
length-finalize_process_output out stats = elim (Bool-cases (any_non_finite out)) [
  | inl bad ↦ rw bad (length-replicate (length out) 0)
  | inr fine ↦ rw fine (length-map out flush)
]

-- Input and output have the length of the descriptor, and the input is finite.
abbrev pub IsFrame : ModelDescriptor → (input output : List Sample) → Type 0
IsFrame d input output =
    (length input ≡ d.frame_buffer_samples)
    × (length output ≡ d.frame_buffer_samples)
    × (any_non_finite input ≡ false)

prepare_cases :
    (d : ModelDescriptor) (input output : List Sample)
    → (IsFrame d input output × (prepare_process_frame d input output ≡ (cleared output, ok tt)))
      ⊎ ((e : ProcessError) × (prepare_process_frame d input output ≡ (cleared output, err e)))
unfolding prepare_process_frame
prepare_cases d input output = elim (Bool-cases (length input == d.frame_buffer_samples)) [
  | inr long ↦ inr (input_frame_length, rw long refl)
  | inl fits ↦ elim (Bool-cases (length output == d.frame_buffer_samples)) [
    | inr long ↦ inr (output_frame_length, rw (fits, long) refl)
    | inl room ↦ elim (Bool-cases (any_non_finite input)) [
      | inl bad ↦ inr (non_finite_input, rw (fits, room, bad) refl)
      | inr fine ↦ inl ((ground arith, ground arith, fine), rw (fits, room, fine) refl)
    ]
  ]
]

module _ (f : Floats) (N : Network) where
  -- The answer is bounded, and the buffers keep the length of those of `r`.
  abbrev pub IsSafe : RnnoiseDenoiser f N → ℕ → Outcome f N → Type 0
  IsSafe r n (after, out, result) =
      IsBounded n out result
      × (length after.model_input ≡ length r.model_input)
      × (length after.model_output ≡ length r.model_output)

  after_output-IsSafe :
      (r : RnnoiseDenoiser f N) (n : ℕ) (checked : List Sample)
      (result : Result ProcessError FrameStats)
      → length checked ≡ length r.model_output
      → IsSafe r n (after_output f N r (replicate n 0) (checked, result))
  unfolding after_output
  after_output-IsSafe r n checked (err e) h = (refl, refl, h)
  after_output-IsSafe r n checked (ok s) h =
      let out = write_scaled (model_to_normalized_scale f) checked (replicate n 0) in
      (
        subst (λ k. let (final, result) = finalize_process_output out s in IsBounded k final result)
            same (finalize_process_output-IsBounded out s),
        refl,
        h,
      )
    where
      same : length (write_scaled (model_to_normalized_scale f) checked (replicate n 0)) ≡ n
      same =
          length-write_scaled (model_to_normalized_scale f) checked (replicate n 0)
          ∙ length-replicate n 0

  after_stats-IsSafe :
      (r : RnnoiseDenoiser f N) (n : ℕ) (stats : Result ProcessError FrameStats)
      → IsSafe r n (after_stats f N r (replicate n 0) stats)
  unfolding after_stats
  after_stats-IsSafe r n (err e) = (refl, refl, refl)
  after_stats-IsSafe r n (ok stats) =
      after_output-IsSafe r n _ _ (length-finalize_process_output r.model_output stats)

  -- Whatever the input, the output that is given and the recurrent state are, and whatever the
  -- network computes, as long as it keeps the length of the slice that it writes: with an error the
  -- output is silence, and otherwise it has as many samples as before, each finite and not
  -- subnormal; the buffers of the model keep their lengths; and either both slices are a frame of
  -- the descriptor with a finite input, or there is an error and the model is as it was.
  pub process_frame-IsBounded :
      (r : RnnoiseDenoiser f N) (input output : List Sample)
      → NetworkContract N
      → let (after, out, result) = process_frame f N r input output in
        IsBounded (length output) out result
        × (length after.model_input ≡ length r.model_input)
        × (length after.model_output ≡ length r.model_output)
        × (IsFrame r.descriptor input output
            ⊎ ((after ≡ r) × ((e : ProcessError) × (result ≡ err e))))
  unfolding process_frame after_prepare
  process_frame-IsBounded r input output law = elim (prepare_cases r.descriptor input output) [
    | inr (e, refused) ↦ rw refused (refl, refl, refl, inr (refl, (e, refl)))
    | inl (frame, prepared) ↦
        let converted = write_scaled (normalized_to_model_scale f) input r.model_input in
        let (state, model_output, vad_probability) =
          N.process_frame r.state r.model_output converted in
        let next = record r {
          state = state;
          model_input = converted;
          model_output = model_output;
        } in
        let (bounded, inputs, outputs) =
          after_stats-IsSafe next (length output) (new_stats f vad_probability) in
        rw prepared (
          bounded,
          inputs ∙ length-write_scaled (normalized_to_model_scale f) input r.model_input,
          outputs ∙ law.keeps_length r.state r.model_output converted,
          inl frame,
        )
  ]
