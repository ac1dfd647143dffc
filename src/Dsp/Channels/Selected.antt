-- ===== src/Dsp/Channels/Selected.antt =====
-- crates/noire-dsp/src/channels.rs: the channels that a map selects.
use noire.Base.{
  ℕ, zero, suc, ◌≤◌, ◌<◌, ◌≡◌, refl, ap, ◌∙◌, Bool, true, false, List, [], ◌∷◌, Option, none, some,
  Result, ok, err, arith, length, length-take, length-drop, take, drop,
}
use noire.Dsp.Canonical.{Sample}
use noire.Dsp.Sanitize.{SanitizeReport, no_replacements, sanitize_sample}
use noire.Dsp.Floats.{Floats}
use noire.Dsp.Fault.{one}
use noire.Dsp.Channels.{
  ChannelSelection, channel, ChannelMapError, invalid_selection, ChannelMap, count_selected,
  mix_channels, mix_frames, process,
}

-- Two frames that agree on the selected channels.
abbrev pub Agree : List Bool → List Sample → List Sample → Type 0
Agree (true ∷ selected) (x ∷ xs) (y ∷ ys) = (x ≡ y) × Agree selected xs ys
Agree (false ∷ selected) (x ∷ xs) (y ∷ ys) = Agree selected xs ys
Agree _ _ _ = Unit

-- Two inputs that agree on the selected channels of every frame.
abbrev pub AgreeFrames : ChannelMap → (frames : ℕ) → List Sample → List Sample → Type 0
AgreeFrames m zero xs ys = Unit
AgreeFrames m (suc frames) xs ys =
    Agree m.selected (take m.channel_count xs) (take m.channel_count ys)
    × AgreeFrames m frames (drop m.channel_count xs) (drop m.channel_count ys)

module _ (f : Floats) where
  mix_channels-Agree :
      (selected : List Bool) (xs ys : List Sample) (gain mixed : Sample) (report : SanitizeReport)
      → length xs ≡ length ys
      → Agree selected xs ys
      → mix_channels f gain selected xs mixed report ≡ mix_channels f gain selected ys mixed report
  unfolding mix_channels
  mix_channels-Agree [] xs ys gain mixed report e h = refl
  mix_channels-Agree (true ∷ selected) [] [] gain mixed report e h = refl
  mix_channels-Agree (true ∷ selected) [] (y ∷ ys) gain mixed report e h = absurd (omega arith)
  mix_channels-Agree (true ∷ selected) (x ∷ xs) [] gain mixed report e h = absurd (omega arith)
  mix_channels-Agree (true ∷ selected) (x ∷ xs) (y ∷ ys) gain mixed report e h =
      let (value, r) = sanitize_sample x report in
      mix_channels-Agree selected xs ys gain (f.add mixed (f.mul value gain)) r (omega arith) h.1
      ∙ ap
          (λ z.
            let (value, r) = sanitize_sample z report in
            mix_channels f gain selected ys (f.add mixed (f.mul value gain)) r)
          h.0
  mix_channels-Agree (false ∷ selected) [] [] gain mixed report e h = refl
  mix_channels-Agree (false ∷ selected) [] (y ∷ ys) gain mixed report e h = absurd (omega arith)
  mix_channels-Agree (false ∷ selected) (x ∷ xs) [] gain mixed report e h = absurd (omega arith)
  mix_channels-Agree (false ∷ selected) (x ∷ xs) (y ∷ ys) gain mixed report e h =
      mix_channels-Agree selected xs ys gain mixed report (omega arith) h

  mix_frames_agree :
      (frames : ℕ) (m : ChannelMap) (xs ys : List Sample) (report : SanitizeReport)
      → length xs ≡ length ys
      → AgreeFrames m frames xs ys
      → mix_frames f m frames xs report ≡ mix_frames f m frames ys report
  unfolding mix_frames
  mix_frames_agree zero m xs ys report e h = refl
  mix_frames_agree (suc frames) m xs ys report e h =
      let n = m.channel_count in
      let same =
        mix_channels-Agree m.selected (take n xs) (take n ys) m.gain 0 report
          (omega (arith, length-take n xs, length-take n ys)) h.0 in
      let (mixed, r) = mix_channels f m.gain m.selected (take n ys) 0 report in
      let (output, s) = sanitize_sample mixed r in
      rw same (
        ap (λ (t : List Sample × SanitizeReport). (output ∷ t.0, t.1))
          (mix_frames_agree frames m (drop n xs) (drop n ys) s
            (omega (arith, length-drop n xs, length-drop n ys)) h.1))

  -- What a map makes of an input depends on the selected channels alone: two inputs of one length
  -- that agree on the selected channels of every frame give the same answer, output, counts and
  -- errors included, whatever the arithmetic gives and whatever stands on the other channels.
  pub process_agree :
      (m : ChannelMap) (xs ys : List Sample) (mono_length : ℕ)
      → length xs ≡ length ys
      → AgreeFrames m mono_length xs ys
      → process f m xs mono_length ≡ process f m ys mono_length
  unfolding process
  process_agree m xs ys n e h = rw (e, mix_frames_agree n m xs ys no_replacements e h) refl

abbrev Below : ℕ → Option ℕ → Type 0
Below n none = Unit
Below n (some i) = i < n

-- A selection of at least one of `n` channels, and of one or all of them.
abbrev pub SelectsSome : ℕ → List Bool → Type 0
SelectsSome n selected =
    (0 < count_selected (take n selected)) × (count_selected (take n selected) ≤ n)

-- A manual selection of a channel that `n` channels do not have.
abbrev pub IsOutside : ℕ → ChannelSelection → Type 0
IsOutside n selection = (i : ℕ) × (selection ≡ channel i) × (n ≤ i)

-- What a selection answers for up to 64 channels.
abbrev Answer : ℕ → ChannelSelection → Result ChannelMapError (List Bool) → Type 0
Answer n selection (ok selected) = SelectsSome n selected × (¬ IsOutside n selection)
Answer n selection (err e) = (e ≡ invalid_selection) × IsOutside n selection

-- A map of the described channels: one or more of them are selected, at most all, and the gain is
-- the quotient of one by their number.
abbrev pub IsMap : Floats → (channels : ℕ) → ChannelMap → Type 0
IsMap f channels m =
    (m.channel_count ≡ channels)
    × (0 < m.selected_count)
    × (m.selected_count ≤ m.channel_count)
    × (m.gain ≡ f.div one (f.from_int m.selected_count))
