-- ===== src/Dsp/Channels.antt =====
-- crates/noire-dsp/src/channels.rs: the mapping of interleaved channels to mono.
pub mod Selected
use noire.Base.{
  ℕ, zero, suc, ◌+◌, ◌-◌, ◌*◌, Bool, true, false, not, ◌||◌, List, [], ◌∷◌, ◌++◌, Option, none,
  some, if◌then◌else◌, ltb, leb, ◌==◌, Result, ok, err, length, take, drop, set, replicate, u64_max,
}
use noire.Dsp.Canonical.{Sample, max_callback_frames}
use noire.Dsp.Sanitize.{SanitizeReport, no_replacements, sanitize_sample}
use noire.Dsp.Floats.{Floats}
use noire.Dsp.Fault.{one}

abbrev pub max_input_channels : ℕ
max_input_channels = 64

pub data ChannelPosition : Type 0 where
  mono front_center front_left front_right other : ChannelPosition

pub data ChannelSelection : Type 0 where
  auto mix_all : ChannelSelection
  channel : ℕ → ChannelSelection

pub data ChannelMapError : Type 0 where
  no_channels too_many_channels invalid_selection shape_mismatch quantum_too_large : ChannelMapError

pub record DownmixReport : Type 0 where
  pub frames : ℕ
  pub sanitized : SanitizeReport

pub record ChannelMap : Type 0 where
  pub channel_count : ℕ
  pub selected : List Bool
  pub selected_count : ℕ
  pub gain : Sample

abbrev pub is_center : ChannelPosition → Bool
is_center mono = true
is_center front_center = true
is_center _ = false

-- The first index, from that in the rest.
abbrev pub first_of : Bool → Option ℕ → Option ℕ
first_of true rest = some 0
first_of false none = none
first_of false (some i) = some (suc i)

-- `positions.iter().position(..)`.
unfoldable pub find_center : List ChannelPosition → Option ℕ
find_center [] = none
find_center (p ∷ ps) = first_of (is_center p) (find_center ps)

abbrev pub none_selected : List Bool
none_selected = replicate max_input_channels false

abbrev pub only : ℕ → List Bool
only index = set none_selected index true

-- `selected[..n].fill(true)`.
abbrev pub all_selected : ℕ → List Bool
all_selected n = replicate n true ++ drop n none_selected

-- The branch for `Auto`.
abbrev pub select_auto : ℕ → Option ℕ → Result ChannelMapError (List Bool)
select_auto n none = ok (all_selected n)
select_auto n (some index) = ok (only index)

-- The match on the selection, for `n` positions.
unfoldable pub select : List ChannelPosition → ChannelSelection → Result ChannelMapError (List Bool)
unfolding find_center
select positions mix_all = ok (all_selected (length positions))
select positions (channel index) =
    if leb (length positions) index then err invalid_selection else ok (only index)
select positions auto = select_auto (length positions) (find_center positions)

-- The fold over the selected channels.
unfoldable pub count_selected : List Bool → ℕ
count_selected [] = 0
count_selected (b ∷ bs) = (if b then 1 else 0) + count_selected bs

module _ (f : Floats) where
  abbrev pub build : ℕ → List Bool → ChannelMap
  build channel_count selected =
      let count = count_selected (take channel_count selected) in
      record {
        channel_count = channel_count;
        selected = selected;
        selected_count = count;
        gain = f.div one (f.from_int count);
      }

  abbrev pub build_selected :
      ℕ → Result ChannelMapError (List Bool) → Result ChannelMapError ChannelMap
  build_selected channel_count (err e) = err e
  build_selected channel_count (ok selected) = ok (build channel_count selected)

  unfoldable pub new : List ChannelPosition → ChannelSelection → Result ChannelMapError ChannelMap
  unfolding select count_selected
  new positions selection =
      if length positions == 0
      then err no_channels
      else if ltb max_input_channels (length positions)
      then err too_many_channels
      else build_selected (length positions) (select positions selection)

  -- The loop over one frame.
  unfoldable pub mix_channels :
      (gain : Sample) → List Bool → List Sample → Sample → SanitizeReport → Sample × SanitizeReport
  mix_channels gain (true ∷ selected) (sample ∷ frame) mixed report =
      let (value, r) = sanitize_sample sample report in
      mix_channels gain selected frame (f.add mixed (f.mul value gain)) r
  mix_channels gain (false ∷ selected) (sample ∷ frame) mixed report =
      mix_channels gain selected frame mixed report
  mix_channels gain _ _ mixed report = (mixed, report)

  -- The loop over the frames of `chunks_exact`, one for each sample of the output.
  unfoldable pub mix_frames :
      ChannelMap → (frames : ℕ) → List Sample → SanitizeReport → List Sample × SanitizeReport
  unfolding mix_channels
  mix_frames m zero interleaved report = ([], report)
  mix_frames m (suc frames) interleaved report =
      let (mixed, r) = mix_channels m.gain m.selected (take m.channel_count interleaved) 0 report in
      let (output, s) = sanitize_sample mixed r in
      let (rest, t) = mix_frames m frames (drop m.channel_count interleaved) s in (output ∷ rest, t)

  -- The samples of the output of `mono_length`, and the report.
  unfoldable pub process :
      ChannelMap
      → List Sample
      → (mono_length : ℕ) → Result ChannelMapError (List Sample × DownmixReport)
  unfolding mix_frames
  process m interleaved mono_length =
      if ltb max_callback_frames mono_length
      then err quantum_too_large
      else if ltb u64_max (mono_length * m.channel_count)
          || not (mono_length * m.channel_count == length interleaved)
      then err shape_mismatch
      else let (output, sanitized) = mix_frames m mono_length interleaved no_replacements in
        ok (output, record { frames = mono_length; sanitized = sanitized })
