-- ===== src/Source/Callback.antt =====
-- crates/noire-pipewire/src/source.rs: `process_available_buffers`. The buffers are those that the
-- stream gives in turn, each with the commands that the control loop schedules before it.
use mathlib.Core.Option
use noire.Base.{
  ℕ, ◌/◌, ◌%◌, not, ◌||◌, List, [], ◌∷◌, ◌++◌, Option, none, some, if◌then◌else◌, ltb, ◌==◌, ok,
  err, length as list_length, take, drop, replicate, map, wrapping_add64, saturating_mul, u64_max,
  u32_max,
}
use noire.Dsp.Canonical.{Sample, max_callback_frames}
use noire.Dsp.Fault.{Gain}
use noire.Transport.{Ring}
use noire.Transport.Output.{Channel, Filled, fill, reject_oversized_request}
use noire.Source.{SourceProcessor, schedule_audio_command, apply_audio_command}

pub record Chunk : Type 0 where
  pub offset : ℕ
  pub size : ℕ  -- u32
  pub stride : ℕ

-- A plane of a buffer: its chunk, if the pointer to it is not null, and its mapped bytes.
pub record DataPlane : Type 0 where
  pub chunk : Option Chunk
  pub bytes : Option (List ℕ)

pub record Buffer : Type 0 where
  pub requested : ℕ
  pub datas : List DataPlane

-- `to_ne_bytes`.
abbrev pub to_bytes : Sample → List ℕ
to_bytes x = x % 256 ∷ x / 256 % 256 ∷ x / 65536 % 256 ∷ x / 16777216 % 256 ∷ []

-- The samples over the first bytes of a plane.
abbrev pub copy_samples : List Sample → List ℕ → List ℕ
copy_samples [] bytes = bytes
copy_samples (x ∷ xs) (a ∷ b ∷ c ∷ d ∷ bytes) = to_bytes x ++ copy_samples xs bytes
copy_samples (x ∷ xs) bytes = bytes

abbrev pub empty_chunk : Chunk
empty_chunk = record { offset = 0; size = 0; stride = 4 }

-- The loop over the planes of a buffer that has not just one.
unfoldable pub silence_plane : DataPlane → DataPlane
silence_plane d = record { chunk = Option.map emptied d.chunk; bytes = Option.map zeroed d.bytes }
  where
    emptied : Chunk → Chunk
    emptied c = empty_chunk

    zeroed : List ℕ → List ℕ
    zeroed bytes = replicate (list_length bytes) 0

-- `u32::try_from(n).unwrap_or(u32::MAX)`.
abbrev pub to_u32 : ℕ → ℕ
to_u32 n = if ltb u32_max n then u32_max else n

module _ (R : Ring) where
  abbrev count_malformed : SourceProcessor R → SourceProcessor R
  count_malformed p = record p {
    telemetry = record (p.telemetry) {
      malformed_buffers = wrapping_add64 p.telemetry.malformed_buffers 1;
    };
  }

  abbrev count_missing : SourceProcessor R → SourceProcessor R
  count_missing p = record p {
    telemetry = record (p.telemetry) {
      missing_buffers = wrapping_add64 p.telemetry.missing_buffers 1;
    };
  }

  module _ (g : Gain) where
    -- The samples of the first `length` of the scratch buffer, and the published count.
    unfoldable pub finish_output : (length : ℕ) → Filled R g → Channel R × List Sample × ℕ
    finish_output length (next, output, ok report) = (next, output, report.frames)
    finish_output length (next, output, err e) = (next, replicate length 0, 0)

    unfoldable pub fill_output : Channel R → (length : ℕ) → Channel R × List Sample × ℕ
    unfolding finish_output fill
    fill_output c length = finish_output length (fill R g c length)

    -- The end of a round, for a request that fits.
    unfoldable pub publish_samples :
        SourceProcessor R → List ℕ → (frame_count : ℕ) → SourceProcessor R × DataPlane
    unfolding apply_audio_command fill_output
    publish_samples p bytes frame_count =
        let q = apply_audio_command R p in
        let (next, samples, published_frames) = fill_output q.audio frame_count in
        (
          record q { audio = next; scratch = samples ++ drop frame_count q.scratch },
          record {
            chunk = some (record {
              offset = 0;
              size = to_u32 (saturating_mul u64_max published_frames 4);
              stride = 4;
            });
            bytes = some (copy_samples (take published_frames samples) bytes);
          },
        )

    -- A round for the one plane of a buffer, with its mapped bytes.
    unfoldable pub process_bytes :
        SourceProcessor R → (requested_frames : ℕ) → List ℕ → SourceProcessor R × DataPlane
    unfolding publish_samples reject_oversized_request
    process_bytes p requested_frames bytes =
        let mapped_frames = list_length bytes / 4 in
        let frame_count = if requested_frames == 0 then mapped_frames else requested_frames in
        if ltb max_callback_frames frame_count
          || (ltb mapped_frames frame_count || not (list_length bytes % 4 == 0))
        then (
          record p { audio = reject_oversized_request R p.audio frame_count },
          record { chunk = some empty_chunk; bytes = some (replicate (list_length bytes) 0) },
        )
        else publish_samples p bytes frame_count

    unfoldable pub process_parts :
        SourceProcessor R
        → (requested_frames : ℕ) → Option Chunk
        → Option (List ℕ)
        → SourceProcessor R × DataPlane
    unfolding process_bytes
    process_parts p requested_frames none bytes =
        (count_malformed p, record { chunk = none; bytes = bytes })
    process_parts p requested_frames (some c) none =
        (count_missing p, record { chunk = some empty_chunk; bytes = none })
    process_parts p requested_frames (some c) (some bytes) = process_bytes p requested_frames bytes

    unfoldable pub process_plane :
        SourceProcessor R → (requested_frames : ℕ) → DataPlane → SourceProcessor R × DataPlane
    unfolding process_parts
    process_plane p requested_frames d = process_parts p requested_frames d.chunk d.bytes

    -- The planes of a buffer.
    unfoldable pub process_planes :
        SourceProcessor R
        → (requested_frames : ℕ) → List DataPlane
        → SourceProcessor R × List DataPlane
    unfolding process_plane silence_plane
    process_planes p requested_frames [] = (count_malformed p, [])
    process_planes p requested_frames (d ∷ []) =
        let (q, plane) = process_plane p requested_frames d in (q, plane ∷ [])
    process_planes p requested_frames (d ∷ e ∷ more) =
        (count_malformed p, map silence_plane (d ∷ e ∷ more))

    unfoldable pub process_buffer : SourceProcessor R → Buffer → SourceProcessor R × Buffer
    unfolding process_planes
    process_buffer p b =
        let (q, planes) = process_planes p b.requested b.datas in (q, record b { datas = planes })

    abbrev pub schedule_all : SourceProcessor R → List ℕ → SourceProcessor R
    schedule_all p [] = p
    schedule_all p (x ∷ xs) = schedule_all (schedule_audio_command R p x) xs

    -- The `while let` loop.
    unfoldable pub process_buffers :
        SourceProcessor R → List (List ℕ × Buffer) → SourceProcessor R × List Buffer
    unfolding process_buffer schedule_audio_command
    process_buffers p [] = (p, [])
    process_buffers p ((commands, b) ∷ rest) =
        let (q, done) = process_buffer (schedule_all p commands) b in
        let (last, others) = process_buffers q rest in (last, done ∷ others)

    -- `if !dequeued`.
    abbrev count_empty : List (List ℕ × Buffer) → SourceProcessor R → SourceProcessor R
    count_empty [] p = record p {
      telemetry = record (p.telemetry) {
        empty_dequeues = wrapping_add64 p.telemetry.empty_dequeues 1;
      };
    }
    count_empty (b ∷ buffers) p = p

    unfoldable pub process_available_buffers :
        SourceProcessor R → List (List ℕ × Buffer) → SourceProcessor R × List Buffer
    unfolding process_buffers apply_audio_command
    process_available_buffers p buffers =
        let q = apply_audio_command R p in
        let (last, done) =
          process_buffers
            (record q {
              telemetry = record (q.telemetry) {
                callbacks = wrapping_add64 q.telemetry.callbacks 1;
              };
            })
            buffers in
        (count_empty buffers last, done)
