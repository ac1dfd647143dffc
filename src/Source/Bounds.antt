-- ===== src/Source/Bounds.antt =====
-- crates/noire-pipewire/src/source.rs: the chunks that a callback leaves in its buffers.
use noire.Base.{
  ℕ, ◌*◌, ◌/◌, ◌%◌, ◌≤◌, ◌≡◌, inl, inr, refl, ap, ◌∙◌, false, not, ◌&&◌, ◌||◌, List, [], ◌∷◌, ◌++◌,
  map, Option, none, some, ltb, ◌==◌, Result, ok, err, if◌then◌else◌, arith, length, drop, take,
  All, Bool-cases, wrapping_add64, saturating_mul, u64_max,
}
use noire.Dsp.Canonical.{Sample, max_callback_frames}
use noire.Dsp.Fault.{Gain, FaultRamp, FaultRampError, FaultRampReport}
use noire.Dsp.Fault
use noire.Transport.{Ring, request_resync}
use noire.Transport.Output.{
  Channel, Filled, Taken, BypassOutputError, BypassOutputReport, to_u16, take_samples,
  discard_stale_prefix, synchronize_generation, fill_silence, finish_fill, fill_taken, start_output,
  fill_started, fill_ready, startup_required, fill_synchronized, fill,
}
use noire.Source.{SourceProcessor, apply_audio_command}
use noire.Source.Callback.{
  Chunk, DataPlane, Buffer, to_u32, copy_samples, silence_plane, finish_output, fill_output,
  publish_samples, process_bytes, process_parts, process_plane, process_planes, process_buffer,
  schedule_all, process_buffers, process_available_buffers,
}

to_u16_le : (n : ℕ) → to_u16 n ≤ n
to_u16_le n = ground arith

pub length-copy_samples :
    (samples : List Sample) (bytes : List ℕ) → length (copy_samples samples bytes) ≡ length bytes
length-copy_samples [] bytes = refl
length-copy_samples (x ∷ xs) [] = refl
length-copy_samples (x ∷ xs) (a ∷ []) = refl
length-copy_samples (x ∷ xs) (a ∷ b ∷ []) = refl
length-copy_samples (x ∷ xs) (a ∷ b ∷ c ∷ []) = refl
length-copy_samples (x ∷ xs) (a ∷ b ∷ c ∷ d ∷ bytes) = omega (arith, length-copy_samples xs bytes)

module _ (R : Ring) (g : Gain) where
  -- No more frames are reported than were asked for.
  abbrev Within : ℕ → Result BypassOutputError BypassOutputReport → Type 0
  Within n (ok report) = report.frames ≤ n
  Within n (err e) = Unit

  finish_fill-Within :
      (c : Channel R) (n : ℕ) (p : FaultRamp × List Sample × Result FaultRampError FaultRampReport)
      → Within n (finish_fill R g c n p).2
  unfolding finish_fill
  finish_fill-Within c n (r, out, ok report) = to_u16_le n
  finish_fill-Within c n (r, out, err e) = tt

  fill_silence-Within : (c : Channel R) (n m : ℕ) → m ≤ n → Within n (fill_silence R g c n m).2
  unfolding fill_silence
  fill_silence-Within c n m h = omega (arith, to_u16_le m)

  fill_taken-Within : (c : Channel R) (n : ℕ) (t : Taken R) → Within n (fill_taken R g c n t).2
  unfolding fill_taken
  fill_taken-Within (o, s) n t =
      let scratch : List Sample = t.values ++ drop (length t.values) o.scratch in
      elim (Bool-cases t.complete) [
        | inl done ↦ rw done (
            finish_fill-Within (record o { consumer = t.ring; scratch = scratch }, s) n
              (Fault.process g o.ramp (some t.values) n))
        | inr short ↦ rw short (
            finish_fill-Within
              (
                record o {
                  consumer = t.ring;
                  scratch = scratch;
                  startup_ready = false;
                  leading_silence_pending = o.empty_while_buffering;
                },
                (request_resync (record s { underflows = wrapping_add64 s.underflows 1 })).0,
              )
              n (Fault.process g o.ramp none n))
      ]

  fill_started-Within : (c : Channel R) (n : ℕ) → Within n (fill_started R g c n).2
  unfolding fill_started
  fill_started-Within (o, s) n =
      elim (Bool-cases (o.empty_while_buffering && o.leading_silence_pending)) [
        | inl silent ↦ rw silent (
            fill_silence-Within (record o { leading_silence_pending = false }, s) n n (omega arith))
        | inr audible ↦
            rw audible (fill_taken-Within (o, s) n (take_samples R n o.generation o.consumer))
      ]

  fill_synchronized-Within : (c : Channel R) (n : ℕ) → Within n (fill_synchronized R g c n).2
  unfolding fill_synchronized fill_ready
  fill_synchronized-Within (o, s) n =
      elim (Bool-cases
        (not o.startup_ready && ltb (R.held_slots o.consumer) (startup_required R g o n))) [
          | inl early ↦ rw early (
              fill_silence-Within (o, s) n (if o.empty_while_buffering then 0 else n)
                (ground arith))
          | inr ready ↦ rw ready (fill_started-Within (start_output R g o, s) n)
        ]

  fill-Within : (c : Channel R) (n : ℕ) → Within n (fill R g c n).2
  unfolding fill
  fill-Within (o, s) n = elim (Bool-cases (ltb max_callback_frames n)) [
    | inl long ↦ rw long tt
    | inr short ↦ rw short (
        fill_synchronized-Within
          (discard_stale_prefix R (
            synchronize_generation R
              (o, record s { output_callbacks = wrapping_add64 s.output_callbacks 1 })))
          n)
  ]

  finish_output-Within : (n : ℕ) (q : Filled R g) → Within n q.2 → (finish_output R g n q).2 ≤ n
  unfolding finish_output
  finish_output-Within n (next, output, ok report) h = h
  finish_output-Within n (next, output, err e) h = omega arith

  pub fill_output-Within : (c : Channel R) (n : ℕ) → (fill_output R g c n).2 ≤ n
  unfolding fill_output
  fill_output-Within c n = finish_output-Within n (fill R g c n) (fill-Within c n)

-- A chunk names whole samples, from the first one on, that all lie in the mapped bytes.
abbrev pub InsideParts : Option Chunk → Option (List ℕ) → Type 0
InsideParts none bytes = Unit
InsideParts (some c) none = c.size ≡ 0
InsideParts (some c) (some bytes) = (c.offset ≡ 0) × (c.size % 4 ≡ 0) × (c.size ≤ length bytes)

abbrev pub IsInside : DataPlane → Type 0
IsInside d = InsideParts d.chunk d.bytes

-- The size of a chunk that names `published` samples.
pub size_lem :
    (published n size : ℕ)
    → published ≤ n
    → n ≤ max_callback_frames
    → n ≤ size / 4
    → (to_u32 (saturating_mul u64_max published 4) ≡ 4 * published) × (4 * published ≤ size)
size_lem published n size few h w = ground arith

pub good_lem :
    (n size : ℕ)
    → (ltb max_callback_frames n || (ltb (size / 4) n || not (size % 4 == 0))) ≡ false
    → (n ≤ max_callback_frames) × (n ≤ size / 4)
good_lem n size h = ground arith

silence_plane-IsInside : (d : DataPlane) → IsInside (silence_plane d)
unfolding silence_plane
silence_plane-IsInside d = inside d.chunk d.bytes
  where
    inside :
        (c : Option Chunk) (b : Option (List ℕ))
        → IsInside (silence_plane (record { chunk = c; bytes = b }))
    inside none bytes = tt
    inside (some c) none = refl
    inside (some c) (some bytes) = (refl, refl, omega arith)

silence_planes-IsInside : (ds : List DataPlane) → All IsInside (map silence_plane ds)
silence_planes-IsInside [] = tt
silence_planes-IsInside (d ∷ ds) = (silence_plane-IsInside d, silence_planes-IsInside ds)

module _ (R : Ring) (g : Gain) where
  publish_samples-IsInside :
      (p : SourceProcessor R) (bytes : List ℕ) (frame_count : ℕ)
      → frame_count ≤ max_callback_frames
      → frame_count ≤ length bytes / 4
      → IsInside (publish_samples R g p bytes frame_count).1
  unfolding publish_samples
  publish_samples-IsInside p bytes n w h =
      let c = (apply_audio_command R p).audio in
      let published : ℕ = (fill_output R g c n).2 in
      let (size, fits) = size_lem published n (length bytes) (fill_output-Within R g c n) w h in
      let same = length-copy_samples (take published (fill_output R g c n).1) bytes in
      (refl, ap (λ k. k % 4) size ∙ whole published, omega (arith, size, fits, same))
    where
      whole : (k : ℕ) → 4 * k % 4 ≡ 0
      whole k = omega arith

  process_bytes-IsInside :
      (p : SourceProcessor R) (requested : ℕ) (bytes : List ℕ)
      → IsInside (process_bytes R g p requested bytes).1
  unfolding process_bytes
  process_bytes-IsInside p requested bytes =
      let n : ℕ = if requested == 0 then length bytes / 4 else requested in
      elim (Bool-cases
        (ltb max_callback_frames n || (ltb (length bytes / 4) n || not (length bytes % 4 == 0)))) [
          | inl bad ↦ rw bad (refl, refl, omega arith)
          | inr good ↦
              let (w, h) = good_lem n (length bytes) good in
              rw good (publish_samples-IsInside p bytes n w h)
        ]

  process_parts-IsInside :
      (p : SourceProcessor R) (requested : ℕ) (c : Option Chunk) (b : Option (List ℕ))
      → IsInside (process_parts R g p requested c b).1
  unfolding process_parts
  process_parts-IsInside p requested none b = tt
  process_parts-IsInside p requested (some c) none = refl
  process_parts-IsInside p requested (some c) (some bytes) =
      process_bytes-IsInside p requested bytes

  process_planes-IsInside :
      (p : SourceProcessor R) (requested : ℕ) (ds : List DataPlane)
      → All IsInside (process_planes R g p requested ds).1
  unfolding process_planes process_plane
  process_planes-IsInside p requested [] = tt
  process_planes-IsInside p requested (d ∷ []) =
      (process_parts-IsInside p requested d.chunk d.bytes, tt)
  process_planes-IsInside p requested (d ∷ e ∷ more) = silence_planes-IsInside (d ∷ e ∷ more)

  process_buffers-IsInside :
      (bs : List (List ℕ × Buffer)) (p : SourceProcessor R)
      → All (λ b. All IsInside b.datas) (process_buffers R g p bs).1
  unfolding process_buffers process_buffer
  process_buffers-IsInside [] p = tt
  process_buffers-IsInside ((commands, b) ∷ bs) p = (
    process_planes-IsInside (schedule_all R g p commands) b.requested b.datas,
    process_buffers-IsInside bs (process_buffer R g (schedule_all R g p commands) b).0,
  )

  -- A callback never publishes bytes that are not mapped: whatever the request, the planes, their
  -- mappings and the chunks that they had, and whatever the ring holds, every chunk that it leaves
  -- starts at the first byte, names a whole number of samples, and ends inside the mapped bytes; and
  -- a plane with no mapped bytes is left with an empty chunk.
  pub process_available_buffers-IsInside :
      (p : SourceProcessor R) (bs : List (List ℕ × Buffer))
      → All (λ b. All IsInside b.datas) (process_available_buffers R g p bs).1
  unfolding process_available_buffers
  process_available_buffers-IsInside p bs =
      let q = apply_audio_command R p in
      process_buffers-IsInside bs (record q {
        telemetry = record (q.telemetry) { callbacks = wrapping_add64 q.telemetry.callbacks 1 };
      })
