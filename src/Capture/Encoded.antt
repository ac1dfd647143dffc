-- ===== src/Capture/Encoded.antt =====
-- crates/noire-pipewire/src/capture.rs: samples laid out in a mapping.
use noire.Base.{
  ℕ, ◌*◌, ◌≤◌, ◌<◌, ◌≡◌, inl, inr, refl, sym, ap, ◌∙◌, false, List, [], ◌++◌, map, Option, none,
  some, ok, arith, length, take, All, length-append, take-append_left, drop-append_left, u32_max,
}
use noire.Dsp.Canonical.{Sample, max_callback_frames}
use noire.Dsp.Sanitize.{clean}
use noire.Dsp.Floats.{Floats}
use noire.Capture.{ChunkMetadata, CaptureReport, CaptureSink, CaptureProcessor, decode}
use noire.Capture.Process.{synchronize_generation, process_mapped}
use noire.Capture.Chunk.{encode, IsWord, decode-encode, length-encode, region, IsAcceptable}
use noire.Capture.Deliver.{process_mapped_lem}

-- The metadata of samples that lie packed behind `before`.
abbrev pub described : (before : List ℕ) → List Sample → ChunkMetadata
described before samples = record {
  offset_bytes = length before;
  size_bytes = 4 * length samples;
  stride_bytes = 4;
  corrupted = false;
}

region-described :
    (before : List ℕ) (samples : List Sample) (after : List ℕ)
    → region (before ++ (encode samples ++ after)) (described before samples) ≡ encode samples
region-described before samples after =
    ap (take (4 * length samples)) (drop-append_left before (encode samples ++ after))
    ∙ ap (λ n. take n (encode samples ++ after)) (sym (length-encode samples))
    ∙ take-append_left (encode samples) after

described-IsAcceptable :
    (before : List ℕ) (samples : List Sample) (after : List ℕ)
    → 0 < length samples
    → length samples ≤ max_callback_frames
    → IsAcceptable (before ++ (encode samples ++ after)) (described before samples)
described-IsAcceptable before samples after h w = record {
  sound = refl;
  packed = inr refl;
  whole = omega arith;
  some_bytes = omega arith;
  inside = omega (
    arith,
    length-append before (encode samples ++ after),
    length-append (encode samples) after,
    length-encode samples,
  );
  bounded = omega arith;
}

from_some : List ℕ → Option (List ℕ) → List ℕ
from_some other none = other
from_some other (some bytes) = bytes

-- Up to a callback bound of samples, laid out little-endian and packed anywhere in a mapping and
-- described so, reach the sink whatever bytes stand before and behind them: the call succeeds, and
-- the sink is given exactly these samples in their order, each sanitized, under the current
-- generation.
pub process_mapped_encoded :
    (f : Floats) (S : CaptureSink) (p : CaptureProcessor S) (before after : List ℕ)
    (samples : List Sample)
    → length before ≤ u32_max
    → 0 < length samples
    → length samples ≤ max_callback_frames
    → All IsWord samples
    → let q = synchronize_generation f S p in
      let r =
        process_mapped f S p
          (some (before ++ (encode samples ++ after)))
          (described before samples) in
      (r.0.sink ≡ S.write q.sink q.generation (map clean samples))
      × ((report : CaptureReport) × (r.1 ≡ ok report) × (report.frames ≡ length samples))
unfolding from_some
process_mapped_encoded f S p before after samples hb h w words =
    let bytes : List ℕ = before ++ (encode samples ++ after) in
    let m : ChunkMetadata = described before samples in
    let q = synchronize_generation f S p in
    elim (process_mapped_lem f S p (some bytes) m hb (omega arith)) [
      | inl (nothing, _, _) ↦ absurd (omega (arith, nothing))
      | inr (inr (_, refused, _, _, _)) ↦
          absurd (refused (described-IsAcceptable before samples after h w))
      | inr (inl (same_bytes, e, _, sink, (report, done, frames, _))) ↦ (
        sink
            ∙ ap (λ l. S.write q.sink q.generation (map clean (decode (region l m))))
                (sym (ap (from_some []) e))
            ∙ ap (λ l. S.write q.sink q.generation (map clean l))
                (ap decode (region-described before samples after) ∙ decode-encode samples words),
        (report, done, omega (arith, frames)),
      )
    ]
