-- ===== src/Capture/Deliver.antt =====
-- crates/noire-pipewire/src/capture.rs: a call of `process_mapped`.
use mathlib.Core.Path.{subst⁻¹}
use noire.Base.{
  ℕ, ◌+◌, ◌*◌, ◌/◌, ◌%◌, ◌≤◌, ◌<◌, ◌≡◌, ◌⊎◌, ltb→lt, inl, inr, refl, ap, ◌∙◌, true, false, List,
  map, Option, none, some, ltb, ◌==◌, ok, err, arith, length, length-map, Bool-cases,
  saturating_add, u32_max, u64_max,
}
use noire.Dsp.Canonical.{Sample, max_callback_frames}
use noire.Dsp.Sanitize.{sanitize_buffer, clean, sanitize_buffer-clean}
use noire.Dsp.Floats.{Floats}
use noire.Transport.Output.{to_u16}
use noire.Capture.{
  ChunkMetadata, CaptureBufferError, malformed_chunk, quantum_too_large, CaptureReport, CaptureSink,
  CaptureProcessor, get_range, decode,
}
use noire.Capture.Process.{
  synchronize_generation, Outcome, reject, deliver, process_bytes, process_region, is_malformed,
  process_counted, process_mapped,
}
use noire.Capture.Chunk.{
  region, length-region, length-decode, get_range_inside, get_range_outside, IsAcceptable,
}

-- A mapping and its metadata whose samples must reach the sink.
abbrev pub Accepts : Option (List ℕ) → ChunkMetadata → Type 0
Accepts none m = ⊥
Accepts (some bytes) m = IsAcceptable bytes m

small : (n k : ℕ) → n ≡ k → k ≤ 4096 → to_u16 n ≡ k
small n k e h = ground arith

too_long :
    (n size : ℕ)
    → n ≡ size
    → ltb max_callback_frames (n / 4) ≡ true
    → ¬ (size ≤ 4 * max_callback_frames)
too_long n size e long h = ground arith

beyond :
    (bytes : List ℕ) (m : ChunkMetadata)
    → ltb (length bytes) (m.offset_bytes + m.size_bytes) ≡ true
    → ¬ (m.offset_bytes + m.size_bytes ≤ length bytes)
beyond bytes m outside h = ground arith

module _ (f : Floats) (S : CaptureSink) where
  never :
      (m : ChunkMetadata)
      → is_malformed f S m ≡ true
      → m.corrupted ≡ false
      → (m.stride_bytes ≡ 0) ⊎ (m.stride_bytes ≡ 4)
      → ¬ (m.size_bytes % 4 ≡ 0)
  never m bad sound packed whole = ground arith

  acceptable :
      (bytes : List ℕ) (m : ChunkMetadata)
      → 0 < m.size_bytes
      → is_malformed f S m ≡ false
      → m.offset_bytes + m.size_bytes ≤ length bytes
      → length (region bytes m) ≡ m.size_bytes
      → ltb max_callback_frames (length (region bytes m) / 4) ≡ false
      → IsAcceptable bytes m
  acceptable bytes m h e inside len short = record {
    sound = ground arith;
    packed = ground arith;
    whole = ground arith;
    some_bytes = h;
    inside = inside;
    bounded = ground arith;
  }

  -- The three ends of a call, from the processor that has taken up the commanded generation.
  abbrev pub IsEmpty : ChunkMetadata → CaptureProcessor S → Outcome f S → Type 0
  IsEmpty m q r =
      (m.size_bytes ≡ 0)
      × (r.0.sink ≡ q.sink)
      × ((report : CaptureReport) × (r.1 ≡ ok report) × (report.frames ≡ 0))

  abbrev pub IsDelivered :
      Option (List ℕ) → ChunkMetadata → CaptureProcessor S → Outcome f S → Type 0
  IsDelivered mapped m q r =
      (bytes : List ℕ) × (mapped ≡ some bytes)
      × IsAcceptable bytes m
      × (r.0.sink ≡ S.write q.sink q.generation (map clean (decode (region bytes m))))
      × ((report : CaptureReport) × (r.1 ≡ ok report)
          × (report.frames ≡ m.size_bytes / 4)
          × (report.generation ≡ q.generation))

  abbrev pub IsRejected :
      Option (List ℕ) → ChunkMetadata → CaptureProcessor S → Outcome f S → Type 0
  IsRejected mapped m q r =
      (0 < m.size_bytes)
      × (¬ Accepts mapped m)
      × (r.0.sink ≡ q.sink)
      × (r.0.counters.frames ≡ q.counters.frames)
      × ((e : CaptureBufferError) × (r.1 ≡ err e))

  abbrev Ends : Option (List ℕ) → ChunkMetadata → CaptureProcessor S → Outcome f S → Type 0
  Ends mapped m q r = IsEmpty m q r ⊎ IsDelivered mapped m q r ⊎ IsRejected mapped m q r

  reject-IsRejected :
      (q : CaptureProcessor S) (e : CaptureBufferError) (mapped : Option (List ℕ))
      (m : ChunkMetadata)
      → 0 < m.size_bytes
      → (¬ Accepts mapped m)
      → IsRejected mapped m q (reject f S q e)
  unfolding reject
  reject-IsRejected q malformed_chunk mapped m h no_way =
      (h, no_way, refl, refl, (malformed_chunk, refl))
  reject-IsRejected q quantum_too_large mapped m h no_way =
      (h, no_way, refl, refl, (quantum_too_large, refl))

  deliver-IsDelivered :
      (q : CaptureProcessor S) (bytes : List ℕ) (m : ChunkMetadata)
      → IsAcceptable bytes m
      → IsDelivered (some bytes) m q (deliver f S q (decode (region bytes m)))
  unfolding deliver
  deliver-IsDelivered q bytes m a =
      let samples : List Sample = decode (region bytes m) in
      let same = sanitize_buffer-clean samples in
      let frames : length (sanitize_buffer samples).0 ≡ m.size_bytes / 4 =
        ap length same
        ∙ length-map samples clean
        ∙ length-decode (region bytes m)
        ∙ ap (λ n. n / 4) (length-region bytes m a.inside) in
      (
        bytes,
        refl,
        a,
        ap (S.write q.sink q.generation) same,
        (
          _,
          refl,
          small (length (sanitize_buffer samples).0) (m.size_bytes / 4) frames
              (omega (arith, a.bounded)),
          refl,
        ),
      )

  region_bytes :
      (q : CaptureProcessor S) (bytes : List ℕ) (m : ChunkMetadata)
      → m.offset_bytes ≤ u32_max
      → m.size_bytes ≤ u32_max
      → process_region f S q (some bytes) m
        ≡ process_bytes f S q (get_range bytes m.offset_bytes (m.offset_bytes + m.size_bytes))
  unfolding process_region
  region_bytes q bytes m ho hs =
      let fits : ltb u64_max (m.offset_bytes + m.size_bytes) ≡ false = ground arith in
      rw (fits, process_region) refl

  process_bytes-Ends :
      (q : CaptureProcessor S) (bytes : List ℕ) (m : ChunkMetadata)
      → 0 < m.size_bytes
      → is_malformed f S m ≡ false
      → m.offset_bytes + m.size_bytes ≤ length bytes
      → Ends (some bytes) m q (process_bytes f S q (some (region bytes m)))
  unfolding process_bytes
  process_bytes-Ends q bytes m h e inside =
      let len = length-region bytes m inside in
      elim (Bool-cases (ltb max_callback_frames (length (region bytes m) / 4))) [
        | inl long ↦ rw long (
            inr (
              inr (
                reject-IsRejected q quantum_too_large (some bytes) m h
                  (λ a. too_long (length (region bytes m)) m.size_bytes len long a.bounded))))
        | inr short ↦
            rw short
              (inr (inl (deliver-IsDelivered q bytes m (acceptable bytes m h e inside len short))))
      ]

  -- A chunk of some bytes that is not malformed by its metadata alone.
  process_region-Ends :
      (q : CaptureProcessor S) (mapped : Option (List ℕ)) (m : ChunkMetadata)
      → m.offset_bytes ≤ u32_max
      → m.size_bytes ≤ u32_max
      → 0 < m.size_bytes
      → is_malformed f S m ≡ false
      → Ends mapped m q (process_region f S q mapped m)
  process_region-Ends q none m ho hs h e =
      unfold process_region in inr (inr (reject-IsRejected q malformed_chunk none m h (λ a. a)))
  process_region-Ends q (some bytes) m ho hs h e =
      elim (Bool-cases (ltb (length bytes) (m.offset_bytes + m.size_bytes))) [
        | inl outside ↦
            subst⁻¹ (Ends (some bytes) m q)
              (region_bytes q bytes m ho hs
                ∙ ap (process_bytes f S q) (
                    get_range_outside bytes m
                      (ltb→lt (length bytes) (m.offset_bytes + m.size_bytes) outside)))
              (unfold process_bytes in
                inr (
                  inr (
                    reject-IsRejected q malformed_chunk (some bytes) m h
                      (λ a. beyond bytes m outside a.inside))))
        | inr inside ↦
            let fits : m.offset_bytes + m.size_bytes ≤ length bytes = ground arith in
            subst⁻¹ (Ends (some bytes) m q)
              (region_bytes q bytes m ho hs
                ∙ ap (process_bytes f S q) (get_range_inside bytes m fits))
              (process_bytes-Ends q bytes m h e fits)
      ]

  malformed_lem :
      (mapped : Option (List ℕ)) (m : ChunkMetadata)
      → is_malformed f S m ≡ true
      → ¬ Accepts mapped m
  malformed_lem none m e a = a
  malformed_lem (some bytes) m e a = never m e a.sound a.packed a.whole

  process_counted-Ends :
      (q : CaptureProcessor S) (mapped : Option (List ℕ)) (m : ChunkMetadata)
      → m.offset_bytes ≤ u32_max
      → m.size_bytes ≤ u32_max
      → Ends mapped m q (process_counted f S q mapped m)
  unfolding process_counted
  process_counted-Ends q mapped m ho hs = elim (Bool-cases (m.size_bytes == 0)) [
    | inl nothing ↦
        let none_left : m.size_bytes ≡ 0 = ground arith in
        rw nothing (inl (none_left, refl, (_, refl, refl)))
    | inr bytes ↦ elim (Bool-cases (is_malformed f S m)) [
      | inl bad ↦
          rw (bytes, bad)
            (inr (
              inr (
                reject-IsRejected q malformed_chunk mapped m (ground arith)
                  (malformed_lem mapped m bad))))
      | inr good ↦ rw (bytes, good) (process_region-Ends q mapped m ho hs (ground arith) good)
    ]
  ]

  -- Whatever a mapping holds and its metadata says, a call ends in one of three ways, after it has
  -- taken up the commanded generation. The metadata names no bytes, and nothing reaches the sink.
  -- Or the chunk is acceptable (not corrupted, packed, a whole number of samples, inside the
  -- mapping, and at most the callback bound), and exactly its samples, decoded and sanitized, are
  -- written to the sink once, under the generation that the report names. Or it is not acceptable,
  -- and the call fails, writes nothing to the sink and counts no frame.
  pub process_mapped_lem :
      (p : CaptureProcessor S) (mapped : Option (List ℕ)) (m : ChunkMetadata)
      → m.offset_bytes ≤ u32_max
      → m.size_bytes ≤ u32_max
      → let q = synchronize_generation f S p in
        let r = process_mapped f S p mapped m in
        IsEmpty m q r ⊎ IsDelivered mapped m q r ⊎ IsRejected mapped m q r
  unfolding process_mapped
  process_mapped_lem p mapped m ho hs =
      let q = synchronize_generation f S p in
      process_counted-Ends
        (record q {
          counters = record (q.counters) {
            callbacks = saturating_add u64_max q.counters.callbacks 1;
          };
        })
        mapped m ho hs
