-- ===== src/Capture/Order.antt =====
-- crates/noire-pipewire/src/capture.rs: what a sink sees over a run of callbacks and of commands.
use mathlib.Core.Path.{ap₂, transport}
use noire.Base.{
  ℕ, ◌≤◌, ◌<◌, ◌≡◌, ◌≢◌, ◌⊎◌, inl, inr, refl, sym, ◌∙◌, List, [], ◌∷◌, Option, none, some, ltb,
  ◌==◌, arith, length, ◌/◌, All, Bool-cases, Option-cases, saturating_add, u32_max, u64_max,
}
use noire.Dsp.Canonical.{Sample, max_callback_frames}
use noire.Dsp.Sanitize.{IsClean, clean-All}
use noire.Dsp.Floats.{Floats}
use noire.Capture.{
  InputGeneration, initial, ChunkMetadata, CaptureSink, CaptureTelemetry, CaptureProcessor, new,
  checked_add64, get_range, decode, advance_input_generation,
}
use noire.Capture.Process.{
  Outcome, apply_generation, synchronize_generation, reject, accept_empty, deliver, process_bytes,
  process_region, is_malformed, process_counted, process_mapped,
}
use noire.Capture.Chunk.{region}
use noire.Capture.Deliver.{process_mapped_lem}

pub data CaptureEvent : Type 0 where
  reset_event : InputGeneration → CaptureEvent
  write_event : InputGeneration → List Sample → CaptureEvent

-- A sink that keeps what it is called with, the latest first.
abbrev pub log_sink : CaptureSink
log_sink = record {
  State = List CaptureEvent;
  reset = λ events generation. reset_event generation ∷ events;
  write = λ events generation samples. write_event generation samples ∷ events;
}

-- A command of the control loop, or a callback with its mapping and metadata.
pub data CaptureCall : Type 0 where
  advance : CaptureCall
  process : Option (List ℕ) → ChunkMetadata → CaptureCall

module _ (f : Floats) where
  unfoldable pub capture_call : CaptureCall → CaptureProcessor log_sink → CaptureProcessor log_sink
  unfolding advance_input_generation process_mapped
  capture_call advance p = advance_input_generation p
  capture_call (process mapped metadata) p = (process_mapped f log_sink p mapped metadata).0

  unfoldable pub capture_calls :
      List CaptureCall → CaptureProcessor log_sink → CaptureProcessor log_sink
  unfolding capture_call
  capture_calls [] p = p
  capture_calls (x ∷ xs) p = capture_calls xs (capture_call x p)

-- Events whose last generation is the given one: every reset moves to a greater generation, and
-- every write is of clean samples under the generation of the reset before it, or the first one.
abbrev pub IsOrdered : List CaptureEvent → InputGeneration → Type 0
IsOrdered [] generation = generation ≡ initial
IsOrdered (reset_event k ∷ events) generation =
    (k ≡ generation) × ((old : InputGeneration) × (old < k) × IsOrdered events old)
IsOrdered (write_event k samples ∷ events) generation =
    (k ≡ generation) × All IsClean samples × IsOrdered events k

-- The metadata's words are u32.
abbrev pub AreWords : CaptureCall → Type 0
AreWords advance = Unit
AreWords (process mapped m) = (m.offset_bytes ≤ u32_max) × (m.size_bytes ≤ u32_max)

module _ (f : Floats) (S : CaptureSink) where
  -- Past `synchronize_generation`, a call changes neither the generation nor the command.
  abbrev Keeps : CaptureProcessor S → Outcome f S → Type 0
  Keeps q r = (r.0.generation ≡ q.generation) × (r.0.generation_command ≡ q.generation_command)

  process_bytes-Keeps :
      (q : CaptureProcessor S) (range : Option (List ℕ)) → Keeps q (process_bytes f S q range)
  unfolding process_bytes reject deliver
  process_bytes-Keeps q none = (refl, refl)
  process_bytes-Keeps q (some bytes) =
      elim (Bool-cases (ltb max_callback_frames (length bytes / 4))) [
        | inl long ↦ rw long (refl, refl)
        | inr short ↦ rw short (refl, refl)
      ]

  process_region-Keeps :
      (q : CaptureProcessor S) (mapped : Option (List ℕ)) (m : ChunkMetadata)
      → Keeps q (process_region f S q mapped m)
  unfolding process_region
  process_region-Keeps q none m = unfold reject in (refl, refl)
  process_region-Keeps q (some bytes) m =
      elim (Option-cases (checked_add64 m.offset_bytes m.size_bytes)) [
        | inl none_ ↦ rw (none_, process_region) (unfold reject in (refl, refl))
        | inr (finish, e) ↦
            rw (e, process_region) (process_bytes-Keeps q (get_range bytes m.offset_bytes finish))
      ]

  process_counted-Keeps :
      (q : CaptureProcessor S) (mapped : Option (List ℕ)) (m : ChunkMetadata)
      → Keeps q (process_counted f S q mapped m)
  unfolding process_counted
  process_counted-Keeps q mapped m = elim (Bool-cases (m.size_bytes == 0)) [
    | inl nothing ↦ rw nothing (unfold accept_empty in (refl, refl))
    | inr bytes ↦ elim (Bool-cases (is_malformed f S m)) [
      | inl bad ↦ rw (bytes, bad) (unfold reject in (refl, refl))
      | inr good ↦ rw (bytes, good) (process_region-Keeps q mapped m)
    ]
  ]

  process_mapped-Keeps :
      (p : CaptureProcessor S) (mapped : Option (List ℕ)) (m : ChunkMetadata)
      → Keeps (synchronize_generation f S p) (process_mapped f S p mapped m)
  unfolding process_mapped
  process_mapped-Keeps p mapped m =
      let q = synchronize_generation f S p in
      process_counted-Keeps
        (record q {
          counters = record (q.counters) {
            callbacks = saturating_add u64_max q.counters.callbacks 1;
          };
        })
        mapped m

  synchronize_generation_lem :
      (p : CaptureProcessor S)
      → let q = synchronize_generation f S p in
        (q.generation ≡ p.generation_command)
        × (q.generation_command ≡ p.generation_command)
        × (((p.generation_command ≡ p.generation) × (q.sink ≡ p.sink))
            ⊎ ((p.generation_command ≢ p.generation)
                × (q.sink ≡ S.reset p.sink p.generation_command)))
  unfolding synchronize_generation apply_generation
  synchronize_generation_lem p = elim (Bool-cases (p.generation_command == p.generation)) [
    | inl same ↦
        let e : p.generation_command ≡ p.generation = ground arith in
        rw same (sym e, refl, inl (e, refl))
    | inr other ↦ rw other (refl, refl, inr (ground arith, refl))
  ]

-- What holds between two calls.
record IsRunning (p : CaptureProcessor log_sink) : Type 0 where
  ordered : IsOrdered p.sink p.generation
  behind : p.generation ≤ p.generation_command
  in_range : p.generation_command ≤ u64_max

module _ (f : Floats) where
  synchronized-IsOrdered :
      (p : CaptureProcessor log_sink)
      → IsRunning p
      → let q = synchronize_generation f log_sink p in IsOrdered q.sink q.generation
  synchronized-IsOrdered p h =
      let (gen, _, ends) = synchronize_generation_lem f log_sink p in
      elim ends [
        | inl (same, sink) ↦ transport (ap₂ IsOrdered (sym sink) (sym (gen ∙ same))) h.ordered
        | inr (other, sink) ↦
            transport (ap₂ IsOrdered (sym sink) (sym gen))
              (refl, (p.generation, omega (arith, h.behind, other), h.ordered))
      ]

  process_mapped-IsRunning :
      (p : CaptureProcessor log_sink) (mapped : Option (List ℕ)) (m : ChunkMetadata)
      → IsRunning p
      → m.offset_bytes ≤ u32_max
      → m.size_bytes ≤ u32_max
      → IsRunning (process_mapped f log_sink p mapped m).0
  process_mapped-IsRunning p mapped m h ho hs =
      let q = synchronize_generation f log_sink p in
      let r = process_mapped f log_sink p mapped m in
      let before = synchronized-IsOrdered p h in
      let (gen, command, _) = synchronize_generation_lem f log_sink p in
      let (gen', command') = process_mapped-Keeps f log_sink p mapped m in
      let after : IsOrdered r.0.sink r.0.generation =
        elim (process_mapped_lem f log_sink p mapped m ho hs) [
          | inl (_, same, _) ↦ transport (ap₂ IsOrdered (sym same) (sym gen')) before
          | inr (inl (bytes, _, _, written, _)) ↦
              transport (ap₂ IsOrdered (sym written) (sym gen'))
                (refl, clean-All (decode (region bytes m)), before)
          | inr (inr (_, _, same, _, _)) ↦ transport (ap₂ IsOrdered (sym same) (sym gen')) before
        ] in
      record {
        ordered = after;
        behind = omega (arith, gen, command, gen', command');
        in_range = omega (arith, command, command', h.in_range);
      }

  capture_call-IsRunning :
      (call : CaptureCall) (p : CaptureProcessor log_sink)
      → AreWords call
      → IsRunning p
      → IsRunning (capture_call f call p)
  unfolding capture_call advance_input_generation
  capture_call-IsRunning advance p w h = record {
    ordered = h.ordered;
    behind = ground (arith, h.behind, h.in_range);
    in_range = ground (arith, h.in_range);
  }
  capture_call-IsRunning (process mapped m) p w h = process_mapped-IsRunning p mapped m h w.0 w.1

  calls-IsRunning :
      (calls : List CaptureCall) (p : CaptureProcessor log_sink)
      → All AreWords calls
      → IsRunning p
      → IsRunning (capture_calls f calls p)
  unfolding capture_calls
  calls-IsRunning [] p w h = h
  calls-IsRunning (x ∷ xs) p w h =
      calls-IsRunning xs (capture_call f x p) w.1 (capture_call-IsRunning x p w.0 h)

  -- From a new processor, whatever the order of commands and of callbacks, and whatever their
  -- mappings and metadata, the sink sees its calls in order: every reset moves to a greater
  -- generation than the one before it, every write is under the generation of the last reset, or
  -- under the first generation where there was none, and every sample that is written is finite
  -- and not subnormal.
  pub capture_calls-IsOrdered :
      (calls : List CaptureCall) (telemetry : CaptureTelemetry)
      → All AreWords calls
      → let p = capture_calls f calls (new log_sink [] telemetry) in IsOrdered p.sink p.generation
  unfolding new
  capture_calls-IsOrdered calls telemetry w =
      (calls-IsRunning calls (new log_sink [] telemetry) w
        (record { ordered = refl; behind = omega arith; in_range = omega arith })).ordered
