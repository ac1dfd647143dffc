-- ===== src/Dsp/Frame.antt =====
-- crates/noire-dsp/src/frame.rs: assembling callback chunks of any size into exact model frames.
-- The frames that `emit` is called with are returned as a list, in the order of the calls. An index
-- into the storage is below its size while fewer than 512 samples wait.
pub mod Copy
pub mod Conserve
pub mod Chunks
use noire.Base.{
  ℕ, zero, suc, ◌+◌, ◌-◌, min, Bool, true, false, List, [], ◌∷◌, ◌++◌, ltb, ◌==◌, if◌then◌else◌,
  Result, ok, err, length, take, drop, set, replicate, wrapping_add64,
}
use noire.Dsp.Canonical.{model_frame_samples, max_callback_frames, frame_assembler_capacity, Sample}
use noire.Dsp.Sanitize.{SanitizeReport, no_replacements, sanitize_sample}

pub data FrameAssemblerError : Type 0 where
  quantum_too_large : FrameAssemblerError

pub record FramePushReport : Type 0 where
  pub accepted_samples : ℕ  -- usize
  pub emitted_frames : ℕ  -- usize
  pub sanitized : SanitizeReport

pub record FrameAssembler : Type 0 where
  pub storage : List Sample
  pub pending : ℕ  -- usize

unfoldable pub new : FrameAssembler
new = record { storage = replicate frame_assembler_capacity 0; pending = 0 }

-- `storage.fill(0.0)` keeps the length of the array.
unfoldable pub reset : FrameAssembler → FrameAssembler
reset a = record { storage = replicate (length a.storage) 0; pending = 0 }

-- The `for` loop that copies one run of samples into the storage.
unfoldable pub copy_samples :
    FrameAssembler → List Sample → SanitizeReport → FrameAssembler × SanitizeReport
copy_samples a [] report = (a, report)
copy_samples a (sample ∷ samples) report =
    let (value, r) = sanitize_sample sample report in
    copy_samples (record { storage = set a.storage a.pending value; pending = a.pending + 1 })
      samples r

-- The variables of the `while` loop of `push`, and the frames emitted so far.
pub record PushState : Type 0 where
  pub assembler : FrameAssembler
  pub consumed : ℕ
  pub report : FramePushReport
  pub frames : List (List Sample)

-- The `if self.pending == MODEL_FRAME_SAMPLES` at the end of the loop's body.
unfoldable pub emit_if_full : PushState → PushState
emit_if_full s =
    if s.assembler.pending == model_frame_samples
    then record s {
      assembler = record (s.assembler) { pending = 0 };
      report = record (s.report) { emitted_frames = wrapping_add64 s.report.emitted_frames 1 };
      frames = s.frames ++ take model_frame_samples s.assembler.storage ∷ [];
    }
    else s

unfoldable pub push_step : List Sample → PushState → PushState
push_step input s =
    let needed = model_frame_samples - s.assembler.pending in
    let copied = min needed (length input - s.consumed) in
    let (a, r) =
      copy_samples s.assembler (take copied (drop s.consumed input)) s.report.sanitized in
    emit_if_full (record s {
      assembler = a;
      consumed = s.consumed + copied;
      report = record (s.report) { sanitized = r };
    })

-- `while consumed < input.len()`.
unfoldable pub push_loop : ℕ → List Sample → PushState → PushState
push_loop zero input s = s
push_loop (suc fuel) input s = elim (ltb s.consumed (length input)) [
  | true ↦ push_loop fuel input (push_step input s)
  | false ↦ s
]

unfoldable pub start_push : FrameAssembler → List Sample → PushState
start_push a input = record {
  assembler = a;
  consumed = 0;
  report = record {
    accepted_samples = length input;
    emitted_frames = 0;
    sanitized = no_replacements;
  };
  frames = [];
}

-- Every round takes at least one sample, so as many rounds as samples are enough.
unfoldable pub push : FrameAssembler → List Sample → Result FrameAssemblerError PushState
push a input =
    if ltb max_callback_frames (length input)
    then err quantum_too_large
    else ok (push_loop (length input) input (start_push a input))
