-- ===== src/Dsp/Frame/Chunks.antt =====
-- crates/noire-dsp/src/frame.rs: any sequence of callback chunks.
use mathlib.Core.List.{flatten, map-append}
use noire.Base.{
  ◌≤◌, ◌≡◌, refl, sym, ap, ◌∙◌, List, [], ◌∷◌, ◌++◌, map, append-nil, append_assoc, Result, ok, err,
  length, All, All-append,
}
use noire.Dsp.Canonical.{model_frame_samples, max_callback_frames, Sample}
use noire.Dsp.Sanitize.{clean}
use noire.Dsp.Frame.{FrameAssembler, FrameAssemblerError, PushState, new, push}
use noire.Dsp.Frame.Copy.{IsValid, new-IsValid, waiting}
use noire.Dsp.Frame.Conserve.{push_conserves, flatten-append}

-- The state after a call and all frames that were emitted up to it.
abbrev pub Emitted : Type 0
Emitted = FrameAssembler × List (List Sample)

abbrev pub after_push :
    List (List Sample) → Result FrameAssemblerError PushState → Result FrameAssemblerError Emitted
after_push frames (ok s) = ok (s.assembler, frames ++ s.frames)
after_push frames (err e) = err e

abbrev pub and_then :
    Result FrameAssemblerError Emitted
    → (FrameAssembler → List (List Sample) → Result FrameAssemblerError Emitted)
    → Result FrameAssemblerError Emitted
and_then (ok (a, frames)) f = f a frames
and_then (err e) f = err e

-- A caller that pushes chunk after chunk and stops at an error.
pub push_chunks :
    List (List Sample) → FrameAssembler → List (List Sample) → Result FrameAssemblerError Emitted
push_chunks [] a frames = ok (a, frames)
push_chunks (chunk ∷ chunks) a frames =
    and_then (after_push frames (push a chunk)) (λ b fs. push_chunks chunks b fs)

push_chunks_from :
    (chunks : List (List Sample)) (a : FrameAssembler) (frames : List (List Sample))
    (whole : List Sample)
    → IsValid a
    → All (λ c. length c ≤ max_callback_frames) chunks
    → All (λ f. length f ≡ model_frame_samples) frames
    → flatten frames ++ waiting a ≡ whole
    → (b : FrameAssembler) × (out : List (List Sample)) × (push_chunks chunks a frames
        ≡ ok (b, out))
      × IsValid b
      × All (λ f. length f ≡ model_frame_samples) out
      × (flatten out ++ waiting b ≡ whole ++ map clean (flatten chunks))
unfolding push_chunks flatten
push_chunks_from [] a frames whole v h x w = (a, frames, refl, v, x, w ∙ sym (append-nil whole))
push_chunks_from (chunk ∷ chunks) a frames whole v h x w =
    let (s, done, valid, same, exact, _, _) = push_conserves a chunk v h.0 in
    let joined : flatten (frames ++ s.frames) ++ waiting s.assembler ≡ whole ++ map clean chunk =
      ap (λ l. l ++ waiting s.assembler) (flatten-append frames s.frames)
      ∙ append_assoc (flatten frames) (flatten s.frames) (waiting s.assembler)
      ∙ ap (◌++◌ (flatten frames)) same
      ∙ sym (append_assoc (flatten frames) (waiting a) (map clean chunk))
      ∙ ap (λ l. l ++ map clean chunk) w in
    let (b, out, e, vb, xo, c) =
      push_chunks_from chunks s.assembler (frames ++ s.frames) (whole ++ map clean chunk) valid h.1
        (All-append _ frames s.frames x exact) joined in
    (
      b,
      out,
      rw (done, push_chunks) e,
      vb,
      xo,
      c
          ∙ append_assoc whole (map clean chunk) (map clean (flatten chunks))
          ∙ ap (◌++◌ whole) (sym (map-append clean chunk (flatten chunks))),
    )

-- However a stream is cut into chunks within the callback bound, a new assembler accepts all of
-- them; its 512-sample frames, followed by fewer than 512 waiting samples, are the sanitized
-- stream, sample for sample and in order.
pub push_chunks_stream :
    (chunks : List (List Sample))
    → All (λ c. length c ≤ max_callback_frames) chunks
    → (b : FrameAssembler) × (out : List (List Sample)) × (push_chunks chunks new [] ≡ ok (b, out))
      × IsValid b
      × All (λ f. length f ≡ model_frame_samples) out
      × (flatten out ++ waiting b ≡ map clean (flatten chunks))
unfolding new flatten
push_chunks_stream chunks h = push_chunks_from chunks new [] [] new-IsValid h tt refl
