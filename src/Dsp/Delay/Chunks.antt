-- ===== src/Dsp/Delay/Chunks.antt =====
-- crates/noire-dsp/src/delay.rs: any sequence of callback chunks.
use mathlib.Core.List.{flatten, map-append}
use native.Mathlib.Nat.{zero-add}
use noire.Base.{
  All, take-append_left, ℕ, ◌+◌, ◌≤◌, ◌≡◌, refl, sym, ap, ◌∙◌, List, [], ◌∷◌, ◌++◌, map, append-nil,
  append_assoc, arith, Result, ok, err, length, take, replicate, length-append,
}
use noire.Dsp.Canonical.{max_callback_frames, Sample}
use noire.Dsp.Sanitize.{clean}
use noire.Dsp.Delay.{DryDelay, DryDelayError, process}
use noire.Dsp.Delay.Exact.{held, IsValid, silent, silent-IsValid, process_delays}

-- A caller that processes chunk after chunk, with destinations of their lengths.
pub process_chunks :
    List (List Sample) → DryDelay → List Sample → Result DryDelayError (DryDelay × List Sample)
process_chunks [] d written = ok (d, written)
process_chunks (chunk ∷ chunks) d written = elim (process d chunk (length chunk)) [
  | ok p ↦ process_chunks chunks p.line (written ++ p.output)
  | err e ↦ err e
]

process_chunks_from :
    (chunks : List (List Sample)) (d : DryDelay) (written whole : List Sample)
    → IsValid d
    → All (λ c. length c ≤ max_callback_frames) chunks
    → written ++ held d ≡ whole
    → (e : DryDelay) × (out : List Sample) × (process_chunks chunks d written ≡ ok (e, out))
      × (length out ≡ length written + length (flatten chunks))
      × (out ++ held e ≡ whole ++ map clean (flatten chunks))
unfolding process_chunks flatten
process_chunks_from [] d written whole v h w =
    (d, written, refl, omega arith, w ∙ sym (append-nil whole))
process_chunks_from (chunk ∷ chunks) d written whole v h w =
    let (p, done, valid, sized, full, exact) = process_delays d chunk v h.0 in
    let joined : (written ++ p.output) ++ held p.line ≡ whole ++ map clean chunk =
      append_assoc written p.output (held p.line)
      ∙ ap (◌++◌ written) exact
      ∙ sym (append_assoc written (held d) (map clean chunk))
      ∙ ap (λ l. l ++ map clean chunk) w in
    let (e, out, q, n, c) =
      process_chunks_from chunks p.line (written ++ p.output) (whole ++ map clean chunk) valid h.1
        joined in
    (
      e,
      out,
      rw (done, process_chunks) q,
      omega (arith, n, full, length-append written p.output, length-append chunk (flatten chunks)),
      c
          ∙ append_assoc whole (map clean chunk) (map clean (flatten chunks))
          ∙ ap (◌++◌ whole) (sym (map-append clean chunk (flatten chunks))),
    )

-- However a stream is cut into chunks within the callback bound, a new line of n samples writes
-- as many samples as it reads: n samples of silence, then the sanitized stream, cut off at the
-- stream's length.
pub process_chunks_stream :
    (n : ℕ) (chunks : List (List Sample))
    → All (λ c. length c ≤ max_callback_frames) chunks
    → (e : DryDelay) × (process_chunks chunks (silent n) []
        ≡ ok (e, take (length (flatten chunks)) (replicate n 0 ++ map clean (flatten chunks))))
process_chunks_stream n chunks h =
    let (e, out, q, len, c) =
      process_chunks_from chunks (silent n) [] (held (silent n)) (silent-IsValid n) h refl in
    let short : take (length (flatten chunks)) (out ++ held e) ≡ out =
      rw (← (len ∙ zero-add (length (flatten chunks)))) (take-append_left out (held e)) in
    let same : out ++ held e ≡ replicate n 0 ++ map clean (flatten chunks) =
      c ∙ ap (λ l. l ++ map clean (flatten chunks)) (append-nil (replicate n 0)) in
    (e, q ∙ ap (λ l. ok (e, l)) (sym short ∙ ap (take (length (flatten chunks))) same))
