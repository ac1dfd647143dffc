-- ===== src/Transport/Stream.antt =====
-- crates/noire-pipewire/src/bypass.rs: interleavings of writes and callbacks while the output plays.
use mathlib.Core.Path.{ap₂, subst⁻¹}
use mathlib.Core.List.{map-append}
use noire.Base.{
  ℕ, ◌+◌, ◌-◌, ◌≤◌, ◌≡◌, sym, ap, ◌∙◌, List, [], ◌∷◌, ◌++◌, map, append-nil, append_assoc, length,
  length-append, take, drop, take-append-drop, length-drop,
}
use noire.Dsp.Canonical.{Sample, max_callback_frames}
use noire.Dsp.Sanitize.{clean}
use noire.Dsp.Fault.{Gain}
use noire.Transport.{SharedState, Ring, RingContract, write_processed}
use noire.Transport.Output.{BypassOutput, Channel, fill}
use noire.Transport.Playing.{IsPlaying, write-IsPlaying, fill_callback-Played}

-- A call of the producer, or one of the consumer for a number of samples.
pub data TransportCall : Type 0 where
  write_frame : List Sample → TransportCall
  fill_callback : ℕ → TransportCall

module _ (R : Ring) (g : Gain) where
  unfoldable pub call : TransportCall → Channel R → Channel R × List Sample
  unfolding write_processed fill
  call (write_frame samples) (o, s) =
      let (ring, s', accepted) = write_processed R o.consumer s samples in
      ((record o { consumer = ring }, s'), [])
  call (fill_callback n) c = let (c', output, report) = fill R g c n in (c', output)

  -- The channel after the calls, and what the callbacks wrote.
  unfoldable pub run_calls : List TransportCall → Channel R → Channel R × List Sample
  unfolding call
  run_calls [] c = (c, [])
  run_calls (x ∷ xs) c =
      let (next, output) = call x c in
      let (last, outputs) = run_calls xs next in (last, output ++ outputs)

abbrev pub written : List TransportCall → List Sample
written [] = []
written (write_frame samples ∷ calls) = samples ++ written calls
written (fill_callback n ∷ calls) = written calls

-- Every write finds room and every callback enough samples, in a ring of `capacity` slots that
-- holds `queued`.
abbrev pub Fits : (capacity queued : ℕ) → List TransportCall → Type 0
Fits capacity queued [] = Unit
Fits capacity queued (write_frame samples ∷ calls) =
    (queued + length samples ≤ capacity) × Fits capacity (queued + length samples) calls
Fits capacity queued (fill_callback n ∷ calls) =
    (n ≤ queued) × (n ≤ max_callback_frames) × Fits capacity (queued - n) calls

module _ {R : Ring} (C : RingContract R) (g : Gain) where
  -- While the output plays, no interleaving of writes that find room and callbacks that find
  -- enough samples loses, repeats or reorders a sample: what the callbacks wrote, one after the
  -- other, followed by what is left in the ring, is what was queued followed by what was written,
  -- each sample sanitized; and the output plays on.
  pub run_calls_stream :
      (calls : List TransportCall) (capacity : ℕ) (queue : List Sample) (o : BypassOutput R)
      (s : SharedState)
      → IsPlaying C g capacity queue o s
      → Fits capacity (length queue) calls
      → let (c, output) = run_calls R g calls (o, s) in
        (rest : List Sample) × IsPlaying C g capacity rest c.0 c.1
        × (output ++ map clean rest ≡ map clean (queue ++ written calls))
  unfolding run_calls call
  run_calls_stream [] capacity queue o s p h = (queue, p, ap (map clean) (sym (append-nil queue)))
  run_calls_stream (write_frame samples ∷ calls) capacity queue o s p h =
      let w = write_processed R o.consumer s samples in
      let (rest, last, e) =
        run_calls_stream calls capacity (queue ++ samples) (record o { consumer = w.0 }) w.1
          (write-IsPlaying C g capacity queue samples o s p h.0)
          (subst⁻¹ (λ k. Fits capacity k calls) (length-append queue samples) h.1) in
      (rest, last, e ∙ ap (map clean) (append_assoc queue samples (written calls)))
  run_calls_stream (fill_callback n ∷ calls) capacity queue o s p h =
      let (out, next) = fill_callback-Played C g capacity n queue o s p h.0 h.1 in
      let q = fill R g (o, s) n in
      let (rest, last, e) =
        run_calls_stream calls capacity (drop n queue) q.0.0 q.0.1 next
          (subst⁻¹ (λ k. Fits capacity k calls) (length-drop n queue) h.2) in
      (
        rest,
        last,
        append_assoc q.1 (run_calls R g calls q.0).1 (map clean rest)
            ∙ ap₂ ◌++◌ out e
            ∙ sym (map-append clean (take n queue) (drop n queue ++ written calls))
            ∙ ap (map clean) (
                sym (append_assoc (take n queue) (drop n queue) (written calls))
                ∙ ap (λ l. l ++ written calls) (take-append-drop n queue)),
      )
