-- ===== src/Tests/DspTests.antt =====
-- crates/noire-dsp at concrete inputs.
use noire.Base.{
  ◌≡◌, refl, List, [], ◌∷◌, none, some, ◌==◌, if◌then◌else◌, ok, length, replicate,
  length-replicate, arith,
}
use mathlib.Core.List.{flatten}
use noire.Dsp.Canonical.{Sample}
use noire.Dsp.Sanitize.{clean}
use noire.Dsp.Frame
use noire.Dsp.Frame.{PushState, FrameAssembler}
use noire.Dsp.Frame.Chunks.{push_chunks, push_chunks_stream}
use noire.Dsp.Delay.{DryDelay}
use noire.Dsp.Delay.Exact.{silent}
use noire.Dsp.Delay.Chunks.{process_chunks, process_chunks_stream}
use noire.Dsp.Fault.{Gain, FaultRamp, one, begin_recovery}
use noire.Dsp.Fault
use noire.Dsp.Fault.Silence.{IsValid}
use noire.Dsp.Fault.Process.{process-IsSafe, process_missing, process-silent, process_recovers}

-- The least subnormal number, and the number two.
abbrev pub tiny : Sample
tiny = 1

abbrev pub two : Sample
two = 0x4000_0000

abbrev chunk : List Sample
chunk = two ∷ tiny ∷ []

push_chunks_stream_example :
    (b : FrameAssembler) × (out : List (List Sample)) × (push_chunks
        (chunk ∷ chunk ∷ [])
        Frame.new
        []
      ≡ ok (b, out))
push_chunks_stream_example =
    let e = push_chunks_stream (chunk ∷ chunk ∷ []) (omega arith, (omega arith, tt)) in
    (e.0, e.1, e.2)

process_chunks_stream_example :
    (e : DryDelay) × (process_chunks (chunk ∷ chunk ∷ []) (silent 3) []
      ≡ ok (e, 0 ∷ 0 ∷ 0 ∷ clean two ∷ []))
unfolding flatten
process_chunks_stream_example =
    process_chunks_stream 3 (chunk ∷ chunk ∷ []) (omega arith, (omega arith, tt))

abbrev pub gain : Gain
gain = record {
  mul = λ x y. if y == one then x else 0;
  sine = λ s. if s == 240 then one else 0;
  mul_zero = λ x h. refl;
  mul_one = λ x h. refl;
  sine_zero = refl;
}

new-IsValid_fault : IsValid Fault.new
unfolding Fault.new
new-IsValid_fault = ground arith

length-dropout : length (replicate 240 two) ≡ 240
length-dropout = length-replicate 240 two

process-IsSafe_example : length (Fault.process gain Fault.new (some chunk) 2).1 ≡ 2
process-IsSafe_example = (process-IsSafe gain Fault.new (some chunk) 2 new-IsValid_fault).1

process_missing_example : (Fault.process gain Fault.new none 240).0.state ≡ Fault.silent
process_missing_example =
    (process_missing gain Fault.new 240 new-IsValid_fault (omega arith) (omega arith)).0

abbrev muted : FaultRamp
muted = record { state = Fault.silent; gain_step = 0; last_output = 0 }

muted-IsValid : IsValid muted
muted-IsValid = ground arith

process-silent_example : (Fault.process gain muted (some chunk) 2).0.state ≡ Fault.silent
process-silent_example = (process-silent gain muted (some chunk) 2 refl).0

process_recovers_example :
    (Fault.process gain
      (begin_recovery muted)
      (some (replicate 240 two))
      (length (replicate 240 two))).0.state
    ≡ Fault.passing
process_recovers_example =
    (process_recovers gain muted (replicate 240 two) muted-IsValid (λ e. cc)
      (omega (arith, length-dropout)) (omega (arith, length-dropout))).0
