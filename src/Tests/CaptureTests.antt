-- ===== src/Tests/CaptureTests.antt =====
-- crates/noire-pipewire/src/capture.rs at concrete inputs.
use noire.Base.{ℕ, ◌≡◌, ◌⊎◌, List, [], ◌∷◌, ◌++◌, some, none, arith, ltb, leb}
use noire.Dsp.Canonical.{Sample}
use noire.Dsp.Sanitize.{clean, sanitize_sample}
use noire.Dsp.Floats.{Floats}
use noire.Capture.{CaptureProcessor, default_telemetry, new}
use noire.Capture.Process.{synchronize_generation, process_mapped}
use noire.Capture.Chunk.{encode}
use noire.Capture.Deliver.{IsEmpty, IsDelivered, IsRejected, process_mapped_lem}
use noire.Capture.Encoded.{described, process_mapped_encoded}
use noire.Capture.Order.{
  log_sink, write_event, CaptureCall, advance, process, capture_calls, IsOrdered,
  capture_calls-IsOrdered,
}
use noire.Tests.DspTests.{two, tiny}

-- Arithmetic that gives its first operand; the deliveries do not depend on it.
abbrev pub floats : Floats
floats = record {
  abs = λ x. x;
  max = λ x y. x;
  add = λ x y. x;
  sub = λ x y. x;
  mul = λ x y. x;
  div = λ x y. x;
  neg = λ x. x;
  mul_add = λ x y z. x;
  sqrt = λ x. x;
  from_int = λ n. n;
  lt = λ x y. ltb x y;
  le = λ x y. leb x y;
}

abbrev start : CaptureProcessor log_sink
start = record {
  sink = [];
  scratch = [];
  meter = record {
    peak = 0;
    mean_square = 0;
    samples = 0;
    sanitized = record { non_finite = 0; subnormal = 0 };
  };
  counters = default_telemetry.counters;
  telemetry = default_telemetry;
  generation = 1;
  generation_command = 1;
}

abbrev spoken : List Sample
spoken = two ∷ 0 ∷ tiny ∷ []

abbrev mapped : List ℕ
mapped = (7 ∷ 7 ∷ []) ++ (encode spoken ++ 9 ∷ [])

process_mapped_lem_example :
    let m = described (7 ∷ 7 ∷ []) spoken in
    let q = synchronize_generation floats log_sink start in
    let r = process_mapped floats log_sink start (some mapped) m in
    IsEmpty floats log_sink m q r
    ⊎ IsDelivered floats log_sink (some mapped) m q r
    ⊎ IsRejected floats log_sink (some mapped) m q r
process_mapped_lem_example =
    process_mapped_lem floats log_sink start (some mapped) (described (7 ∷ 7 ∷ []) spoken)
      (omega arith) (omega arith)

process_mapped_encoded_example :
    let q = synchronize_generation floats log_sink start in
    (process_mapped floats log_sink start (some mapped) (described (7 ∷ 7 ∷ []) spoken)).0.sink
    ≡ write_event q.generation (two ∷ 0 ∷ 0 ∷ []) ∷ q.sink
unfolding clean sanitize_sample
process_mapped_encoded_example =
    (process_mapped_encoded floats log_sink start (7 ∷ 7 ∷ []) (9 ∷ []) spoken (omega arith)
      (omega arith) (omega arith) (omega arith, (omega arith, (omega arith, tt)))).0

abbrev calls : List CaptureCall
calls =
    process (some mapped) (described (7 ∷ 7 ∷ []) spoken)
    ∷ advance
    ∷ process none (described [] spoken)
    ∷ []

capture_calls-IsOrdered_example :
    let p = capture_calls floats calls (new log_sink [] default_telemetry) in
    IsOrdered p.sink p.generation
capture_calls-IsOrdered_example =
    capture_calls-IsOrdered floats calls default_telemetry
      ((omega arith, omega arith), (tt, ((omega arith, omega arith), tt)))
