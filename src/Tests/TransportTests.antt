-- ===== src/Tests/TransportTests.antt =====
-- crates/noire-pipewire/src/bypass.rs at concrete inputs, over a ring that is a list.
use noire.Base.{
  ℕ, zero, suc, ◌+◌, ◌≡◌, refl, ap, Bool, true, false, List, [], ◌∷◌, ◌++◌, map, Option, none, some,
  arith, length, length-append, replicate,
}
use noire.Dsp.Canonical.{Sample}
use noire.Dsp.Sanitize.{clean}
use noire.Dsp.Fault.{passing}
use noire.Transport.{
  TaggedSample, SharedState, default_shared, Ring, RingContract, write_processed, reset,
}
use noire.Transport.Output.{BypassOutput, clear_sensitive, fill}
use noire.Transport.Laws.{tag, NoneOf-tag}
use noire.Transport.Ends.{Ends, seen}
use noire.Transport.Fill.{fill-Ends}
use noire.Transport.Resync.{IsQuiet, overflow_silences, reset_silences}
use noire.Transport.Sensitive.{clear_sensitive_lem}
use noire.Transport.Playing.{IsPlaying}
use noire.Transport.Stream.{TransportCall, write_frame, fill_callback, run_calls, run_calls_stream}
use noire.Tests.DspTests.{gain, two}

pub record ListRing : Type 0 where
  pub free : ℕ
  pub items : List TaggedSample

abbrev pub list_push_in : ℕ → List TaggedSample → TaggedSample → ListRing × Bool
list_push_in zero items x = (record { free = zero; items = items }, false)
list_push_in (suc n) items x = (record { free = n; items = items ++ x ∷ [] }, true)

abbrev pub list_peek : List TaggedSample → Option TaggedSample
list_peek [] = none
list_peek (x ∷ xs) = some x

abbrev pub list_pop : ℕ → List TaggedSample → ListRing × Option TaggedSample
list_pop n [] = (record { free = n; items = [] }, none)
list_pop n (x ∷ xs) = (record { free = suc n; items = xs }, some x)

abbrev pub list_ring : Ring
list_ring = record {
  State = ListRing;
  new = λ n. record { free = n; items = [] };
  capacity = λ s. s.free + length s.items;
  free_slots = λ s. s.free;
  held_slots = λ s. length s.items;
  push = λ s. list_push_in s.free s.items;
  peek = λ s. list_peek s.items;
  pop = λ s. list_pop s.free s.items;
}

pub list_push_room :
    (free : ℕ) (items : List TaggedSample) (x : TaggedSample) (n : ℕ)
    → free ≡ suc n
    → let p = list_push_in free items x in
      (p.1 ≡ true)
      × (p.0.items ≡ items ++ x ∷ [])
      × (p.0.free + length p.0.items ≡ free + length items)
list_push_room zero items x n e = absurd (omega arith)
list_push_room (suc m) items x n e = (refl, refl, omega (arith, length-append items (x ∷ [])))

pub list_peek_empty : (items : List TaggedSample) → items ≡ [] → list_peek items ≡ none
list_peek_empty items e = ap list_peek e

pub list_pop_empty :
    (free : ℕ) (items : List TaggedSample)
    → items ≡ []
    → list_pop free items ≡ (record { free = free; items = items }, none)
list_pop_empty free [] e = refl
list_pop_empty free (x ∷ xs) e = cc

pub list_pop_front :
    (free : ℕ) (items : List TaggedSample) (x : TaggedSample) (xs : List TaggedSample)
    → items ≡ x ∷ xs
    → let p = list_pop free items in
      (p.1 ≡ some x) × (p.0.items ≡ xs) × (p.0.free + length p.0.items ≡ free + length items)
list_pop_front free items x xs e = rw e (refl, refl, omega arith)

abbrev pub list_contract : RingContract list_ring
list_contract = record {
  contents = λ s. s.items;
  new_empty = λ n. refl;
  new_capacity = λ n. omega arith;
  slots = λ s. refl;
  held = λ s. refl;
  push_room = λ s x n e. list_push_room s.free s.items x n e;
  peek_empty = λ s e. list_peek_empty s.items e;
  peek_front = λ s x xs e. ap list_peek e;
  pop_empty = λ s e. list_pop_empty s.free s.items e;
  pop_front = λ s x xs e. list_pop_front s.free s.items x xs e;
}

abbrev pub queue : List Sample
queue = two ∷ 0 ∷ two ∷ []

-- An output that plays, three samples of the first generation queued and two slots free.
abbrev pub playing : BypassOutput list_ring
playing = record {
  consumer = record { free = 2; items = map (tag 1) queue };
  generation = 1;
  startup_ready = true;
  scratch = replicate 4 0;
  ramp = record { state = passing; gain_step = 240; last_output = 0 };
  startup_frame_samples = 512;
  startup_quanta = 1;
  empty_while_buffering = false;
  leading_silence_pending = false;
}

playing-IsPlaying : IsPlaying list_contract gain 5 queue playing default_shared
playing-IsPlaying = record {
  enabled = refl;
  current = refl;
  ready = refl;
  audible = refl;
  full_gain = refl;
  queued = refl;
  sized = refl;
}

abbrev session : List TransportCall
session =
    write_frame (two ∷ two ∷ []) ∷ fill_callback 4 ∷ write_frame (0 ∷ []) ∷ fill_callback 2 ∷ []

run_calls_stream_example :
    let (c, output) = run_calls list_ring gain session (playing, default_shared) in
    (rest : List Sample) × IsPlaying list_contract gain 5 rest c.0 c.1
    × (output ++ map clean rest ≡ map clean (two ∷ 0 ∷ two ∷ two ∷ two ∷ 0 ∷ []))
run_calls_stream_example =
    run_calls_stream list_contract gain session 5 queue playing default_shared playing-IsPlaying
      (omega arith, (omega arith, omega arith, (omega arith, (omega arith, omega arith, tt))))

fill-Ends_example :
    Ends list_contract gain 4
      (seen list_contract gain playing default_shared 4)
      (fill list_ring gain (playing, default_shared) 4)
fill-Ends_example = fill-Ends list_contract gain playing default_shared 4 (omega arith)

-- After an overflow that the output has not seen yet.
abbrev overflowed : SharedState
overflowed = record default_shared { generation = 2; generation_resets = 1; overflows = 1 }

overflow_silences_example :
    let (ring, s', accepted) =
      write_processed list_ring playing.consumer overflowed (replicate 3 two) in
    (accepted ≡ false)
    × (ring ≡ playing.consumer)
    × (s'.overflows ≡ 2)
    × (s'.dropped_frames ≡ 3)
    × (s'.generation ≡ 3)
    × IsQuiet list_contract gain 4 (fill list_ring gain (playing, s') 4)
overflow_silences_example =
    overflow_silences list_contract gain playing overflowed (replicate 3 two) 4 (omega arith)
      (omega arith) refl (ground arith) (NoneOf-tag 3 1 queue (ground arith)) (omega arith)

reset_silences_example :
    IsQuiet list_contract gain 4 (fill list_ring gain (playing, reset list_ring default_shared) 4)
reset_silences_example =
    reset_silences list_contract gain playing default_shared 4 (omega arith) (omega arith)
      (ground arith) (NoneOf-tag 2 1 queue (ground arith))

clear_sensitive_lem_example :
    let r = clear_sensitive list_ring (playing, default_shared) in (r.0.generation ≡ r.1.generation)
clear_sensitive_lem_example = (clear_sensitive_lem list_contract playing default_shared).2
