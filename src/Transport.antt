-- ===== src/Transport.antt =====
-- crates/noire-pipewire/src/bypass.rs: the transport between capture and source, a ring of samples
-- that carry the generation they were captured in. The ring crate is a parameter. A call of the
-- producer or of the consumer is one step; the atomics are the fields of one shared record.
pub mod Output
pub mod Laws
pub mod Written
pub mod Ends
pub mod Fill
pub mod Resync
pub mod Sensitive
pub mod Playing
pub mod Stream
use noire.Base.{
  ℕ, suc, ◌+◌, ◌-◌, ◌*◌, ◌≡◌, Bool, true, false, not, List, [], ◌∷◌, ◌++◌, Option, none, some,
  if◌then◌else◌, ltb, leb, ◌==◌, length, wrapping_add64, saturating_add, u64_max,
}
use noire.Dsp.Canonical.{Sample, max_callback_frames, model_frame_samples}

abbrev pub bypass_ring_capacity : ℕ
bypass_ring_capacity = 2 * max_callback_frames + 2 * model_frame_samples

abbrev pub bypass_startup_quanta : ℕ
bypass_startup_quanta = 1

pub record TaggedSample : Type 0 where
  pub generation : ℕ  -- u64
  pub value : Sample

-- All but the flag are u64 counters, which wrap.
pub record SharedState : Type 0 where
  pub generation : ℕ
  pub publication_enabled : Bool
  pub produced_frames : ℕ
  pub output_callbacks : ℕ
  pub output_frames : ℕ
  pub startup_silence_frames : ℕ
  pub missing_frames : ℕ
  pub underflows : ℕ
  pub overflows : ℕ
  pub dropped_frames : ℕ
  pub discarded_stale_frames : ℕ
  pub generation_resets : ℕ
  pub oversized_requests : ℕ
  pub sanitized_samples : ℕ
  pub current_frames : ℕ
  pub high_water_frames : ℕ

abbrev pub default_shared : SharedState
default_shared = record {
  generation = 1;
  publication_enabled = true;
  produced_frames = 0;
  output_callbacks = 0;
  output_frames = 0;
  startup_silence_frames = 0;
  missing_frames = 0;
  underflows = 0;
  overflows = 0;
  dropped_frames = 0;
  discarded_stale_frames = 0;
  generation_resets = 0;
  oversized_requests = 0;
  sanitized_samples = 0;
  current_frames = 0;
  high_water_frames = 0;
}

pub record BypassTelemetrySnapshot : Type 0 where
  pub generation : ℕ
  pub produced_frames : ℕ
  pub output_callbacks : ℕ
  pub output_frames : ℕ
  pub startup_silence_frames : ℕ
  pub missing_frames : ℕ
  pub underflows : ℕ
  pub overflows : ℕ
  pub dropped_frames : ℕ
  pub discarded_stale_frames : ℕ
  pub generation_resets : ℕ
  pub oversized_requests : ℕ
  pub sanitized_samples : ℕ
  pub current_frames : ℕ
  pub high_water_frames : ℕ

unfoldable pub snapshot : SharedState → BypassTelemetrySnapshot
snapshot s = record {
  generation = s.generation;
  produced_frames = s.produced_frames;
  output_callbacks = s.output_callbacks;
  output_frames = s.output_frames;
  startup_silence_frames = s.startup_silence_frames;
  missing_frames = s.missing_frames;
  underflows = s.underflows;
  overflows = s.overflows;
  dropped_frames = s.dropped_frames;
  discarded_stale_frames = s.discarded_stale_frames;
  generation_resets = s.generation_resets;
  oversized_requests = s.oversized_requests;
  sanitized_samples = s.sanitized_samples;
  current_frames = s.current_frames;
  high_water_frames = s.high_water_frames;
}

-- `rtrb`: the slots free to the producer and those that hold a sample, and the two ends.
pub record Ring : Type 1 where
  pub State : Type 0
  pub new : ℕ → State
  pub capacity : State → ℕ
  pub free_slots : State → ℕ
  pub held_slots : State → ℕ
  pub push : State → TaggedSample → State × Bool
  pub peek : State → Option TaggedSample
  pub pop : State → State × Option TaggedSample

-- A bounded FIFO of its contents, the oldest first.
pub record RingContract (R : Ring) : Type 0 where
  pub contents : R.State → List TaggedSample
  pub new_empty : (n : ℕ) → contents (R.new n) ≡ []
  pub new_capacity : (n : ℕ) → R.capacity (R.new n) ≡ n
  pub slots : (s : R.State) → R.free_slots s + R.held_slots s ≡ R.capacity s
  pub held : (s : R.State) → R.held_slots s ≡ length (contents s)
  pub push_room :
      (s : R.State) (x : TaggedSample) (n : ℕ)
      → R.free_slots s ≡ suc n
      → ((R.push s x).1 ≡ true)
        × (contents (R.push s x).0 ≡ contents s ++ x ∷ [])
        × (R.capacity (R.push s x).0 ≡ R.capacity s)
  pub peek_empty : (s : R.State) → contents s ≡ [] → R.peek s ≡ none
  pub peek_front :
      (s : R.State) (x : TaggedSample) (xs : List TaggedSample)
      → contents s ≡ x ∷ xs
      → R.peek s ≡ some x
  pub pop_empty : (s : R.State) → contents s ≡ [] → R.pop s ≡ (s, none)
  pub pop_front :
      (s : R.State) (x : TaggedSample) (xs : List TaggedSample)
      → contents s ≡ x ∷ xs
      → ((R.pop s).1 ≡ some x)
        × (contents (R.pop s).0 ≡ xs)
        × (R.capacity (R.pop s).0 ≡ R.capacity s)

-- `request_resync`, with the generation that it answers.
unfoldable pub request_resync : SharedState → SharedState × ℕ
request_resync s = (
  record s {
    generation_resets = wrapping_add64 s.generation_resets 1;
    generation = wrapping_add64 s.generation 1;
  },
  saturating_add u64_max s.generation 1,
)

unfoldable pub set_publication_enabled : SharedState → Bool → SharedState
set_publication_enabled s enabled = record s { publication_enabled = enabled }

unfoldable pub record_overflow : SharedState → ℕ → SharedState
unfolding request_resync
record_overflow s samples =
    (request_resync (record s {
      overflows = wrapping_add64 s.overflows 1;
      dropped_frames = wrapping_add64 s.dropped_frames samples;
    })).0

-- `fetch_max`.
abbrev pub fetch_max : ℕ → ℕ → ℕ
fetch_max a b = if ltb a b then b else a

module _ (R : Ring) where
  -- The `for` loop of `write_processed`; the flag is false if a push failed.
  unfoldable pub push_samples : R.State → ℕ → List Sample → R.State × Bool
  push_samples ring generation [] = (ring, true)
  push_samples ring generation (sample ∷ samples) =
      let (next, pushed) = R.push ring (record { generation = generation; value = sample }) in
      elim pushed [ true ↦ push_samples next generation samples | false ↦ (next, false) ]

  -- What follows the `for` loop.
  finish_write : SharedState → ℕ → R.State × Bool → R.State × SharedState × Bool
  finish_write s n (ring, false) = (ring, record_overflow s n, false)
  finish_write s n (ring, true) =
      let current = R.capacity ring - R.free_slots ring in
      (
        ring,
        record s {
          produced_frames = wrapping_add64 s.produced_frames n;
          current_frames = current;
          high_water_frames = fetch_max s.high_water_frames current;
        },
        true,
      )

  unfoldable pub write_processed :
      R.State → SharedState → List Sample → R.State × SharedState × Bool
  unfolding finish_write record_overflow
  write_processed ring s samples =
      if not s.publication_enabled
      then (ring, s, true)
      else if ltb (R.free_slots ring) (length samples)
      then (ring, record_overflow s (length samples), false)
      else finish_write s (length samples) (push_samples ring s.generation samples)

  -- `CaptureSink::write` and `CaptureSink::reset` of the sink.
  unfoldable pub write : R.State → SharedState → List Sample → R.State × SharedState
  write ring s samples =
      let (next, shared, accepted) = write_processed ring s samples in (next, shared)

  unfoldable pub reset : SharedState → SharedState
  reset s = (request_resync s).0
