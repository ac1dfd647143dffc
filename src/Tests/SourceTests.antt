-- ===== src/Tests/SourceTests.antt =====
-- crates/noire-pipewire/src/source.rs at concrete inputs.
use noire.Base.{ℕ, ◌≡◌, refl, List, [], ◌∷◌, some, none, arith, All, replicate}
use noire.Transport.{default_shared}
use noire.Source.{
  streaming, paused, unconnected, ControlState, default_control, source_streaming, active,
  deactivate, resolve_demand_transition, SourceProcessor, audio_command_clear,
}
use noire.Source.Demand.{
  SourceEvent, changed, polled, source_step, AreJust, run_events, demand_debounced,
  pause_deactivates,
}
use noire.Source.Callback.{Buffer, empty_chunk, process_available_buffers}
use noire.Source.Bounds.{IsInside, process_available_buffers-IsInside}
use noire.Source.Privacy.{IsSilent, clear_silences}
use noire.Tests.DspTests.{gain}
use noire.Tests.TransportTests.{list_ring, list_contract, playing}

-- A call that begins, pauses for less than the debounce, and goes on.
abbrev short_pause : List (ℕ × SourceEvent)
short_pause =
    (5, changed streaming)
    ∷ (6, polled)
    ∷ (10, changed paused)
    ∷ (400_000_000, polled)
    ∷ (400_000_001, changed streaming)
    ∷ []

demand_debounced_example : AreJust default_control 0 short_pause
demand_debounced_example =
    demand_debounced short_pause 0
      (omega arith, (omega arith, (omega arith, (omega arith, (omega arith, tt)))))

abbrev in_use : ControlState
in_use = record default_control { stream_state = source_streaming; demand = active }

pause_deactivates_example :
    (resolve_demand_transition
      (run_events
        (source_step in_use 10 (changed paused)).0
        ((20, polled) ∷ (30, changed unconnected) ∷ [])).0
      500_000_010).1
    ≡ some deactivate
pause_deactivates_example =
    (pause_deactivates in_use 10 500_000_010 ((20, polled) ∷ (30, changed unconnected) ∷ []) refl
      refl (omega arith, (omega arith, tt)) (omega arith)).1

abbrev source : SourceProcessor list_ring
source = record {
  audio = (playing, default_shared);
  scratch = replicate 4 0;
  audio_command = audio_command_clear;
  telemetry = record {
    callbacks = 0;
    empty_dequeues = 0;
    missing_buffers = 0;
    malformed_buffers = 0;
  };
}

abbrev buffers : List (List ℕ × Buffer)
buffers =
    (
      [],
      record {
        requested = 2;
        datas = record { chunk = some empty_chunk; bytes = some (replicate 8 5) } ∷ [];
      },
    )
    ∷ (
      [],
      record { requested = 0; datas = record { chunk = none; bytes = some (replicate 3 5) } ∷ [] },
    )
    ∷ []

clear_silences_example :
    All
      (λ b. All (IsSilent list_contract gain) b.datas)
      (process_available_buffers list_ring gain source buffers).1
clear_silences_example = clear_silences list_contract gain source buffers refl (omega arith)

process_available_buffers-IsInside_example :
    All (λ b. All IsInside b.datas) (process_available_buffers list_ring gain source buffers).1
process_available_buffers-IsInside_example =
    process_available_buffers-IsInside list_ring gain source buffers
