-- ===== src/Source/Demand.antt =====
-- crates/noire-pipewire/src/source.rs: the demand that follows from state changes and polls.
use noire.Base.{
  ℕ, ◌+◌, ◌≤◌, ◌<◌, ◌≡◌, true, false, ◌||◌, List, [], ◌∷◌, Option, none, some, if◌then◌else◌, arith,
  All,
}
use noire.Source.{
  StreamState, streaming, paused, connecting, unconnected, error, SourceStreamState, idle, active,
  DemandTransition, activate, deactivate, ControlState, default_control, consumer_idle_debounce,
  map_stream_state, is_streaming, note_change, resolve_demand_transition,
}

-- A change that PipeWire reports, or a poll of the control loop.
pub data SourceEvent : Type 0 where
  changed : StreamState → SourceEvent
  polled : SourceEvent

-- The part of the listener that touches the control state.
unfoldable pub source_step :
    ControlState → (now : ℕ) → SourceEvent → ControlState × Option DemandTransition
unfolding note_change map_stream_state resolve_demand_transition
source_step c now (changed new) =
    (note_change (record c { stream_state = map_stream_state new }) new now, none)
source_step c now polled = resolve_demand_transition c now

-- The last instant at which the stream is known to stream.
abbrev pub seen : (last now : ℕ) → (before after : ControlState) → ℕ
seen last now before after =
    if is_streaming before.stream_state || is_streaming after.stream_state then now else last

-- What a step answers: an activation is of an idle source that streams; a deactivation is of an
-- active one that has not streamed for the whole debounce; the demand changes with the answer only.
abbrev pub IsJust :
    (before after : ControlState) → (last now : ℕ) → Option DemandTransition → Type 0
IsJust before after last now none = after.demand ≡ before.demand
IsJust before after last now (some activate) =
    (before.demand ≡ idle) × (after.demand ≡ active) × (is_streaming after.stream_state ≡ true)
IsJust before after last now (some deactivate) =
    (before.demand ≡ active)
    × (after.demand ≡ idle)
    × (is_streaming after.stream_state ≡ false)
    × (last + consumer_idle_debounce ≤ now)

abbrev pub AreJust : ControlState → (last : ℕ) → List (ℕ × SourceEvent) → Type 0
AreJust c last [] = Unit
AreJust c last ((now, event) ∷ events) =
    let (next, answer) = source_step c now event in
    let last' = seen last now c next in IsJust c next last' now answer × AreJust next last' events

abbrev pub IsClock : ℕ → List (ℕ × SourceEvent) → Type 0
IsClock now [] = Unit
IsClock now ((next, event) ∷ events) = (now ≤ next) × IsClock next events

-- The mark of idleness is not before the last instant of streaming, and there is none while the
-- stream streams.
abbrev Mark : Option ℕ → SourceStreamState → (last now : ℕ) → Type 0
Mark none state last now = last ≤ now
Mark (some t) state last now = (last ≤ now) × (last ≤ t) × (is_streaming state ≡ false)

abbrev IsMarked : ControlState → (last now : ℕ) → Type 0
IsMarked c last now = Mark c.idle_since c.stream_state last now

changed_lem :
    (c : ControlState) (last before now : ℕ) (new : StreamState)
    → IsMarked c last before
    → before ≤ now
    → let next = (source_step c now (changed new)).0 in
      IsMarked next (seen last now c next) now × (next.demand ≡ c.demand)
unfolding source_step note_change map_stream_state
changed_lem c last before now streaming h w = ground arith
changed_lem c last before now paused h w = ground arith
changed_lem c last before now connecting h w = ground arith
changed_lem c last before now unconnected h w = ground arith
changed_lem c last before now (error m) h w = ground arith

polled_lem :
    (c : ControlState) (last before now : ℕ)
    → IsMarked c last before
    → before ≤ now
    → let (next, answer) = source_step c now polled in
      IsMarked next (seen last now c next) now × IsJust c next (seen last now c next) now answer
unfolding source_step resolve_demand_transition
polled_lem c last before now h w = ground arith

step_lem :
    (c : ControlState) (last before now : ℕ) (event : SourceEvent)
    → IsMarked c last before
    → before ≤ now
    → let (next, answer) = source_step c now event in
      IsMarked next (seen last now c next) now × IsJust c next (seen last now c next) now answer
step_lem c last before now polled h w = polled_lem c last before now h w
step_lem c last before now (changed new) h w =
    unfold source_step in changed_lem c last before now new h w

events_just :
    (events : List (ℕ × SourceEvent)) (c : ControlState) (last before : ℕ)
    → IsMarked c last before
    → IsClock before events
    → AreJust c last events
events_just [] c last before h w = tt
events_just ((now, event) ∷ events) c last before h w =
    let (marked, just) = step_lem c last before now event h w.0 in
    (
      just,
      events_just events (source_step c now event).0 (seen last now c (source_step c now event).0)
          now marked w.1,
    )

-- From the first state on, whatever changes PipeWire reports and whenever the control loop polls,
-- with a clock that does not go back, every answer is just: an activation is given only to an idle
-- source that streams; a deactivation is given only to an active source that is not streaming and
-- has not been seen streaming for the 500 milliseconds before; and the demand changes with these
-- answers only, so that activations and deactivations alternate.
pub demand_debounced :
    (events : List (ℕ × SourceEvent)) (start : ℕ)
    → IsClock start events
    → AreJust default_control start events
demand_debounced events start w = events_just events default_control start start (omega arith) w

-- The demand waits for the end of its debounce since `t`.
record IsWaiting (t : ℕ) (c : ControlState) : Type 0 where
  wanted : c.demand ≡ active
  since : c.idle_since ≡ some t
  stopped : is_streaming c.stream_state ≡ false

-- Neither a return to streaming nor an instant past the debounce.
abbrev pub IsEarly : ℕ → ℕ × SourceEvent → Type 0
IsEarly t (now, changed streaming) = ⊥
IsEarly t (now, event) = now < t + consumer_idle_debounce

abbrev pub run_events :
    ControlState → List (ℕ × SourceEvent) → ControlState × List (Option DemandTransition)
run_events c [] = (c, [])
run_events c ((now, event) ∷ events) =
    let (next, answer) = source_step c now event in
    let (last, answers) = run_events next events in (last, answer ∷ answers)

source_step-IsWaiting :
    (t now : ℕ) (event : SourceEvent) (c : ControlState)
    → IsWaiting t c
    → IsEarly t (now, event)
    → IsWaiting t (source_step c now event).0 × ((source_step c now event).1 ≡ none)
unfolding source_step note_change map_stream_state resolve_demand_transition
source_step-IsWaiting t now polled c h w = ground (arith, h.wanted, h.since, h.stopped)
source_step-IsWaiting t now (changed streaming) c h w = absurd w
source_step-IsWaiting t now (changed paused) c h w = ground (arith, h.wanted, h.since, h.stopped)
source_step-IsWaiting t now (changed connecting) c h w =
    ground (arith, h.wanted, h.since, h.stopped)
source_step-IsWaiting t now (changed unconnected) c h w =
    ground (arith, h.wanted, h.since, h.stopped)
source_step-IsWaiting t now (changed (error m)) c h w = ground (arith, h.wanted, h.since, h.stopped)

run_events-IsWaiting :
    (events : List (ℕ × SourceEvent)) (t : ℕ) (c : ControlState)
    → IsWaiting t c
    → All (IsEarly t) events
    → IsWaiting t (run_events c events).0 × All (λ answer. answer ≡ none) (run_events c events).1
run_events-IsWaiting [] t c h w = (h, tt)
run_events-IsWaiting ((now, event) ∷ events) t c h w =
    let (still, quiet) = source_step-IsWaiting t now event c h w.0 in
    let (last, others) = run_events-IsWaiting events t (source_step c now event).0 still w.1 in
    (last, (quiet, others))

deactivated_lem :
    (t now : ℕ) (c : ControlState)
    → IsWaiting t c
    → t + consumer_idle_debounce ≤ now
    → ((resolve_demand_transition c now).1 ≡ some deactivate)
      × ((resolve_demand_transition c now).0.demand ≡ idle)
unfolding resolve_demand_transition
deactivated_lem t now c h w = ground (arith, h.wanted, h.since, h.stopped)

-- When the stream of an active source pauses at `t`, nothing is answered as long as it does not
-- stream again and the debounce is not over, whatever else it reports and however often it is
-- polled; and the first poll from then on answers a deactivation.
pub pause_deactivates :
    (c : ControlState) (t now : ℕ) (events : List (ℕ × SourceEvent))
    → c.demand ≡ active
    → c.idle_since ≡ none
    → All (IsEarly t) events
    → t + consumer_idle_debounce ≤ now
    → let (waiting, answers) = run_events (source_step c t (changed paused)).0 events in
      All (λ answer. answer ≡ none) answers
      × ((resolve_demand_transition waiting now).1 ≡ some deactivate)
      × ((resolve_demand_transition waiting now).0.demand ≡ idle)
pause_deactivates c t now events wanted none_yet early over =
    let start : IsWaiting t (source_step c t (changed paused)).0 = paused_lem c t wanted none_yet in
    let (still, quiet) =
      run_events-IsWaiting events t (source_step c t (changed paused)).0 start early in
    let (answer, left) =
      deactivated_lem t now (run_events (source_step c t (changed paused)).0 events).0 still over in
    (quiet, answer, left)
  where
    paused_lem :
        (c : ControlState) (t : ℕ)
        → c.demand ≡ active
        → c.idle_since ≡ none
        → IsWaiting t (source_step c t (changed paused)).0
    paused_lem c t wanted none_yet =
        unfold source_step note_change map_stream_state in ground (arith, wanted, none_yet)
