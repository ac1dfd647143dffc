-- ===== src/Ui/Truth.antt =====
-- crates/noire-ui/src/state.rs: the state over a run of answers of the daemon.
use noire.Base.{◌≡◌, refl, ap, ◌∙◌, Bool, true, not, ◌||◌, List, [], ◌∷◌, Option, none, some, All}
use noire.Ipc.{InputDescriptor, Metrics, Snapshot, no_metrics}
use noire.Ui.{
  UserError, UiState, default_ui, set_request_pending, converge, error_after_refresh, refresh,
  reject, with_metrics, update_metrics, is_some, reports_error, has_error, present, presentation,
}

-- What the client reports to the state.
pub data UiEvent : Type 0 where
  pending : Bool → UiEvent
  converged refreshed : Snapshot → List InputDescriptor → UiEvent
  rejected : UserError → Option (Snapshot × List InputDescriptor) → UiEvent
  measured : Metrics → UiEvent

unfoldable pub handle : UiState → UiEvent → UiState
unfolding set_request_pending converge refresh reject update_metrics
handle u (pending p) = set_request_pending u p
handle u (converged s inputs) = converge u s inputs
handle u (refreshed s inputs) = refresh u s inputs
handle u (rejected e recovered) = reject u e recovered
handle u (measured m) = update_metrics u m

abbrev pub handle_all : UiState → List UiEvent → UiState
handle_all u [] = u
handle_all u (e ∷ events) = handle_all (handle u e) events

-- A snapshot without its meters.
abbrev pub settings : Option Snapshot → Option Snapshot
settings none = none
settings (some s) = some (record s { metrics = no_metrics })

-- The last settings and inputs that the daemon gave, and none once it could not be read.
abbrev pub last_given :
    Option Snapshot × List InputDescriptor → List UiEvent → Option Snapshot × List InputDescriptor
last_given given [] = given
last_given given (pending p ∷ events) = last_given given events
last_given given (converged s inputs ∷ events) = last_given (settings (some s), inputs) events
last_given given (refreshed s inputs ∷ events) = last_given (settings (some s), inputs) events
last_given given (rejected e none ∷ events) = last_given (none, []) events
last_given given (rejected e (some (s, inputs)) ∷ events) =
    last_given (settings (some s), inputs) events
last_given given (measured m ∷ events) = last_given given events

settings_measured : (m : Metrics) (s : Option Snapshot) → settings (with_metrics m s) ≡ settings s
settings_measured m none = refl
settings_measured m (some s) = refl

shows_from :
    (events : List UiEvent) (u : UiState)
    → let last = handle_all u events in
      (settings last.snapshot, last.inputs) ≡ last_given (settings u.snapshot, u.inputs) events
unfolding handle set_request_pending converge refresh reject update_metrics
shows_from [] u = refl
shows_from (pending p ∷ events) u = shows_from events (record u { request_pending = p })
shows_from (converged s inputs ∷ events) u = shows_from events (converge u s inputs)
shows_from (refreshed s inputs ∷ events) u = shows_from events (refresh u s inputs)
shows_from (rejected e none ∷ events) u = shows_from events (reject u e none)
shows_from (rejected e (some (s, inputs)) ∷ events) u =
    shows_from events (reject u e (some (s, inputs)))
shows_from (measured m ∷ events) u =
    shows_from events (update_metrics u m)
    ∙ ap (λ given. last_given (given, u.inputs) events) (settings_measured m u.snapshot)

-- From the empty state on, whatever the client reports, the settings and the inputs that are shown
-- are the last ones that the daemon gave, and none if it could not be read since: a request that was
-- rejected, one that is pending, and meters change nothing of them.
pub shows_last_given :
    (events : List UiEvent)
    → let last = handle_all default_ui events in
      (settings last.snapshot, last.inputs) ≡ last_given (none, []) events
shows_last_given events = shows_from events default_ui

-- Events that come between a rejection and the next answer to a request, with the daemon connected.
abbrev pub IsOrdinary : UiEvent → Type 0
IsOrdinary (pending p) = Unit
IsOrdinary (refreshed s inputs) = Unit
IsOrdinary (measured m) = Unit
IsOrdinary (converged s inputs) = ⊥
IsOrdinary (rejected e recovered) = ⊥

-- The state still shows the error, and has a snapshot.
abbrev pub Keeps : UserError → UiState → Type 0
Keeps e u = (u.client_error ≡ some e) × (is_some u.snapshot ≡ true)

handle-Keeps :
    (e : UserError) (u : UiState) (event : UiEvent)
    → IsOrdinary event
    → Keeps e u
    → Keeps e (handle u event)
unfolding handle set_request_pending refresh update_metrics
handle-Keeps e u (pending p) w h = h
handle-Keeps e u (refreshed s inputs) w h = (kept u.snapshot u.client_error h.1 ∙ h.0, refl)
  where
    kept :
        (s : Option Snapshot) (c : Option UserError)
        → is_some s ≡ true
        → error_after_refresh s c ≡ c
    kept none c h = cc
    kept (some s) c h = refl
handle-Keeps e u (measured m) w h = (h.0, measured_some u.snapshot ∙ h.1)
  where
    measured_some : (s : Option Snapshot) → is_some (with_metrics m s) ≡ is_some s
    measured_some none = refl
    measured_some (some s) = refl
handle-Keeps e u (converged s inputs) w h = absurd w
handle-Keeps e u (rejected x recovered) w h = absurd w

handle_all-Keeps :
    (events : List UiEvent) (e : UserError) (u : UiState)
    → All IsOrdinary events
    → Keeps e u
    → Keeps e (handle_all u events)
handle_all-Keeps [] e u w h = h
handle_all-Keeps (x ∷ events) e u w h =
    handle_all-Keeps events e (handle u x) w.1 (handle-Keeps e u x w.0 h)

-- After a rejection from which the daemon could be read, the error stays visible whatever signals
-- and meters of the daemon follow, until the next answer to a request; and meanwhile the controls
-- are enabled exactly while no request is pending.
pub rejection_visible :
    (u : UiState) (e : UserError) (s : Snapshot) (inputs : List InputDescriptor)
    (events : List UiEvent)
    → All IsOrdinary events
    → let last = handle_all (reject u e (some (s, inputs))) events in
      (last.client_error ≡ some e)
      × (has_error last ≡ true)
      × ((presentation last).controls_enabled ≡ not last.request_pending)
unfolding has_error presentation reject
rejection_visible u e s inputs events w =
    let last = handle_all (reject u e (some (s, inputs))) events in
    let (kept, connected) =
      handle_all-Keeps events e (reject u e (some (s, inputs))) w (refl, refl) in
    (
      kept,
      ap (λ (c : Option UserError). is_some c || reports_error last.snapshot) kept,
      enabled last.snapshot last connected,
    )
  where
    enabled :
        (s : Option Snapshot) (u : UiState)
        → is_some s ≡ true
        → (present s u).controls_enabled ≡ not u.request_pending
    enabled none u h = cc
    enabled (some s) u h = unfold present in refl
