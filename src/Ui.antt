-- ===== src/Ui.antt =====
-- crates/noire-ui/src/state.rs: what the user interface keeps of the daemon, and what it shows.
pub mod Truth
use noire.Base.{
  ℕ, Bool, true, false, not, ◌&&◌, ◌||◌, List, [], ◌∷◌, map, Option, none, some, if◌then◌else◌,
}
use noire.Base.Text.{String, str_eq, append}
use noire.Ipc.{InputDescriptor, Metrics, Snapshot}

pub record InputChoice : Type 0 where
  pub stable_id : String
  pub label : String

pub record UserError : Type 0 where
  pub code : String
  pub cause : String
  pub recovery : String
  pub retryable : Bool

pub record UiState : Type 0 where
  pub snapshot : Option Snapshot
  pub inputs : List InputDescriptor
  pub request_pending : Bool
  pub client_error : Option UserError

abbrev pub default_ui : UiState
default_ui = record { snapshot = none; inputs = []; request_pending = false; client_error = none }

pub record Presentation : Type 0 where
  pub status : String
  pub detail : String
  pub controls_enabled : Bool

unfoldable pub set_request_pending : UiState → Bool → UiState
set_request_pending u pending = record u { request_pending = pending }

unfoldable pub converge : UiState → Snapshot → List InputDescriptor → UiState
converge u snapshot inputs = record {
  snapshot = some snapshot;
  inputs = inputs;
  request_pending = false;
  client_error = none;
}

abbrev pub error_after_refresh : Option Snapshot → Option UserError → Option UserError
error_after_refresh none client_error = none
error_after_refresh (some s) client_error = client_error

unfoldable pub refresh : UiState → Snapshot → List InputDescriptor → UiState
refresh u snapshot inputs = record {
  snapshot = some snapshot;
  inputs = inputs;
  request_pending = false;
  client_error = error_after_refresh u.snapshot u.client_error;
}

unfoldable pub reject : UiState → UserError → Option (Snapshot × List InputDescriptor) → UiState
reject u error (some (snapshot, inputs)) = record {
  snapshot = some snapshot;
  inputs = inputs;
  request_pending = false;
  client_error = some error;
}
reject u error none = record {
  snapshot = none;
  inputs = [];
  request_pending = false;
  client_error = some error;
}

abbrev pub with_metrics : Metrics → Option Snapshot → Option Snapshot
with_metrics metrics none = none
with_metrics metrics (some s) = some (record s { metrics = metrics })

unfoldable pub update_metrics : UiState → Metrics → UiState
update_metrics u metrics = record u { snapshot = with_metrics metrics u.snapshot }

abbrev pub is_some {ℓ} : {A : Type ℓ} → Option A → Bool
is_some none = false
is_some (some a) = true

abbrev pub reports_error : Option Snapshot → Bool
reports_error none = false
reports_error (some s) = s.has_error

unfoldable pub has_error : UiState → Bool
has_error u = is_some u.client_error || reports_error u.snapshot

-- The closure of `input_choices`.
unfoldable pub input_choice : InputDescriptor → InputChoice
input_choice input =
    let qualifier =
      if input.is_default
      then " — system default"
      else if str_eq input.availability "unavailable"
      then " — unavailable"
      else "" in
    record { stable_id = input.stable_id; label = append input.display_name qualifier }

unfoldable pub input_choices : UiState → List InputChoice
unfolding input_choice
input_choices u =
    record { stable_id = ""; label = "Follow system default" } ∷ map input_choice u.inputs

-- `iter().find(..).map_or_else(..)` over the display names.
abbrev pub find_name : (InputDescriptor → Bool) → String → List InputDescriptor → String
find_name test otherwise [] = otherwise
find_name test otherwise (input ∷ inputs) =
    let rest = find_name test otherwise inputs in if test input then input.display_name else rest

unfoldable pub display_name : Option Snapshot → List InputDescriptor → String
display_name none inputs = "System default"
display_name (some s) inputs =
    if not (str_eq s.input_display_name "")
    then s.input_display_name
    else if str_eq s.input_mode "selected"
    then find_name (λ input. str_eq input.stable_id s.input_stable_id) s.input_stable_id inputs
    else find_name (λ input. input.is_default) "System default" inputs

unfoldable pub input_display_name : UiState → String
unfolding display_name
input_display_name u = display_name u.snapshot u.inputs

unfoldable pub lifecycle_copy : Snapshot → (input : String) → String × String
lifecycle_copy s input =
    if s.has_error
    then (
      "Needs attention",
      if str_eq s.last_error.code ""
          then "The daemon reported a problem."
          else append "Error code: " s.last_error.code,
    )
    else if str_eq s.state "running"
    then ("Noise reduction is active", append "Listening to " (append input "."))
    else if str_eq s.state "starting" || str_eq s.state "recovering"
    then (
      "Reconnecting",
      append "Restoring " (append input "; output remains safely muted until ready."),
    )
    else if str_eq s.state "degraded"
    then (
      "Noise reduction is recovering",
      append "Audio from " (append input " is safely muted while Noire restores processing."),
    )
    else if str_eq s.state "stopping"
    then ("Stopping", "Removing the virtual microphone safely.")
    else ("Noise reduction is off", append "Ready to use " (append input "."))

abbrev pub unavailable_detail : Option UserError → String
unavailable_detail none = "Noire could not reach the background service."
unavailable_detail (some e) = append "Error code: " e.code

unfoldable pub present : Option Snapshot → UiState → Presentation
unfolding input_display_name lifecycle_copy
present none u = record {
  status = "Daemon unavailable";
  detail = unavailable_detail u.client_error;
  controls_enabled = false;
}
present (some s) u =
    let (status, detail) = lifecycle_copy s (input_display_name u) in
    record { status = status; detail = detail; controls_enabled = not u.request_pending }

unfoldable pub presentation : UiState → Presentation
unfolding present
presentation u = present u.snapshot u
