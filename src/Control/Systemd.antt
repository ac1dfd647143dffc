-- ===== src/Control/Systemd.antt =====
-- crates/noired/src/systemd.rs: the launch manager over the per-user systemd manager, whose calls on
-- the session bus are a parameter.
use noire.Base.{◌≡◌, Bool, true, false, if◌then◌else◌, Result, ok, err, is_ok, arith}
use noire.Base.Text.{String, append}
use noire.Control.Ports.{LaunchManager, ManagerContract}

-- `SystemdManagerProxy` for the unit of Noire, with the text of a bus error.
pub record Bus : Type 1 where
  pub State : Type 0
  pub connect : State → State × Result String (Unit {0})
  pub enable_unit_files : State → State × Result String (Unit {0})
  pub disable_unit_files : State → State × Result String (Unit {0})
  pub reload : State → State × Result String (Unit {0})

-- What systemd documents of these calls where they succeed; connecting and reloading change no unit.
pub record BusContract (B : Bus) : Type 0 where
  pub enabled : B.State → Bool
  pub enable_ok :
      (s : B.State)
      → is_ok (B.enable_unit_files s).1 ≡ true
      → enabled (B.enable_unit_files s).0 ≡ true
  pub disable_ok :
      (s : B.State)
      → is_ok (B.disable_unit_files s).1 ≡ true
      → enabled (B.disable_unit_files s).0 ≡ false
  pub reload_keeps : (s : B.State) → enabled (B.reload s).0 ≡ enabled s

-- The text of `manager_error`.
abbrev pub manager_error : String → String
manager_error error = append "the per-user systemd manager rejected the operation: " error

module _ (B : Bus) where
  -- `map_err(manager_error)?`, and what follows it.
  abbrev pub and_then :
      B.State × Result String (Unit {0})
      → (B.State → B.State × Result String (Unit {0}))
      → B.State × Result String (Unit {0})
  and_then (s, err error) next = (s, err (manager_error error))
  and_then (s, ok done) next = next s

  -- `reload().await.map_err(manager_error)`.
  abbrev pub finished : B.State × Result String (Unit {0}) → B.State × Result String (Unit {0})
  finished (s, err error) = (s, err (manager_error error))
  finished (s, ok done) = (s, ok tt)

  unfoldable pub set_enabled : B.State → Bool → B.State × Result String (Unit {0})
  set_enabled s enabled = and_then (B.connect s) (λ s.
      and_then (if enabled then B.enable_unit_files s else B.disable_unit_files s)
        (λ s. finished (B.reload s)))

  abbrev pub systemd : LaunchManager
  systemd = record { State = B.State; set_enabled = set_enabled }

  pub set_enabled_obeys :
      (C : BusContract B) (s : B.State) (b : Bool)
      → is_ok (set_enabled s b).1 ≡ true
      → C.enabled (set_enabled s b).0 ≡ b
  unfolding set_enabled
  set_enabled_obeys C s true h =
      let t = (B.connect s).0 in
      let u = (B.enable_unit_files t).0 in ground (arith, C.enable_ok t, C.reload_keeps u)
  set_enabled_obeys C s false h =
      let t = (B.connect s).0 in
      let u = (B.disable_unit_files t).0 in ground (arith, C.disable_ok t, C.reload_keeps u)

  -- What the interface of a launch manager promises, over any bus that keeps its contract.
  unfoldable pub systemd_contract : BusContract B → ManagerContract systemd
  systemd_contract C = record { enabled = C.enabled; set_ok = set_enabled_obeys C }
