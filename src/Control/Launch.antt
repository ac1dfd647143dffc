-- ===== src/Control/Launch.antt =====
-- crates/noired/src/control.rs: `set_launch_at_login`.
use noire.Base.{ℕ, Bool, not, none, if◌then◌else◌, ◌==◌, Result, ok, err}
use noire.Base.Text.{String, append}
use noire.Config.Types.{Config}
use noire.Ipc.{Snapshot}
use noire.Control.Ports.{AudioEngine, ConfigStore, LaunchManager}
use noire.Control.Daemon.{Daemon, ControlError, conflict, persistence, read_only, launch_manager}
use noire.Control.Methods.{Moment, next_revision, snapshot, bool_eq}

module _ {E : AudioEngine} {S : ConfigStore} (M : LaunchManager) where
  -- The text of a failed save, with that of a failed rollback.
  after_unit_rollback :
      Daemon E S
      → S.State
      → String
      → M.State × Result String (Unit {0})
      → M.State × Daemon E S × Result ControlError Snapshot
  after_unit_rollback d store text (manager, ok _) =
      (manager, record d { store = store }, err (persistence text))
  after_unit_rollback d store text (manager, err rollback) = (
    manager,
    record d { store = store },
    err (persistence (append text (append "; systemd rollback also failed: " rollback))),
  )

  after_unit_save :
      Daemon E S
      → Config
      → Moment
      → M.State
      → S.State × Result String (Unit {0})
      → M.State × Daemon E S × Result ControlError Snapshot
  unfolding after_unit_rollback
  after_unit_save d candidate m manager (store, err text) =
      after_unit_rollback d store text (M.set_enabled manager (not candidate.launch_at_login))
  after_unit_save d candidate m manager (store, ok _) =
      let next = record d {
        store = store;
        config = candidate;
        revision = next_revision d;
        last_error = none;
      } in
      (manager, next, ok (snapshot next m.uptime))

  after_unit :
      Daemon E S
      → Config
      → Moment
      → M.State × Result String (Unit {0})
      → M.State × Daemon E S × Result ControlError Snapshot
  unfolding after_unit_save
  after_unit d candidate m (manager, err text) = (manager, d, err (launch_manager text))
  after_unit d candidate m (manager, ok _) =
      after_unit_save d candidate m manager (S.save d.store candidate)

  unfoldable pub set_launch_at_login :
      Daemon E S → M.State → Bool → ℕ → Moment → M.State × Daemon E S × Result ControlError Snapshot
  unfolding after_unit
  set_launch_at_login d manager enabled expected m =
      if not (expected == d.revision)
      then (manager, d, err (conflict expected d.revision))
      else if not d.writable
      then (manager, d, err read_only)
      else if bool_eq d.config.launch_at_login enabled
      then (manager, d, ok (snapshot d m.uptime))
      else after_unit d (record (d.config) { launch_at_login = enabled }) m
          (M.set_enabled manager enabled)
