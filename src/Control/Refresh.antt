-- ===== src/Control/Refresh.antt =====
-- crates/noired/src/control.rs: the start of the daemon, its observations, and launch at login.
use noire.Base.{ℕ, ◌≡◌, ◌⊎◌, Bool, true, false, not, ok, is_ok, saturating_add, u64_max, arith}
use noire.Control.Ports.{
  degraded, audible, AudioEngine, ConfigStore, LaunchManager, EngineContract, StoreContract,
  ManagerContract,
}
use noire.Control.Daemon.{Daemon, is_some_info}
use noire.Control.Methods.{Moment, next_revision}
use noire.Config.Types.{LoadOutcome}
use noire.Control.Launch.{set_launch_at_login}
use noire.Control.Upkeep.{new, public_changed, refresh_observation, inputs}

module _ {E : AudioEngine} (S : ConfigStore) (C : EngineContract E) where
  -- A new daemon follows the startup preference, whatever the file says of the last session, has
  -- revision 1, and its engine carries out its configuration, or the daemon is degraded and shows
  -- an error.
  pub new_converges :
      (store : S.State) (engine : E.State) (loaded : LoadOutcome) (now : ℕ)
      → let d : Daemon E S = new store engine loaded now in
        (d.config.active ≡ loaded.config.start_with_noise_reduction)
        × (d.revision ≡ 1)
        × ((audible (C.intent d.engine) ≡ audible d.config)
            ⊎ ((d.observation.state ≡ degraded) × (is_some_info d.last_error ≡ true)))
  unfolding new
  new_converges store engine loaded now = ground (
    arith,
    C.apply_ok engine
        (record (loaded.config) { active = loaded.config.start_with_noise_reduction }),
  )

module _ {E : AudioEngine} {S : ConfigStore} (C : EngineContract E) where
  -- A refresh keeps the configuration and what the engine intends. It moves the revision on, and
  -- says so, when the public part of the observation changed, and keeps the revision otherwise. An
  -- observation that fails leaves the daemon degraded with the error of the engine.
  pub refresh_lem :
      (d : Daemon E S) (now : ℕ)
      → let next = (refresh_observation d now).0 in
        let seen = E.observe d.engine d.observation in
        (next.config ≡ d.config)
        × (C.intent next.engine ≡ C.intent d.engine)
        × (((refresh_observation d now).1 ≡ public_changed d.observation next.observation))
        × ((((refresh_observation d now).1 ≡ true) × (next.revision ≡ next_revision d))
            ⊎ (((refresh_observation d now).1 ≡ false) × (next.revision ≡ d.revision)))
        × ((is_ok seen.1 ≡ true)
            ⊎ ((next.observation.state ≡ degraded) × (is_some_info next.last_error ≡ true)))
  unfolding refresh_observation
  refresh_lem d now = ground (arith, C.observe_intent d.engine d.observation)

  -- The device list that `inputs` answers with is the daemon's new one, it differs from the one
  -- before only if the device revision moves on, and no other revision, nor the configuration,
  -- changes.
  pub inputs_lem :
      (d : Daemon E S)
      → let next = (inputs d).0 in
        (next.config ≡ d.config)
        × (next.revision ≡ d.revision)
        × (C.intent next.engine ≡ C.intent d.engine)
        × ((is_ok (inputs d).1 ≡ false) ⊎ ((inputs d).1 ≡ ok next.devices))
        × ((next.devices ≡ d.devices)
            ⊎ (next.device_revision ≡ saturating_add u64_max d.device_revision 1))
  unfolding inputs
  inputs_lem d = ground (arith, C.inputs_intent d.engine)

module _ {E : AudioEngine} {S : ConfigStore} (M : LaunchManager) (K : StoreContract S)
    (N : ManagerContract M) where
  -- Let a save that succeeds have replaced the file, and a call of the launch manager that succeeds
  -- have set the unit. If the service unit is enabled as the configuration says, it is so after
  -- `set_launch_at_login`, whatever its outcome, unless the answer is an error and a call of the
  -- launch manager failed: the one that sets the unit, or, after a save that failed, the one that
  -- puts it back. The configuration stays, or the call succeeds, the file holds the new one, and
  -- the unit is as asked.
  pub set_launch_at_login_agrees :
      (d : Daemon E S) (manager : M.State) (enabled : Bool) (expected : ℕ) (m : Moment)
      → N.enabled manager ≡ d.config.launch_at_login
      → let after = set_launch_at_login M d manager enabled expected m in
        let first = M.set_enabled manager enabled in
        let back = M.set_enabled first.0 (not enabled) in
        let save = S.save d.store (record (d.config) { launch_at_login = enabled }) in
        ((N.enabled after.0 ≡ after.1.config.launch_at_login)
          ⊎ ((is_ok after.2 ≡ false)
              × ((is_ok first.1 ≡ false) ⊎ ((is_ok save.1 ≡ false) × (is_ok back.1 ≡ false)))))
        × ((after.1.config ≡ d.config)
            ⊎ ((is_ok after.2 ≡ true)
                × (K.saved after.1.store ≡ after.1.config)
                × (after.1.config.launch_at_login ≡ enabled)
                × (N.enabled after.0 ≡ enabled)))
  unfolding set_launch_at_login
  set_launch_at_login_agrees d manager enabled expected m h = ground (
    arith,
    N.set_ok manager enabled,
    N.set_ok (M.set_enabled manager enabled).0 (not enabled),
    K.save_ok d.store (record (d.config) { launch_at_login = enabled }),
  )
