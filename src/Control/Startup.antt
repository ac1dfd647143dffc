-- ===== src/Control/Startup.antt =====
-- crates/noired/src/control.rs: a daemon started from a loaded configuration.
use noire.Base.{ℕ, ◌≡◌, inl, inr, refl, ap, ◌∙◌, true, false, List, Result, ok, err, is_ok, arith}
use noire.Config.Types.{LoadOutcome}
use noire.Config.Check.{validate}
use noire.Config.Decode.{Toml, IoError, ConfigError}
use noire.Config.Store.{Files, ConfigPaths, is_not_found, load, load_text}
use noire.Config.Load.{load-IsSound}
use noire.Control.Ports.{AudioEngine, ConfigStore}
use noire.Control.Daemon.{Daemon}
use noire.Control.Commands.{Request, run}
use noire.Control.Upkeep.{new, startup_config}
use noire.Control.Validity.{run_valid}
use noire.Control.FileStore.{file_store}

startup_config_valid : (out : LoadOutcome) → validate (startup_config out) ≡ validate out.config
unfolding validate
startup_config_valid out = refl

new_config :
    (E : AudioEngine) (S : ConfigStore) (store : S.State) (engine : E.State) (out : LoadOutcome)
    (now : ℕ)
    → (new {E = E} {S = S} store engine out now).config ≡ startup_config out
unfolding new
new_config E S store engine out now = ground arith

ok-injective :
    {a b : LoadOutcome} {r : Result ConfigError LoadOutcome} → r ≡ ok a → r ≡ ok b → a ≡ b
ok-injective h k = cc

module _ (F : Files) (T : Toml) (p : ConfigPaths) where
  load-err :
      (s : F.State) (e : IoError)
      → F.read_to_string s p.path ≡ err e
      → is_not_found e.kind ≡ false
      → is_ok (load F T s p) ≡ false
  unfolding load load_text
  load-err s e r n = rw (r, n, load) refl

  loaded_valid :
      (s : F.State) (out : LoadOutcome) → load F T s p ≡ ok out → validate out.config ≡ ok tt
  loaded_valid s out h = elim (load-IsSound F T s p) [
    | inr (other, g, sound) ↦ rw (ok-injective h g) sound.0
    | inl (e, r, n) ↦ ground (arith, h, load-err s e r n)
  ]

  -- Started from whatever a load gave, with whatever engine, and after whatever requests, the
  -- daemon over the file store has a valid configuration.
  pub started_valid :
      (E : AudioEngine) (s : F.State) (engine : E.State) (out : LoadOutcome) (now : ℕ)
      (rs : List Request)
      → load F T s p ≡ ok out
      → is_ok (validate (run (new {E = E} {S = file_store F T p} s engine out now) rs).config)
        ≡ true
  started_valid E s engine out now rs h =
      let d : Daemon E (file_store F T p) = new s engine out now in
      let first : validate d.config ≡ ok tt =
        ap validate (new_config E (file_store F T p) s engine out now)
        ∙ startup_config_valid out
        ∙ loaded_valid s out h in
      run_valid d rs (ap is_ok first)
