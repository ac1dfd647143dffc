-- ===== src/Control/FileStore.antt =====
-- crates/noired/src/control.rs over crates/noire-config/src/lib.rs: the daemon with the
-- file store.
use noire.Base.{◌≡◌, ◌≢◌, ◌⊎◌, inl, inr, true, Option, none, some, Result, ok, err, is_ok, arith}
use noire.Base.Text.{String}
use noire.Config.Types.{Config, default}
use noire.Config.Decode.{Toml, ConfigError, config_error_text, decode_and_migrate}
use noire.Config.Store.{Files, ConfigPaths, save}
use noire.Config.Durable.{FilesContract, IsPlain}
use noire.Config.Save.{save_replaces}
use noire.Config.Load.{TomlContract, decode_canonical}
use noire.Control.Ports.{AudioEngine, ConfigStore, StoreContract}
use noire.Control.Daemon.{Daemon}
use noire.Control.Commands.{Request, execute}
use noire.Control.Methods.{next_revision}
use noire.Control.Atomic.{execute_atomic}

-- `error.to_string()` of a save.
abbrev pub text_of_error :
    {A : Type 0} → A × Result ConfigError (Unit {0}) → A × Result String (Unit {0})
text_of_error (s, ok u) = (s, ok u)
text_of_error (s, err e) = (s, err (config_error_text e))

abbrev pub file_store : Files → Toml → ConfigPaths → ConfigStore
file_store F T p = record { State = F.State; save = λ s c. text_of_error (save F T s p c) }

-- The configuration that the text of a primary stands for.
abbrev pub decoded : Result ConfigError Config → Config
decoded (ok c) = c
decoded (err e) = default

abbrev pub config_of : Toml → Option String → Config
config_of T none = default
config_of T (some t) = decoded (decode_and_migrate T t)

module _ {F : Files} {T : Toml} (C : FilesContract F) (R : TomlContract T) (p : ConfigPaths)
    (d : p.path ≢ p.backup_path) (hp : IsPlain F p.path) (hb : IsPlain F p.backup_path) where
  pub file_saved :
      (s : F.State) (c : Config)
      → is_ok (text_of_error (save F T s p c)).1 ≡ true
      → config_of T (C.content (text_of_error (save F T s p c)).0 p.path) ≡ c
  file_saved s c h = elim (save_replaces C T s p c d hp hb) [
    | inl (failed, same) ↦ ground arith
    | inr (text, printed, new, kept) ↦ ground (arith, new, decode_canonical T R c text printed)
  ]

  abbrev pub file_contract : StoreContract (file_store F T p)
  file_contract = record { saved = λ s. config_of T (C.content s p.path); save_ok = file_saved }

  -- Over the file store, a request leaves the daemon's configuration as it was, or succeeds, and
  -- then decoding the file gives the new configuration, and the revision is the next one.
  pub execute_files :
      {E : AudioEngine} (a : Daemon E (file_store F T p)) (r : Request)
      → ((execute a r).0.config ≡ a.config)
        ⊎ ((is_ok (execute a r).1 ≡ true)
            × ((execute a r).0.revision ≡ next_revision a)
            × (config_of T (C.content (execute a r).0.store p.path) ≡ (execute a r).0.config))
  execute_files a r = execute_atomic file_contract a r
