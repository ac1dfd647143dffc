-- ===== src/Tests/StoreTests.antt =====
-- crates/noire-config/src/lib.rs over a small disk.
use noire.Base.{◌∷◌, ◌≤◌, ◌≡◌, ◌⊎◌, ◌↔◌, refl, true, false, [], none, some, ok, err, is_ok}
use noire.Base.Text.{String, is_blank}
use noire.Config.Types.{defaults, default, LoadOutcome, primary, balanced}
use noire.Config.Check.{validate}
use noire.Config.Decode.{
  LegacyConfigV0, newer_schema, decode_and_migrate, migrate, to_canonical_toml,
}
use noire.Config.Migration.{migrate_valid_iff}
use noire.Config.Store.{save, load, atomic_write, fill, attempts, replace}
use noire.Config.Save.{BacksUp, save_replaces, newer_read_only_lem}
use noire.Config.Load.{save_load}
use noire.Control.Ports.{default_observation}
use noire.Control.Upkeep.{new}
use noire.Control.Startup.{started_valid}
use noire.Control.Daemon.{Daemon}
use noire.Control.Methods.{next_revision}
use noire.Control.Commands.{run, Request, schedules, execute}
use noire.Tests.ControlTests.{engine, moment}
use noire.Control.FileStore.{file_store, config_of, execute_files}
use noire.Tests.Disk.{
  Texts, files, files_contract, toml, toml_contract, paths, paths_differ, IsPlain-path,
  IsPlain-backup, empty_disk,
}

save_replaces_example :
    let after = save files toml empty_disk paths default in
    ((is_ok after.1 ≡ false)
      × (files_contract.content after.0 paths.path ≡ files_contract.content empty_disk paths.path))
    ⊎ ((text : String) × (to_canonical_toml toml default ≡ ok text)
        × (files_contract.content after.0 paths.path ≡ some text)
        × BacksUp files_contract toml empty_disk after.0 paths text)
save_replaces_example =
    save_replaces files_contract toml empty_disk paths default paths_differ IsPlain-path
      IsPlain-backup

abbrev newer_disk : Texts
newer_disk p = some "v2"

newer_text : decode_and_migrate toml "v2" ≡ err (newer_schema 2 1)
unfolding decode_and_migrate
newer_text = refl

newer_read_only_lem_example : (save files toml newer_disk paths default).0 ≡ newer_disk
newer_read_only_lem_example =
    (newer_read_only_lem files toml newer_disk paths default "v2" 2 1 refl newer_text).0

saves : is_ok (save files toml empty_disk paths default).1 ≡ true
unfolding save atomic_write fill attempts replace to_canonical_toml validate
saves = refl

saved_text : files.read_to_string (save files toml empty_disk paths default).0 paths.path ≡ ok "v1"
unfolding save atomic_write fill attempts replace to_canonical_toml validate
saved_text = refl

save_load_example :
    load files toml (save files toml empty_disk paths default).0 paths
    ≡ ok (record { config = default; source = primary; warning = none; writable = true })
save_load_example =
    save_load files toml files_contract toml_contract empty_disk paths default "v1" paths_differ
      IsPlain-path IsPlain-backup saves saved_text

abbrev legacy : LegacyConfigV0
legacy = record {
  schema_version = 0;
  active = true;
  input_node = " ";
  suppression_enabled = true;
  strength = 0;
}

migrate_valid_iff_example : (validate (migrate legacy) ≡ ok tt) ↔ (
    ((legacy.input_node ≡ "") ⊎ (is_blank legacy.input_node ≡ false))
    × ((legacy.strength ≤ 0x3ff0_0000_0000_0000) ⊎ (legacy.strength ≡ 0x8000_0000_0000_0000)))
migrate_valid_iff_example = migrate_valid_iff legacy

-- A blank input of schema 0 is not migrated.
blank_legacy : is_ok (validate (migrate legacy)) ≡ false
unfolding validate migrate
blank_legacy = refl

abbrev daemon : Daemon engine (file_store files toml paths)
daemon = record {
  store = empty_disk;
  config = default;
  writable = true;
  revision = 1;
  device_revision = 0;
  devices = [];
  engine = default;
  observation = default_observation;
  last_error = none;
}

abbrev request : Request
request = record { command = schedules balanced; expected = 1; moment = moment }

execute_files_example :
    ((execute daemon request).0.config ≡ default)
    ⊎ ((is_ok (execute daemon request).1 ≡ true)
        × ((execute daemon request).0.revision ≡ next_revision daemon)
        × (config_of toml (files_contract.content (execute daemon request).0.store paths.path)
            ≡ (execute daemon request).0.config))
execute_files_example =
    execute_files files_contract toml_contract paths paths_differ IsPlain-path IsPlain-backup daemon
      request

abbrev first_start : LoadOutcome
first_start = record { config = default; source = defaults; warning = none; writable = true }

first_load : load files toml empty_disk paths ≡ ok first_start
unfolding load
first_load = refl

started_valid_example :
    is_ok (
      validate
        (run
          (new {E = engine} {S = file_store files toml paths} empty_disk default first_start 3)
          (request ∷ request ∷ [])).config)
    ≡ true
started_valid_example =
    started_valid files toml paths engine empty_disk default first_start 3 (request ∷ request ∷ [])
      first_load
