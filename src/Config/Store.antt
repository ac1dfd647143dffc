-- ===== src/Config/Store.antt =====
-- crates/noire-config/src/lib.rs: `ConfigStore`. The file system is a parameter; a file handle
-- is known by the name that it was created under.
use noire.Base.{
  ℕ, zero, suc, ◌-◌, Bool, true, false, Option, none, some, if◌then◌else◌, Result, ok, err, is_ok,
}
use noire.Base.Text.{String, append, decimal}
use noire.Config.Types.{
  Config, default, LoadOutcome, defaults, primary, backup, safe_defaults, newer_read_only,
}
use noire.Config.Decode.{
  Toml, ErrorKind, not_found, already_exists, invalid_input, IoError, ConfigError, io, newer_schema,
  config_error_text, decode_and_migrate, to_canonical_toml,
}

pub record Files : Type 1 where
  pub State : Type 0
  pub parent : String → Option String
  pub file_name : String → String  -- "config" where the source falls back to it
  pub join : String → String → String
  pub process_id : ℕ
  pub read_to_string : State → String → Result IoError String
  pub create_dir_all : State → String → State × Result IoError (Unit {0})
  pub create_new : State → String → State × Result IoError (Unit {0})
  pub flush : State → String → State × Result IoError (Unit {0})
  pub sync_all : State → String → State × Result IoError (Unit {0})
  pub remove_file : State → String → State × Result IoError (Unit {0})
  pub sync_directory : State → String → State × Result IoError (Unit {0})
  pub write_all : State → (path bytes : String) → State × Result IoError (Unit {0})
  pub rename : State → (from to : String) → State × Result IoError (Unit {0})

pub record ConfigPaths : Type 0 where
  pub path : String
  pub backup_path : String

abbrev pub is_not_found : ErrorKind → Bool
is_not_found not_found = true
is_not_found _ = false

abbrev pub is_already_exists : ErrorKind → Bool
is_already_exists already_exists = true
is_already_exists _ = false

module _ (F : Files) where
  abbrev pub Answer : Type 0
  Answer = F.State × Result IoError (Unit {0})

  -- `?` between two file operations.
  abbrev pub then_do : Answer → (F.State → Answer) → Answer
  then_do (s, err e) f = (s, err e)
  then_do (s, ok _) f = f s

  abbrev pub temporary : String → String → ℕ → String
  temporary parent path attempt = F.join parent (
      append "." (
        append (F.file_name path)
          (append ".tmp-" (append (decimal 10 F.process_id) (append "-" (decimal 2 attempt))))))

  -- The closure that fills the temporary file and renames it.
  unfoldable pub fill : F.State → (temporary path bytes : String) → Answer
  fill s temporary path bytes = then_do (F.write_all s temporary bytes) (λ s.
      then_do (F.flush s temporary)
        (λ s. then_do (F.sync_all s temporary) (λ s. F.rename s temporary path)))

  abbrev pub Written : Type 0
  Written = F.State × Result ConfigError (Unit {0})

  after_fill : (temporary path : String) → Answer → Written
  after_fill temporary path (s, ok u) = (s, ok u)
  after_fill temporary path (s, err e) = ((F.remove_file s temporary).0, err (io path e))

  after_create : (temporary path bytes : String) → Written → Answer → Written
  unfolding after_fill
  after_create temporary path bytes next (s, ok _) =
      after_fill temporary path (fill s temporary path bytes)
  after_create temporary path bytes next (s, err e) =
      if is_already_exists e.kind then next else (s, err (io temporary e))

  -- The attempts that are left of the sixteen.
  unfoldable pub attempts : ℕ → F.State → (parent path bytes : String) → Written
  unfolding after_create
  attempts zero s parent path bytes = (
    s,
    err (io path (record { kind = already_exists; text = "temporary name attempts exhausted" })),
  )
  attempts (suc left) s parent path bytes =
      let name = temporary parent path (15 - left) in
      let created = F.create_new s name in
      after_create name path bytes (attempts left created.0 parent path bytes) created

  -- `atomic_write` once the parent of the path is known.
  unfoldable pub write_beside : Option String → F.State → (path bytes : String) → Written
  write_beside none s path bytes =
      (s, err (io path (record { kind = invalid_input; text = "path has no parent" })))
  write_beside (some parent) s path bytes = attempts 16 s parent path bytes

  unfoldable pub atomic_write : F.State → (path bytes : String) → Written
  unfolding write_beside
  atomic_write s path bytes = write_beside (F.parent path) s path bytes

  -- `map_err(|source| io_error(path, source))`.
  abbrev pub at_path : String → Answer → Written
  at_path path (s, ok u) = (s, ok u)
  at_path path (s, err e) = (s, err (io path e))

  abbrev pub then_write : Written → (F.State → Written) → Written
  then_write (s, err e) f = (s, err e)
  then_write (s, ok _) f = f s

module _ (F : Files) (T : Toml) where
  -- What becomes the backup: the previous primary where it decodes, else the new text.
  abbrev pub backup_bytes : String → Result IoError String → String
  backup_bytes canonical (err e) = canonical
  backup_bytes canonical (ok existing) =
      if is_ok (decode_and_migrate T existing) then existing else canonical

  abbrev pub newer_of : Result ConfigError Config → Option ConfigError
  newer_of (err (newer_schema found supported)) = some (newer_schema found supported)
  newer_of _ = none

  -- The error of a primary that a newer daemon wrote.
  abbrev pub newer_primary : Result IoError String → Option ConfigError
  newer_primary (err e) = none
  newer_primary (ok existing) = newer_of (decode_and_migrate T existing)

  -- The file operations of `save`.
  unfoldable pub replace : F.State → ConfigPaths → (parent canonical : String) → Written F
  replace s p parent canonical = then_write F (at_path F parent (F.create_dir_all s parent)) (λ s.
      then_write F
        (atomic_write F s p.backup_path (backup_bytes canonical (F.read_to_string s p.path)))
        (λ s.
          then_write F (atomic_write F s p.path canonical)
            (λ s. at_path F parent (F.sync_directory s parent))))

  -- `save` once the parent of the primary is known.
  unfoldable pub save_below :
      Option String → F.State → ConfigPaths → (canonical : String) → Written F
  save_below none s p canonical =
      (s, err (io p.path (record { kind = invalid_input; text = "config path has no parent" })))
  save_below (some parent) s p canonical = replace s p parent canonical

  -- `save` unless a newer daemon wrote the primary.
  unfoldable pub save_unless :
      Option ConfigError → F.State → ConfigPaths → (canonical : String) → Written F
  unfolding save_below
  save_unless (some e) s p canonical = (s, err e)
  save_unless none s p canonical = save_below (F.parent p.path) s p canonical

  -- `save` with the outcome of `to_canonical_toml`.
  unfoldable pub save_canonical : F.State → ConfigPaths → Result ConfigError String → Written F
  unfolding save_unless
  save_canonical s p (err e) = (s, err e)
  save_canonical s p (ok canonical) =
      save_unless (newer_primary (F.read_to_string s p.path)) s p canonical

  unfoldable pub save : F.State → ConfigPaths → Config → Written F
  unfolding save_canonical
  save s p candidate = save_canonical s p (to_canonical_toml T candidate)

  -- The outcome once the primary does not decode, from the error and the backup.
  unfoldable pub load_backup : ConfigError → Result IoError String → LoadOutcome
  load_backup primary_error (err e) = record {
    config = default;
    source = safe_defaults;
    warning = some (
        append "primary config was preserved after error; using safe defaults: "
          (config_error_text primary_error));
    writable = true;
  }
  load_backup primary_error (ok text) = elim (decode_and_migrate T text) [
    | ok c ↦ record {
      config = c;
      source = backup;
      warning = some (
          append "primary config was preserved after error; recovered backup: "
            (config_error_text primary_error));
      writable = true;
    }
    | err e ↦ record {
      config = default;
      source = safe_defaults;
      warning = some (
          append "primary config was preserved after error; using safe defaults: "
            (config_error_text primary_error));
      writable = true;
    }
  ]

  unfoldable pub load_primary : Result ConfigError Config → Result IoError String → LoadOutcome
  unfolding load_backup
  load_primary (ok c) text = record {
    config = c;
    source = primary;
    warning = none;
    writable = true;
  }
  load_primary (err (newer_schema found supported)) text = record {
    config = default;
    source = newer_read_only;
    warning = some (
        append "config schema " (
          append (decimal 20 found) (
            append " is newer than supported schema "
              (append (decimal 20 supported) "; file preserved read-only"))));
    writable = false;
  }
  load_primary (err e) text = load_backup e text

  unfoldable pub load_text :
      F.State → ConfigPaths → Result IoError String → Result ConfigError LoadOutcome
  unfolding load_primary
  load_text s p (err e) =
      if is_not_found e.kind
      then ok (record { config = default; source = defaults; warning = none; writable = true })
      else err (io p.path e)
  load_text s p (ok text) =
      ok (load_primary (decode_and_migrate T text) (F.read_to_string s p.backup_path))

  unfoldable pub load : F.State → ConfigPaths → Result ConfigError LoadOutcome
  unfolding load_text
  load s p = load_text s p (F.read_to_string s p.path)
