-- ===== src/Config/Load.antt =====
-- crates/noire-config/src/lib.rs: `ConfigStore::load`, alone and after a save.
use noire.Base.{
  ◌≡◌, ◌≢◌, ◌⊎◌, inl, inr, refl, sym, ◌∙◌, true, false, none, some, Result, ok, err, is_ok, arith,
  Bool-cases,
}
use noire.Base.Text.{String}
use noire.Config.Types.{
  Config, default, LoadOutcome, defaults, primary, newer_read_only, config_schema_version,
}
use noire.Config.Check.{validate}
use noire.Config.Decode.{
  Toml, IoError, ConfigError, newer_schema, validation_failed, parse_failed, serialize_failed, io,
  invalid_schema_version, decode_and_migrate, to_canonical_toml, version_of,
}
use noire.Config.Migration.{decode_valid}
use noire.Config.Store.{
  Files, ConfigPaths, is_not_found, save, load, load_text, load_primary, load_backup,
}
use noire.Config.Durable.{FilesContract, IsPlain}
use noire.Config.Save.{save_replaces}

pub default_valid : validate default ≡ ok tt
unfolding validate
default_valid = refl

-- The writer that serde derives and the reader agree: what is printed is read back, and its
-- document has the schema version of the configuration.
pub record TomlContract (T : Toml) : Type 0 where
  pub printed_document :
      (c : Config) (t : String)
      → T.print c ≡ ok t
      → (v : T.Value) × (T.document t ≡ ok v) × (version_of T v ≡ some c.schema_version)
  pub printed_config : (c : Config) (t : String) → T.print c ≡ ok t → T.read_config t ≡ ok c

module _ (F : Files) (T : Toml) where
  -- An outcome that a daemon can start from.
  abbrev pub IsSound : LoadOutcome → Type 0
  IsSound out =
      (validate out.config ≡ ok tt) × ((out.writable ≡ true) ⊎ (out.source ≡ newer_read_only))

  load_backup-IsSound :
      (e : ConfigError) (r : Result IoError String) → IsSound (load_backup F T e r)
  unfolding load_backup
  load_backup-IsSound e (err x) = (default_valid, inl refl)
  load_backup-IsSound e (ok t) = ground (arith, decode_valid T t, default_valid)

  load_primary-IsSound :
      (r : Result ConfigError Config) (b : Result IoError String)
      → (is_ok r ≡ false) ⊎ ((c : Config) × (r ≡ ok c) × (validate c ≡ ok tt))
      → IsSound (load_primary F T r b)
  unfolding load_primary
  load_primary-IsSound (ok c) b h = (ground arith, inl refl)
  load_primary-IsSound (err (newer_schema found supported)) b h = (default_valid, inr refl)
  load_primary-IsSound (err (validation_failed e)) b h = load_backup-IsSound _ b
  load_primary-IsSound (err (parse_failed t)) b h = load_backup-IsSound _ b
  load_primary-IsSound (err (serialize_failed t)) b h = load_backup-IsSound _ b
  load_primary-IsSound (err (io path e)) b h = load_backup-IsSound _ b
  load_primary-IsSound (err invalid_schema_version) b h = load_backup-IsSound _ b

  load_text-IsSound :
      (s : F.State) (p : ConfigPaths) (r : Result IoError String)
      → ((e : IoError) × (r ≡ err e) × (is_not_found e.kind ≡ false))
        ⊎ ((out : LoadOutcome) × (load_text F T s p r ≡ ok out) × IsSound out)
  unfolding load_text
  load_text-IsSound s p (err e) = elim (Bool-cases (is_not_found e.kind)) [
    | inl none_there ↦ inr (
      record { config = default; source = defaults; warning = none; writable = true },
      rw none_there refl,
      (default_valid, inl refl),
    )
    | inr failed ↦ inl (e, refl, failed)
  ]
  load_text-IsSound s p (ok t) = inr (
    _,
    refl,
    load_primary-IsSound (decode_and_migrate T t) (F.read_to_string s p.backup_path)
        (decode_valid T t),
  )

  pub load-IsSound :
      (s : F.State) (p : ConfigPaths)
      → ((e : IoError) × (F.read_to_string s p.path ≡ err e) × (is_not_found e.kind ≡ false))
        ⊎ ((out : LoadOutcome) × (load F T s p ≡ ok out) × IsSound out)
  unfolding load
  load-IsSound s p = load_text-IsSound s p (F.read_to_string s p.path)

some-injective : {a b : String} → some a ≡ some b → a ≡ b
some-injective h = cc

schema_of_valid : (c : Config) → validate c ≡ ok tt → c.schema_version ≡ config_schema_version
unfolding validate
schema_of_valid c h = ground arith

module _ (T : Toml) (R : TomlContract T) where
  canonical_of :
      (c : Config) (t : String)
      → to_canonical_toml T c ≡ ok t
      → (validate c ≡ ok tt) × (T.print c ≡ ok t)
  unfolding to_canonical_toml
  canonical_of c t h = ground arith

  pub decode_canonical :
      (c : Config) (t : String) → to_canonical_toml T c ≡ ok t → decode_and_migrate T t ≡ ok c
  unfolding decode_and_migrate
  decode_canonical c t h =
      let (valid, printed) = canonical_of c t h in
      let (v, read, version) = R.printed_document c t printed in
      ground (
        arith,
        valid,
        printed,
        read,
        version,
        schema_of_valid c valid,
        R.printed_config c t printed,
      )

module _ (F : Files) (T : Toml) (C : FilesContract F) (R : TomlContract T) where
  -- After a save that succeeded, a load that can read the primary gives the saved configuration,
  -- from the primary, writable and without a warning.
  pub save_load :
      (s : F.State) (p : ConfigPaths) (c : Config) (read : String)
      → p.path ≢ p.backup_path
      → IsPlain F p.path
      → IsPlain F p.backup_path
      → is_ok (save F T s p c).1 ≡ true
      → F.read_to_string (save F T s p c).0 p.path ≡ ok read
      → load F T (save F T s p c).0 p
        ≡ ok (record { config = c; source = primary; warning = none; writable = true })
  unfolding load
  save_load s p c read d hp hb done h = elim (save_replaces C T s p c d hp hb) [
    | inl (failed, same) ↦ cc
    | inr (text, printed, new, kept) ↦
        let found : some read ≡ some text =
          sym (C.read_ok (save F T s p c).0 p.path read h) ∙ new in
        let decoded : decode_and_migrate T read ≡ ok c =
          rw (some-injective found) (decode_canonical T R c text printed) in
        rw (h, decoded, load) refl
  ]
