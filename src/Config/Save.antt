-- ===== src/Config/Save.antt =====
-- crates/noire-config/src/lib.rs: `ConfigStore::save` and `ConfigStore::load`.
use noire.Base.{
  ℕ, ◌≡◌, ◌≢◌, ◌⊎◌, inl, inr, refl, sym, ap, ◌∙◌, true, false, Option, none, some, Result, ok, err,
  is_ok, arith, Bool-cases,
}
use noire.Base.Text.{String}
use noire.Config.Types.{default, LoadOutcome, Config}
use noire.Config.Decode.{
  Toml, IoError, ConfigError, newer_schema, decode_and_migrate, to_canonical_toml,
}
use noire.Config.Store.{
  Files, ConfigPaths, atomic_write, backup_bytes, replace, save_below, save_unless, save_canonical,
  newer_primary, save, load,
}
use noire.Config.Durable.{FilesContract, IsPlain, atomic_write-Replaces, atomic_write-keeps}

module _ (F : Files) (T : Toml) where
  backup_bytes_lem :
      (text : String) (r : Result IoError String)
      → (backup_bytes F T text r ≡ text)
        ⊎ ((old : String) × (r ≡ ok old)
            × (is_ok (decode_and_migrate T old) ≡ true)
            × (backup_bytes F T text r ≡ old))
  backup_bytes_lem text (err e) = inl refl
  backup_bytes_lem text (ok old) = elim (Bool-cases (is_ok (decode_and_migrate T old))) [
    | inl good ↦ inr (old, refl, good, ground arith)
    | inr bad ↦ inl (ground arith)
  ]

module _ {F : Files} (C : FilesContract F) (T : Toml) where
  -- The backup after a save that replaced the primary: a previous primary that decodes, or the new
  -- text.
  abbrev pub BacksUp : F.State → F.State → ConfigPaths → String → Type 0
  BacksUp s next p text =
      (C.content next p.backup_path ≡ some text)
      ⊎ ((old : String) × (C.content s p.path ≡ some old)
          × (is_ok (decode_and_migrate T old) ≡ true)
          × (C.content next p.backup_path ≡ some old))

  -- The bytes that become the backup.
  abbrev kept_bytes : F.State → ConfigPaths → (parent text : String) → String
  kept_bytes s p parent text =
      backup_bytes F T text (F.read_to_string (F.create_dir_all s parent).0 p.path)

  replace_files :
      (s : F.State) (p : ConfigPaths) (parent text : String)
      → p.path ≢ p.backup_path
      → p.backup_path ≢ p.path
      → IsPlain F p.path
      → IsPlain F p.backup_path
      → let after = replace F T s p parent text in
        ((is_ok after.1 ≡ false) × (C.content after.0 p.path ≡ C.content s p.path))
        ⊎ ((C.content after.0 p.path ≡ some text)
            × (C.content after.0 p.backup_path ≡ some (kept_bytes s p parent text)))
  unfolding replace
  replace_files s p parent text d e hp hb =
      let made = F.create_dir_all s parent in
      let bytes = kept_bytes s p parent text in
      let saved = atomic_write F made.0 p.backup_path bytes in
      let done = atomic_write F saved.0 p.path text in
      ground (
        arith,
        C.create_dir_keeps s parent p.path,
        atomic_write-Replaces C made.0 p.backup_path bytes hb,
        atomic_write-keeps C made.0 p.backup_path bytes p.path hp e,
        atomic_write-Replaces C saved.0 p.path text hp,
        atomic_write-keeps C saved.0 p.path text p.backup_path hb d,
        C.sync_directory_keeps done.0 parent p.path,
        C.sync_directory_keeps done.0 parent p.backup_path,
      )

  kept_bytes_lem :
      (s : F.State) (p : ConfigPaths) (parent text : String)
      → (kept_bytes s p parent text ≡ text)
        ⊎ ((old : String) × (C.content s p.path ≡ some old)
            × (is_ok (decode_and_migrate T old) ≡ true)
            × (kept_bytes s p parent text ≡ old))
  kept_bytes_lem s p parent text =
      let made = (F.create_dir_all s parent).0 in
      elim (backup_bytes_lem F T text (F.read_to_string made p.path)) [
        | inl new ↦ inl new
        | inr (old, was, good, same) ↦ inr (
          old,
          sym (C.create_dir_keeps s parent p.path) ∙ C.read_ok made p.path old was,
          good,
          same,
        )
      ]

  -- A failure that left the primary, or the new text with a backup.
  abbrev pub Saved :
      F.State → ConfigPaths → String → F.State × Result ConfigError (Unit {0}) → Type 0
  Saved s p text (next, result) =
      ((is_ok result ≡ false) × (C.content next p.path ≡ C.content s p.path))
      ⊎ ((C.content next p.path ≡ some text) × BacksUp s next p text)

  module _ (s : F.State) (p : ConfigPaths) (d : p.path ≢ p.backup_path) (hp : IsPlain F p.path)
      (hb : IsPlain F p.backup_path) where
    replace-Saved : (parent text : String) → Saved s p text (replace F T s p parent text)
    replace-Saved parent text = elim (replace_files s p parent text d (λ e. d (sym e)) hp hb) [
      | inl failed ↦ inl failed
      | inr (new, kept) ↦ inr (
        new,
        elim (kept_bytes_lem s p parent text) [
          | inl same ↦ inl (kept ∙ ap some same)
          | inr (old, was, good, same) ↦ inr (old, was, good, kept ∙ ap some same)
        ],
      )
    ]

    save_below-Saved :
        (parent : Option String) (text : String) → Saved s p text (save_below F T parent s p text)
    unfolding save_below
    save_below-Saved none text = inl (refl, refl)
    save_below-Saved (some parent) text = replace-Saved parent text

    save_unless-Saved :
        (newer : Option ConfigError) (text : String)
        → Saved s p text (save_unless F T newer s p text)
    unfolding save_unless
    save_unless-Saved (some e) text = inl (refl, refl)
    save_unless-Saved none text = save_below-Saved (F.parent p.path) text

    save_canonical-Saved :
        (r : Result ConfigError String)
        → let after = save_canonical F T s p r in
          ((is_ok after.1 ≡ false) × (C.content after.0 p.path ≡ C.content s p.path))
          ⊎ ((text : String) × (r ≡ ok text)
              × (C.content after.0 p.path ≡ some text)
              × BacksUp s after.0 p text)
    unfolding save_canonical
    save_canonical-Saved (err e) = inl (refl, refl)
    save_canonical-Saved (ok text) =
        elim (save_unless-Saved (newer_primary F T (F.read_to_string s p.path)) text) [
          | inl failed ↦ inl failed
          | inr (new, kept) ↦ inr (text, refl, new, kept)
        ]

  -- A save, whatever its outcome and at whichever operation it stops, leaves in the primary what
  -- was there, and then it is an error; or the whole canonical text of the candidate, and then the
  -- backup holds that text, or the text of the previous primary, which decodes.
  pub save_replaces :
      (s : F.State) (p : ConfigPaths) (candidate : Config)
      → p.path ≢ p.backup_path
      → IsPlain F p.path
      → IsPlain F p.backup_path
      → let after = save F T s p candidate in
        ((is_ok after.1 ≡ false) × (C.content after.0 p.path ≡ C.content s p.path))
        ⊎ ((text : String) × (to_canonical_toml T candidate ≡ ok text)
            × (C.content after.0 p.path ≡ some text)
            × BacksUp s after.0 p text)
  unfolding save
  save_replaces s p candidate d hp hb =
      save_canonical-Saved s p d hp hb (to_canonical_toml T candidate)

module _ (F : Files) (T : Toml) where
  save_newer_from :
      (r : Result ConfigError String) (s : F.State) (p : ConfigPaths) (old : String)
      (found supported : ℕ)
      → F.read_to_string s p.path ≡ ok old
      → decode_and_migrate T old ≡ err (newer_schema found supported)
      → (save_canonical F T s p r).0 ≡ s
  unfolding save_canonical
  save_newer_from (err e) s p old found supported h n = refl
  save_newer_from (ok text) s p old found supported h n = rw (h, n, save_canonical) refl

  -- A primary that a newer daemon wrote is loaded as the defaults, read-only, and no save touches
  -- the file system at all.
  pub newer_read_only_lem :
      (s : F.State) (p : ConfigPaths) (candidate : Config) (old : String) (found supported : ℕ)
      → F.read_to_string s p.path ≡ ok old
      → decode_and_migrate T old ≡ err (newer_schema found supported)
      → ((save F T s p candidate).0 ≡ s)
        × ((out : LoadOutcome) × (load F T s p ≡ ok out)
            × (out.config ≡ default)
            × (out.writable ≡ false))
  unfolding save load
  newer_read_only_lem s p candidate old found supported h n = (
    save_newer_from (to_canonical_toml T candidate) s p old found supported h n,
    rw (h, n, load) (_, refl, refl, refl),
  )
