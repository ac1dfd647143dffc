-- ===== src/Config/Migration.antt =====
-- crates/noire-config/src/lib.rs: what decoding accepts.
use noire.Base.{◌≤◌, ◌≡◌, ◌⊎◌, ◌↔◌, false, ok, is_ok, arith}
use noire.Base.Text.{String, is_blank}
use noire.Config.Types.{Config}
use noire.Config.Check.{validate, is_empty-nil, nil-is_empty}
use noire.Config.Decode.{LegacyConfigV0, Toml, migrate, decode_and_migrate}

-- A migrated file of schema 0 is valid exactly when its input is empty or not blank, and its
-- strength is a zero or lies between 0 and 1.
pub migrate_valid_iff :
    (l : LegacyConfigV0)
    → (validate (migrate l) ≡ ok tt) ↔ (
        ((l.input_node ≡ "") ⊎ (is_blank l.input_node ≡ false))
        × ((l.strength ≤ 0x3ff0_0000_0000_0000) ⊎ (l.strength ≡ 0x8000_0000_0000_0000)))
unfolding validate migrate
migrate_valid_iff l =
    (λ h. ground (arith, is_empty-nil l.input_node), λ v. ground (arith, nil-is_empty l.input_node))

module _ (T : Toml) where
  pub decode_valid :
      (input : String)
      → (is_ok (decode_and_migrate T input) ≡ false)
        ⊎ ((c : Config) × (decode_and_migrate T input ≡ ok c) × (validate c ≡ ok tt))
  unfolding decode_and_migrate
  decode_valid input = ground arith
