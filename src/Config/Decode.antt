-- ===== src/Config/Decode.antt =====
-- crates/noire-config/src/lib.rs: `decode_and_migrate`. The `toml` crate, with the readers and the
-- writer that serde derives, is a parameter.
use noire.Base.{ℕ, Bool, not, Option, none, some, if◌then◌else◌, ltb, ◌==◌, Result, ok, err}
use noire.Base.Text.{String, append, decimal, is_blank}
use noire.Config.Types.{
  Config, selected, follow_default, config_schema_version, default, default_input,
  default_suppression,
}
use noire.Config.Check.{validate, ValidationError, validation_text}

-- An i64.
pub data ℤ : Type 0 where
  pos negsuc : ℕ → ℤ

pub record LegacyConfigV0 : Type 0 where
  pub schema_version : ℕ  -- u32
  pub active : Bool
  pub input_node : String
  pub suppression_enabled : Bool
  pub strength : ℕ  -- f64

pub record Toml : Type 1 where
  pub Value : Type 0
  pub document : String → Result String Value
  pub get : Value → String → Option Value
  pub as_integer : Value → Option ℤ
  pub read_legacy : String → Result String LegacyConfigV0
  pub read_config : String → Result String Config
  pub print : Config → Result String String

-- What reaches the outside of a failed file operation: whether nothing was there, whether
-- something already was, or another cause.
pub data ErrorKind : Type 0 where
  not_found already_exists invalid_input other : ErrorKind

pub record IoError : Type 0 where
  pub kind : ErrorKind
  pub text : String

pub data ConfigError : Type 0 where
  validation_failed : ValidationError → ConfigError
  parse_failed serialize_failed : String → ConfigError
  io : String → IoError → ConfigError
  newer_schema : (found supported : ℕ) → ConfigError
  invalid_schema_version : ConfigError

-- `Display` of the error; a u64 has at most 20 digits.
unfoldable pub config_error_text : ConfigError → String
config_error_text (validation_failed e) = validation_text e
config_error_text (parse_failed t) = append "configuration parse failed: " t
config_error_text (serialize_failed t) = append "configuration serialization failed: " t
config_error_text (io path source) =
    append "configuration I/O failed at " (append path (append ": " source.text))
config_error_text (newer_schema found supported) =
    append "configuration schema "
      (append (decimal 20 found) (append " is newer than supported schema " (decimal 20 supported)))
config_error_text invalid_schema_version = "configuration schema_version is missing or invalid"

unfoldable pub migrate : LegacyConfigV0 → Config
migrate l =
    let named = not (is_blank l.input_node) in
    record default {
      schema_version = config_schema_version;
      active = l.active;
      input = record default_input {
        mode = if named then selected else follow_default;
        stable_id = l.input_node;
      };
      suppression = record default_suppression {
        enabled = l.suppression_enabled;
        strength = l.strength;
      };
    }

-- `u64::try_from`.
abbrev pub to_u64 : ℤ → Option ℕ
to_u64 (pos n) = some n
to_u64 (negsuc n) = none

-- `and_then`.
abbrev pub and_then {ℓ κ} : {A : Type ℓ} {B : Type κ} → Option A → (A → Option B) → Option B
and_then none f = none
and_then (some a) f = f a

-- `config.validate()?; Ok(config)`, after a reader's own error.
check_config : Result String Config → Result ConfigError Config
check_config (err t) = err (parse_failed t)
check_config (ok c) = elim (validate c) [ ok u ↦ ok c | err e ↦ err (validation_failed e) ]

migrated : Result String LegacyConfigV0 → Result String Config
migrated (err t) = err t
migrated (ok l) = ok (migrate l)

module _ (T : Toml) where
  -- The part below `let version = ...`.
  decode_version : String → Option ℕ → Result ConfigError Config
  unfolding check_config migrated
  decode_version input none = err invalid_schema_version
  decode_version input (some version) =
      if ltb config_schema_version version
      then err (newer_schema version config_schema_version)
      else check_config
          (if version == 0 then migrated (T.read_legacy input) else T.read_config input)

  abbrev pub version_of : T.Value → Option ℕ
  version_of document = and_then (and_then (T.get document "schema_version") T.as_integer) to_u64

  decode_document : String → Result String T.Value → Result ConfigError Config
  unfolding decode_version
  decode_document input (err t) = err (parse_failed t)
  decode_document input (ok document) = decode_version input (version_of document)

  unfoldable pub decode_and_migrate : String → Result ConfigError Config
  unfolding decode_document
  decode_and_migrate input = decode_document input (T.document input)

  unfoldable pub to_canonical_toml : Config → Result ConfigError String
  to_canonical_toml c = elim (validate c) [
    | err e ↦ err (validation_failed e)
    | ok u ↦ elim (T.print c) [ ok t ↦ ok t | err t ↦ err (serialize_failed t) ]
  ]
