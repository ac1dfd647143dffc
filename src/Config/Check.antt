-- ===== src/Config/Check.antt =====
-- crates/noire-config/src/lib.rs: `Config::validate`.
use noire.Base.{
  ◌≤◌, ◌≡◌, ◌⊎◌, refl, ◌↔◌, Bool, true, false, not, ◌&&◌, ◌||◌, ◌==◌, arith, if◌then◌else◌, Result,
  ok, err,
}
use noire.Base.Text.{String, append, is_blank, is_empty}
use noire.Config.Types.{
  Config, InputMode, selected, follow_default, config_schema_version, is_finite64, in_unit_interval,
}

pub record ValidationError : Type 0 where
  pub code : String
  pub path : String
  pub message : String

-- `Display` of the error.
abbrev pub validation_text : ValidationError → String
validation_text e = append e.path (append ": " e.message)

abbrev pub validation : String → String → String → ValidationError
validation code path message = record { code = code; path = path; message = message }

abbrev pub is_selected : InputMode → Bool
is_selected selected = true
is_selected follow_default = false

abbrev pub is_follow_default : InputMode → Bool
is_follow_default selected = false
is_follow_default follow_default = true

unfoldable pub validate : Config → Result ValidationError (Unit {0})
validate c =
    if not (c.schema_version == config_schema_version)
    then err (validation "unsupported-schema" "schema_version" "must equal 1")
    else if is_selected c.input.mode && is_blank c.input.stable_id
    then err (
        validation "input-id-required" "input.stable_id"
          "must be non-empty when input.mode is selected")
    else if is_follow_default c.input.mode && not (is_empty c.input.stable_id)
    then err (
        validation "input-id-unexpected" "input.stable_id"
          "must be empty when input.mode is follow-default")
    else if not (is_finite64 c.suppression.strength)
        || not (in_unit_interval c.suppression.strength)
    then err (
        validation "strength-out-of-range" "suppression.strength"
          "must be finite and in the inclusive range 0.0 through 1.0")
    else ok tt

-- What a valid configuration is, independently of the order of the tests.
pub record IsValid (c : Config) : Type 0 where
  pub schema : c.schema_version ≡ config_schema_version
  pub identified :
      ((c.input.mode ≡ selected) × (is_blank c.input.stable_id ≡ false))
      ⊎ ((c.input.mode ≡ follow_default) × (c.input.stable_id ≡ ""))
  pub strength :
      (c.suppression.strength ≤ 0x3ff0_0000_0000_0000)
      ⊎ (c.suppression.strength ≡ 0x8000_0000_0000_0000)

pub is_empty-nil : (s : String) → is_empty s ≡ true → s ≡ ""
is_empty-nil String.[] h = refl
is_empty-nil (String.◌∷◌ c s) h = cc

pub nil-is_empty : (s : String) → s ≡ "" → is_empty s ≡ true
nil-is_empty s h = rw h

-- Validation accepts exactly the configurations of this schema whose input names a stable node
-- when one is selected and none when the default is followed, and whose strength is a zero or
-- lies between 0 and 1.
pub validate_iff : (c : Config) → (validate c ≡ ok tt) ↔ IsValid c
unfolding validate
validate_iff c = (
  λ h. ground (arith, is_empty-nil c.input.stable_id),
  λ v. ground (arith, nil-is_empty c.input.stable_id),
)
