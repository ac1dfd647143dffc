-- ===== src/Tests/ConfigTests.antt =====
-- crates/noire-config/src/lib.rs at concrete inputs.
use noire.Base.{◌≡◌, refl, err}
use noire.Config.Types.{default, selected}
use noire.Config.Check.{validate, validation}

-- A selected input needs an identity that is not blank.
blank_input :
    validate
      (record default { input = record (default.input) { mode = selected; stable_id = " \t" } })
    ≡ err (
        validation "input-id-required" "input.stable_id"
          "must be non-empty when input.mode is selected")
unfolding validate
blank_input = refl
