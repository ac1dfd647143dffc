-- ===== src/Config/Types.antt =====
-- crates/noire-config/src/lib.rs: the schema-v1 configuration and its defaults. An f64 is its bit
-- pattern, a number below 2 ^ 64.
use noire.Base.{Option, ℕ, ◌/◌, ◌%◌, ◌^◌, Bool, true, false, not, ◌||◌, leb, ◌==◌}
use noire.Base.Text.{String, append, decimal}

abbrev pub config_schema_version : ℕ
config_schema_version = 1

pub data InputMode : Type 0 where
  selected follow_default : InputMode

pub data ChannelSelection : Type 0 where
  auto mono left right : ChannelSelection
  index : ℕ → ChannelSelection  -- u16

pub data LatencyProfile : Type 0 where
  low balanced : LatencyProfile

pub data FailMode : Type 0 where
  closed opened : FailMode

pub data LogLevel : Type 0 where
  error warn info debug : LogLevel

pub record InputConfig : Type 0 where
  pub mode : InputMode
  pub stable_id : String
  pub channel : ChannelSelection
  pub fallback_to_default : Bool

pub record OutputConfig : Type 0 where
  pub latency_profile : LatencyProfile

pub record SuppressionConfig : Type 0 where
  pub enabled : Bool
  pub strength : ℕ  -- f64
  pub fail_mode : FailMode

pub record DiagnosticsConfig : Type 0 where
  pub log_level : LogLevel
  pub metering : Bool

pub record Config : Type 0 where
  pub schema_version : ℕ  -- u32
  pub active : Bool
  pub start_with_noise_reduction : Bool
  pub launch_at_login : Bool
  pub input : InputConfig
  pub output : OutputConfig
  pub suppression : SuppressionConfig
  pub diagnostics : DiagnosticsConfig

abbrev pub default_input : InputConfig
default_input = record {
  mode = follow_default;
  stable_id = "";
  channel = auto;
  fallback_to_default = false;
}

-- The strength is the bit pattern of 0.55.
abbrev pub default_suppression : SuppressionConfig
default_suppression = record {
  enabled = true;
  strength = 0x3fe1_9999_9999_999a;
  fail_mode = closed;
}

abbrev pub default_diagnostics : DiagnosticsConfig
default_diagnostics = record { log_level = info; metering = true }

abbrev pub default : Config
default = record {
  schema_version = config_schema_version;
  active = false;
  start_with_noise_reduction = false;
  launch_at_login = false;
  input = default_input;
  output = record { latency_profile = low };
  suppression = default_suppression;
  diagnostics = default_diagnostics;
}

-- `Display` for the channel; a u16 has at most five digits.
unfoldable pub channel_text : ChannelSelection → String
unfolding decimal
channel_text auto = "auto"
channel_text mono = "mono"
channel_text left = "left"
channel_text right = "right"
channel_text (index n) = append "index:" (decimal 5 n)

-- `f64::is_finite`.
abbrev pub is_finite64 : ℕ → Bool
is_finite64 bits = not (bits / 2 ^ 52 % 2 ^ 11 == 2047)

-- `(0.0..=1.0).contains(&value)`: both zeros, and the positive patterns up to that of 1.0.
abbrev pub in_unit_interval : ℕ → Bool
in_unit_interval bits = leb bits 0x3ff0_0000_0000_0000 || bits == 0x8000_0000_0000_0000

pub data LoadSource : Type 0 where
  defaults primary backup safe_defaults newer_read_only : LoadSource

pub record LoadOutcome : Type 0 where
  pub config : Config
  pub source : LoadSource
  pub warning : Option String
  pub writable : Bool
