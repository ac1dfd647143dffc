-- ===== src/Dsp/Canonical.antt =====
-- crates/noire-dsp/src/canonical.rs: the constants of the canonical audio domain.
use noire.Base.{ℕ, ◌+◌, ◌*◌}

abbrev pub model_frame_samples : ℕ
model_frame_samples = 512

abbrev pub max_callback_frames : ℕ
max_callback_frames = 4096

abbrev pub frame_assembler_capacity : ℕ
frame_assembler_capacity = model_frame_samples * 2

abbrev pub fault_ramp_samples : ℕ
fault_ramp_samples = 240

abbrev pub max_dry_delay_samples : ℕ
max_dry_delay_samples = model_frame_samples + max_callback_frames

-- A sample is the bit pattern of its f32: a number below 2 ^ 32.
abbrev pub Sample : Type 0
Sample = ℕ
