-- ===== src/Dsp.antt =====
-- crates/noire-dsp: allocation-free framing, delay and fault handling of canonical audio.
pub mod Canonical
pub mod Sanitize
pub mod Floats
pub mod Meter
pub mod Frame
pub mod Delay
pub mod Fault
pub mod Ramp
pub mod Channels
