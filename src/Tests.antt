-- ===== src/Tests.antt =====
-- The theorems at concrete inputs, and runs of the definitions that can be followed in the source.
mod RecoveryTests
mod ControlTests
mod DspTests
mod ConfigTests
mod Disk
mod StoreTests
mod RegistryTests
mod TransportTests
mod CaptureTests
mod SourceTests
mod LiveTests
mod ModelTests
mod UiTests
