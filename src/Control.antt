-- ===== src/Control.antt =====
-- crates/noired/src/control.rs: the authoritative daemon state and its transactions. A method that
-- takes `&mut self` returns the new daemon. `now` is the wall clock in milliseconds, and `uptime`
-- the time since the start, as the call reads them.
pub mod Ports
pub mod Daemon
pub mod Methods
pub mod Upkeep
pub mod Launch
pub mod Commands
pub mod Transaction
pub mod Atomic
pub mod Validity
pub mod Convergence
pub mod Refresh
pub mod FileStore
pub mod Startup
pub mod Systemd
