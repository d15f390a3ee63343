-- ===== src/Daemon.antt =====
-- internal/daemon/server.go: the parts of the daemon that owns the detached VMs.
pub mod Events
pub mod Idle
pub mod Start
pub mod Stop
pub mod Supervised
mod Tests
