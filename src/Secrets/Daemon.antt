-- ===== src/Secrets/Daemon.antt =====
-- packages/operator-secrets/src/bin/daemon.rs: the daemon that collects the secrets of a host and
-- lets the boot proceed once each of them is stored and proven valid.
pub mod Ui
pub mod Validator
pub mod Disk
pub mod Ask
pub mod Satisfy
mod Tests
