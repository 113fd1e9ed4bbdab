-- ===== src/Secrets.antt =====
-- packages/operator-secrets: the library, and the state machine of its daemon.
pub mod Spec
pub mod Env
pub mod Stored
pub mod Verdict
pub mod Passwd
pub mod Daemon
mod Tests
