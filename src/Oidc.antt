-- ===== src/Oidc.antt =====
-- packages/oidc-credential-validator: proves OIDC client credentials good, bad or undecidable.
pub mod Args
pub mod Encode
pub mod Verdict
pub mod Requests
pub mod Check
pub mod Run
mod Tests
