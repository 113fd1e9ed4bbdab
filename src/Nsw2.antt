-- ===== src/Nsw2.antt =====
-- packages/nsw2-service: bridges a game controller from its HID reports to a virtual gamepad.
pub mod Report
pub mod Effects
pub mod Gamepad
mod Tests
