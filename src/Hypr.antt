-- ===== src/Hypr.antt =====
-- packages/hypr-workspaced: virtual workspaces across the monitors of Hyprland.
pub mod Ids
pub mod Data
pub mod Registry
pub mod Layout
pub mod Window
pub mod Request
pub mod Ipc
pub mod Session
pub mod Manager
pub mod Daemon
pub mod Listener
pub mod Client
mod Tests
