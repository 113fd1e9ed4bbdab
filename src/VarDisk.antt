-- ===== src/VarDisk.antt =====
-- packages/var-disk-manager: the initrd daemon that unlocks, migrates or provisions the disk of /var.
pub mod Classify
pub mod Commands
pub mod World
pub mod Host
pub mod Format
pub mod Unlock
pub mod Migrate
pub mod Run
pub mod Safety
mod Tests
