-- ===== src/Settings.antt =====
-- src/settings: the helper that writes the settings files.
pub mod Disk
pub mod Files
pub mod Operations
pub mod Input
pub mod Main
mod Tests
