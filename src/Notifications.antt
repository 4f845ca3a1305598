-- ===== src/Notifications.antt =====
-- src/notifications: the notification server's runtime and its text normalisation.
pub mod Text
pub mod Types
pub mod History
pub mod Live
pub mod Normalize
pub mod Scheduler
pub mod Operations
pub mod Admission
pub mod Replacement
pub mod Runtime
mod Tests
