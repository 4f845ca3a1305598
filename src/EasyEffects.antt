-- ===== src/EasyEffects.antt =====
-- src/easyeffects-status: the protocol of the Easy Effects helper.
pub mod Protocol
mod Tests
