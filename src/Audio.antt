-- ===== src/Audio.antt =====
-- src/pipewire-audio: the commands of the audio helper.
pub mod Protocol
pub mod Volume
pub mod Bridge
mod Tests
