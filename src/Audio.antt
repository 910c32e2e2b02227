-- ===== src/Audio.antt =====
-- packages/go/audio: WAV files.
pub mod Wav
pub mod Written
pub mod Fuel
