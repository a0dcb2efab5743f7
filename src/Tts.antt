-- ===== src/Tts.antt =====
-- The read-aloud part (frontend/src/lib/tts*.ts).
pub mod Lru
pub mod Preload
pub mod Player
pub mod Request
pub mod Diagnostics
pub mod SpeechQueue
pub mod AudioFocus
pub mod Batch
pub mod Buffer
pub mod SleepTimer
pub mod Session
mod Tests
