-- ===== src/Audio.antt =====
-- audio: the examples of audio transport.
pub mod JitterBuffer
