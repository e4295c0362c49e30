-- ===== src/Voice.antt =====
-- pro/voicecodec and pro/call: the audio codecs of Wi-Fi calling, and the numbers that are dialled.
pub mod Dialing
pub mod Amr
pub mod Pcmu
pub mod Resample
