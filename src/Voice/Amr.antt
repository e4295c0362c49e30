-- ===== src/Voice/Amr.antt =====
-- pro/voicecodec/amr.go: AMR and AMR-WB frames in RTP payloads and in storage files.
pub mod Codec
pub mod Octet
pub mod Storage
