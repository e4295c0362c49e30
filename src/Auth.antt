-- ===== src/Auth.antt =====
-- internal/app/auth and internal/app/handler/auth: one-time passwords and access tokens.
pub mod Codes
pub mod Store
pub mod Otp
