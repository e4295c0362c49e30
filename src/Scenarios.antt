-- ===== src/Scenarios.antt =====
-- Concrete runs of the modelled code, which show that the hypotheses of the theorems can hold.
mod Tables
mod Formats
pub mod Speech
pub mod Logins
pub mod Routes
pub mod Numbers
pub mod Sessions
pub mod Relays
pub mod Preferences
pub mod Apns
pub mod States
pub mod Requests
pub mod Kernel
pub mod Bearers
