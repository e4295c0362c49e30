-- ===== src/Modem.antt =====
-- internal/pkg/modem: the parts of the modem layer that decode and encode card data.
pub mod Msisdn
pub mod Ussd
pub mod Constants
pub mod NetworkPreferences
pub mod Atr
