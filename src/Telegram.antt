-- ===== src/Telegram.antt =====
-- internal/channel/telegram: the inbound chat channel.
pub mod Authz
pub mod Message
pub mod Derive
pub mod Pairing
pub mod Batch
