-- ===== src/Telegram/Authz.antt =====
-- internal/channel/telegram/authz: who may send plaintext commands. A text is the list of its code
-- points.
pub mod Ids
pub mod IdLaws
pub mod Store
pub mod StoreLaws
pub mod Decide
pub mod DecideLaws
pub mod Json
mod Tests
