-- ===== src/Envelope.antt =====
-- internal/envelope: signed, encrypted and replay-protected messages.
pub mod Replay
pub mod Open
