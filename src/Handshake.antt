-- ===== src/Handshake.antt =====
-- The handshake layer, src/handshake: the framing of handshake messages.
pub mod Header
