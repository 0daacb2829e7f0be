-- ===== src/Concord.antt =====
-- The Concord messages (src/yunohost_mcp/concord_*.py).
pub mod PendingSignature
pub mod Guestbook
