-- ===== src/Auth.antt =====
-- The auth package (src/yunohost_mcp/auth).
pub mod Nostr
pub mod Replay
pub mod Nip98
pub mod Identity
pub mod Revocation
pub mod Delegation
pub mod Owner
pub mod Middleware
pub mod Groups
