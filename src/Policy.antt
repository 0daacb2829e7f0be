-- ===== src/Policy.antt =====
-- The policy package (src/yunohost_mcp/policy).
pub mod Scopes
pub mod Roles
pub mod Rules
pub mod Confirmation
pub mod Locks
pub mod Enforcement
pub mod PackageSessions
