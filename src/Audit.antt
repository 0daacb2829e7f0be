-- ===== src/Audit.antt =====
-- src/yunohost_mcp/audit: the audit log, a chain of hashed entries.
pub mod Lines
pub mod Log
pub mod Chain
pub mod Tampering
pub mod Newest
pub mod Records
pub mod Recorded
pub mod Decorator
