-- ===== src/Broker.antt =====
-- src/yunohost_mcp/broker: the root-side helper that repeats every check before it calls the adapter.
pub mod Protocol
pub mod Operations
pub mod Helper
pub mod Handle
pub mod Calls
