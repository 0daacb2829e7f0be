-- ===== src/Broker/Calls.antt =====
-- src/yunohost_mcp/broker/operations.py: what each operation checks and calls.
pub mod Arguments
pub mod Reads
pub mod Logs
pub mod Packages
pub mod Apps
pub mod System
pub mod Users
pub mod Domains
pub mod Registry
pub mod Bound
pub mod Publish
pub mod Bounds
