-- ===== src/Tests.antt =====
-- Concrete runs: the theorems at inputs that exercise the code.
pub mod Demo
pub mod ConfirmationRuns
pub mod RequestRuns
pub mod IdentityRuns
pub mod PolicyRuns
pub mod BrokerRuns
mod CallRuns
mod AuditRuns
mod EnforcementRuns
mod DraftRuns
mod GuestbookRuns
