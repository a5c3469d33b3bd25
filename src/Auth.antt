-- ===== src/Auth.antt =====
-- services/auth: who is behind a token, and who may change that.
pub mod Model
pub mod Sessions
pub mod Accounts
pub mod Iam
pub mod Escalation
pub mod Runs
pub mod Calm
pub mod Closed
pub mod Verified
pub mod Revoked
pub mod Ended
pub mod Out
pub mod Audited
pub mod LoginGuard
mod Examples
pub mod Organizations
