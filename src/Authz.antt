-- ===== src/Authz.antt =====
-- packages/authz: IAM-style authorization. The proofs stand below Evaluator and Policies.
pub mod Actions
pub mod Roles
pub mod Resource
pub mod Principal
pub mod Headers
pub mod Policies
pub mod Evaluator
mod Examples
