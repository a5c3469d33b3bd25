-- ===== src/Class.antt =====
-- services/class: who is in a class.
pub mod Model
pub mod Members
mod Examples
