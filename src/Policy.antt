-- ===== src/Policy.antt =====
-- crates/baffle-client/src/policy.rs: the validation of session policies.
pub mod Types
pub mod Ip
pub mod Dns
pub mod Names
pub mod Path
pub mod Pattern
pub mod Rules
pub mod Document
pub mod Builders
