-- ===== src/Audit.antt =====
-- The audit log: crates/mutsuki-distributed-runtime/src/trust_audit.rs, with the types of
-- crates/mutsuki-distributed-contracts/src/trust.rs.
pub mod Merkle
pub mod Inclusion
pub mod Binding
pub mod Log
pub mod Chain
pub mod Reopen
pub mod Tamper
pub mod Segment
pub mod Torn
