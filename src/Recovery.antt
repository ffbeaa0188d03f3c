-- ===== src/Recovery.antt =====
-- Recovery: crates/mutsuki-distributed-runtime/src/recovery.rs, with the types of
-- crates/mutsuki-distributed-contracts/src/recovery.rs.
pub mod Mirror
