-- ===== src/Control.antt =====
-- High-availability control: crates/mutsuki-distributed-runtime/src/ha_control.rs, with the types
-- of crates/mutsuki-distributed-contracts/src/ha.rs.
pub mod Types
pub mod Detector
pub mod DetectorLaws
pub mod Cluster
pub mod Authority
pub mod Propose
pub mod Grants
pub mod ProposeLaws
pub mod Calls
pub mod Epochs
pub mod Unchanged
pub mod Unleased
pub mod Steps
pub mod Fencing
pub mod Terms
pub mod Election
pub mod Repairs
pub mod Reigns
pub mod Leases
