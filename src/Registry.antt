-- ===== src/Registry.antt =====
-- The persistent registry: crates/mutsuki-distributed-runtime/src/persistent_registry.rs.
pub mod Mutation
pub mod WellFormed
pub mod Lifecycle
pub mod Transitions
pub mod Frame
pub mod FrameLaws
pub mod FrameFault
pub mod Store
pub mod Replicate
pub mod Log
pub mod Replay
pub mod ReplayLaws
pub mod Rounds
pub mod Gathered
pub mod Vouched
pub mod Logged
pub mod LoggedCommit
pub mod LoggedSnapshot
pub mod LoggedNew
pub mod LoggedCompact
pub mod LoggedReplicate
pub mod LoggedTransact
pub mod LoggedReplay
pub mod Open
pub mod Reached
pub mod Service
pub mod ServiceLaws
pub mod LoggedService
pub mod FileReplica
pub mod FileReplicaLaws
pub mod LegacyFault
