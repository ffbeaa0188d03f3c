-- ===== src/Control/Types.antt =====
-- The types of contracts/src/ha.rs.
use mutsuki_distributed_host.Base.{ℕ, Bool, ◌&&◌, Text, leb}
use mutsuki_distributed_host.Base.Map.{Map}
use mutsuki_distributed_host.Contracts.{GlobalTaskId, NodeId}

pub data ControlNodeKind : Type 0 where
  full witness_node : ControlNodeKind

pub data ControlRole : Type 0 where
  leader_role follower_role witness_role : ControlRole

pub data MemberHealth : Type 0 where
  healthy overloaded draining suspect isolated_member dead incompatible_member : MemberHealth

pub data ClusterAvailability : Type 0 where
  healthy_cluster impaired degraded no_quorum isolated_cluster safe_stop : ClusterAvailability

pub data ControlOperation : Type 0 where
  query_only local_work continue_granted : ControlOperation
  durable_write membership_change generation_switch irreversible_effect : ControlOperation

pub data ControlRecordKind : Type 0 where
  membership global_task assignment plugin_generation resource_metadata : ControlRecordKind
  management_config execution_grant result_commit reconciliation : ControlRecordKind

pub record ControlRecord : Type 0 where
  pub record_id : Text
  pub kind : ControlRecordKind
  pub metadata : Map Text Text

pub record CommittedControlRecord : Type 0 where
  pub index : ℕ
  pub term : ℕ
  pub epoch : ℕ
  pub entry : ControlRecord

pub record ExecutionGrant : Type 0 where
  pub global_task_id : GlobalTaskId
  pub attempt : ℕ
  pub worker_node : NodeId
  pub term : ℕ
  pub epoch : ℕ
  pub issued_tick : ℕ
  pub valid_until_tick : ℕ
  pub irreversible_effects : Bool

pub record ControlLease : Type 0 where
  pub leader_node : NodeId
  pub term : ℕ
  pub issued_tick : ℕ
  pub valid_until_tick : ℕ

unfoldable pub lease_is_valid_at : ControlLease → ℕ → Bool
lease_is_valid_at lease tick = leb lease.issued_tick tick && leb tick lease.valid_until_tick

unfoldable pub grant_is_valid_at : ExecutionGrant → ℕ → Bool
grant_is_valid_at grant tick = leb grant.issued_tick tick && leb tick grant.valid_until_tick

pub record ExecutedUncommittedResult : Type 0 where
  pub global_task_id : GlobalTaskId
  pub attempt : ℕ
  pub worker_node : NodeId
  pub grant_term : ℕ
  pub grant_epoch : ℕ
  pub output_digest : Text

pub data ReconciliationDecision : Type 0 where
  accept reexecute compensate reject manual_review : ReconciliationDecision

pub record MemberPulseSummary : Type 0 where
  pub node_id : NodeId
  pub capability_version : ℕ
  pub resource_version : ℕ
  pub pressure_bucket : ℕ
  pub health : MemberHealth
