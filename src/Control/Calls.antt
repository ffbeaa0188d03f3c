-- ===== src/Control/Calls.antt =====
-- The calls of `ReferenceCftModel` of ha_control.rs, as a caller may interleave them.
use mutsuki_distributed_host.Base.{ℕ, Bool, List, [], ◌∷◌, Option, Bytes}
use mutsuki_distributed_host.Contracts.{GlobalTaskId, NodeId}
use mutsuki_distributed_host.Control.Types.{
  ControlRecord, ExecutedUncommittedResult, ReconciliationDecision,
}
use mutsuki_distributed_host.Control.Cluster.{ReferenceCftModel, elect, set_alive, isolate, recover}
use mutsuki_distributed_host.Control.Authority.{renew_control_lease}
use mutsuki_distributed_host.Control.Propose.{propose, propose_from}
use mutsuki_distributed_host.Control.Grants.{issue_grant, record_uncommitted_result, reconcile}

pub data ControlCall : Type 0 where
  elect_call recover_call : NodeId → ControlCall
  alive_call isolate_call : NodeId → Bool → ControlCall
  renew_call : NodeId → ℕ → ℕ → ControlCall
  propose_call : NodeId → ControlRecord → ControlCall
  propose_from_call : NodeId → ControlRecord → ℕ → ControlCall
  grant_call : NodeId → GlobalTaskId → ℕ → NodeId → ℕ → ℕ → Bool → ControlCall
  record_call : NodeId → ExecutedUncommittedResult → ℕ → ControlCall
  reconcile_call : NodeId → GlobalTaskId → ReconciliationDecision → ℕ → ControlCall

-- The JSON of a control record by serde_json.
module _ (record_json : ControlRecord → Option Bytes) where
  unfoldable pub serve : ControlCall → ReferenceCftModel → ReferenceCftModel
  unfolding elect recover set_alive isolate renew_control_lease propose propose_from issue_grant
      record_uncommitted_result reconcile
  serve (elect_call candidate) m = (elect candidate m).0
  serve (recover_call node) m = (recover node m).0
  serve (alive_call node alive) m = (set_alive node alive m).0
  serve (isolate_call node isolated) m = (isolate node isolated m).0
  serve (renew_call leader issued_tick ticks) m = (renew_control_lease leader issued_tick ticks m).0
  serve (propose_call leader control_record) m = (propose record_json leader control_record m).0
  serve (propose_from_call ingress control_record tick) m =
      (propose_from record_json ingress control_record tick m).0
  serve (grant_call leader task attempt worker issued_tick ticks irreversible) m =
      (issue_grant record_json leader task attempt worker issued_tick ticks irreversible m).0
  serve (record_call observer result tick) m = (record_uncommitted_result observer result tick m).0
  serve (reconcile_call leader task decision tick) m =
      (reconcile record_json leader task decision tick m).0

  unfoldable pub serve_all : List ControlCall → ReferenceCftModel → ReferenceCftModel
  serve_all [] m = m
  serve_all (call ∷ calls) m = serve_all calls (serve call m)
