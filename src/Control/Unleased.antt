-- ===== src/Control/Unleased.antt =====
-- The calls of ha_control.rs that grant no control lease.
use mutsuki_distributed_host.Base.{
  ℕ, ◌≡◌, refl, inl, inr, Bool, true, not, ◌||◌, List, [], ◌∷◌, Option, none, Bytes, ltb, ◌==◌,
  filter, if-either, length, Option-cases, All, arith, if◌then◌else◌,
}
use mutsuki_distributed_host.Base.Outcome.{Result, ok, err, Result-cases}
use mutsuki_distributed_host.Base.Map.{Map, get, text_key}
use mutsuki_distributed_host.Contracts.{GlobalTaskId, NodeId}
use mutsuki_distributed_host.Control.Types.{
  ControlRecord, CommittedControlRecord, ExecutionGrant, ExecutedUncommittedResult,
  ReconciliationDecision, durable_write, irreversible_effect,
}
use mutsuki_distributed_host.Control.Cluster.{
  ControlNode, ReferenceCftModel, elect, set_alive, isolate, recover, copy_leader, finish_election,
  connected, quorum_size, is_full, votes_for, last_index, next_term, is_alive,
}
use mutsuki_distributed_host.Control.Authority.{authorize}
use mutsuki_distributed_host.Control.Propose.{
  finish_proposal, write_entries, reached_by, check_proposal, propose, propose_from,
}
use mutsuki_distributed_host.Control.Grants.{
  new_grant, grant_record, note_grant, issue_grant, record_uncommitted_result, note_decision,
  result_of, reconcile_record, reconcile,
}
use mutsuki_distributed_host.Control.Calls.{
  ControlCall, elect_call, recover_call, alive_call, isolate_call, renew_call, propose_call,
  propose_from_call, grant_call, record_call, reconcile_call, serve, serve_all,
}

abbrev pub Unleased {ℓ} : {A : Type ℓ} → ReferenceCftModel × A → Type 0
Unleased x = x.0.control_lease ≡ none

finish_election-Unleased :
    (candidate : NodeId) (term : ℕ) (m : ReferenceCftModel) (nodes : Map NodeId ControlNode)
    (disk : List Bool) (r : Result (Unit {0}))
    → m.control_lease ≡ none
    → Unleased (finish_election candidate term m (nodes, disk, r))
unfolding finish_election
finish_election-Unleased candidate term m nodes disk (ok done) h = refl
finish_election-Unleased candidate term m nodes disk (err e) h = h

elect-Unleased :
    (candidate : NodeId) (m : ReferenceCftModel)
    → m.control_lease ≡ none
    → Unleased (elect candidate m)
unfolding elect
elect-Unleased candidate m h = elim (Option-cases (get candidate m.nodes)) [
  | inl e ↦ rw (e, elect) h
  | inr (node, e) ↦
      rw (e, elect)
        (if-either (λ (x : ReferenceCftModel × Result ℕ). Unleased x)
          (not node.alive || not (is_full node.snapshot.kind)) h
          (if-either (λ (x : ReferenceCftModel × Result ℕ). Unleased x)
            (ltb (length (filter (votes_for m candidate (last_index node)) m.nodes))
              (quorum_size m))
            h (finish_election-Unleased candidate (next_term m) m _ _ _ h)))
]

set_alive-Unleased :
    (node : NodeId) (alive : Bool) (m : ReferenceCftModel)
    → m.control_lease ≡ none
    → Unleased (set_alive node alive m)
unfolding set_alive
set_alive-Unleased node alive m h = ground arith

isolate-Unleased :
    (node : NodeId) (isolated : Bool) (m : ReferenceCftModel)
    → m.control_lease ≡ none
    → Unleased (isolate node isolated m)
unfolding isolate
isolate-Unleased node isolated m h = ground arith

copy_leader-Unleased :
    (node leader : NodeId) (m : ReferenceCftModel)
    → m.control_lease ≡ none
    → Unleased (copy_leader node leader m)
unfolding copy_leader
copy_leader-Unleased node leader m h = ground arith

recover-Unleased :
    (node : NodeId) (m : ReferenceCftModel) → m.control_lease ≡ none → Unleased (recover node m)
unfolding recover
recover-Unleased node m h =
    let up = set_alive node true m in
    let lost = set_alive-Unleased node true m h in
    elim (Result-cases up.1) [
      | inr (bad, e) ↦ rw (recover, e) lost
      | inl (done, e) ↦ elim (Option-cases up.0.leader) [
        | inl l ↦ rw (recover, e, l) lost
        | inr (leader, l) ↦
            rw (recover, e, l)
              (if-either (λ (x : ReferenceCftModel × Result (Unit {0})). Unleased x)
                (connected up.0 node leader) (copy_leader-Unleased node leader up.0 lost) lost)
      ]
    ]

finish_proposal-Unleased :
    (c : CommittedControlRecord) (m : ReferenceCftModel)
    (written : Map NodeId (ControlNode × Bool) × List Bool)
    → m.control_lease ≡ none
    → Unleased (finish_proposal c m written)
unfolding finish_proposal
finish_proposal-Unleased c m written h = ground arith

-- Every call but the renewal of the lease.
abbrev pub IsNoRenewal : ControlCall → Type 0
IsNoRenewal (renew_call leader issued_tick ticks) = ⊥
IsNoRenewal call = Unit

module _ (record_json : ControlRecord → Option Bytes) where
  propose-Unleased :
      (leader : NodeId) (control_record : ControlRecord) (m : ReferenceCftModel)
      → m.control_lease ≡ none
      → Unleased (propose record_json leader control_record m)
  unfolding propose
  propose-Unleased leader control_record m h =
      elim (Result-cases (check_proposal record_json leader control_record m)) [
        | inr (e, k) ↦ rw (k, propose) h
        | inl (c, k) ↦
            rw (k, propose)
              (finish_proposal-Unleased c m (write_entries (reached_by m leader) c m.disk m.nodes)
                h)
      ]

  propose_from-Unleased :
      (ingress : NodeId) (control_record : ControlRecord) (tick : ℕ) (m : ReferenceCftModel)
      → m.control_lease ≡ none
      → Unleased (propose_from record_json ingress control_record tick m)
  unfolding propose_from
  propose_from-Unleased ingress control_record tick m h = elim (Option-cases m.leader) [
    | inl e ↦ rw (e, propose_from) h
    | inr (leader, e) ↦ elim (Result-cases (authorize leader durable_write none tick m)) [
      | inr (bad, k) ↦
          rw (e, propose_from, k)
            (if-either (λ (x : ReferenceCftModel × Result CommittedControlRecord). Unleased x)
              (not (connected m ingress leader) || not (is_alive m ingress)) h h)
      | inl (done, k) ↦
          rw (e, propose_from, k)
            (if-either (λ (x : ReferenceCftModel × Result CommittedControlRecord). Unleased x)
              (not (connected m ingress leader) || not (is_alive m ingress)) h
              (propose-Unleased leader control_record m h))
    ]
  ]

  note_grant-Unleased :
      (grant : ExecutionGrant) (x : ReferenceCftModel × Result CommittedControlRecord)
      → Unleased x
      → Unleased (note_grant grant x)
  unfolding note_grant
  note_grant-Unleased grant (m, err e) h = h
  note_grant-Unleased grant (m, ok c) h = h

  issue_grant-Unleased :
      (leader : NodeId) (task : GlobalTaskId) (attempt : ℕ) (worker : NodeId) (issued ticks : ℕ)
      (irreversible : Bool) (m : ReferenceCftModel)
      → m.control_lease ≡ none
      → Unleased (issue_grant record_json leader task attempt worker issued ticks irreversible m)
  unfolding issue_grant
  issue_grant-Unleased leader task attempt worker issued ticks irreversible m h =
      let grant = new_grant task attempt worker issued ticks irreversible m in
      let operation = if irreversible then irreversible_effect else durable_write in
      elim (Result-cases (authorize leader operation none issued m)) [
        | inr (bad, k) ↦
            rw (k, issue_grant)
              (if-either (λ (x : ReferenceCftModel × Result ExecutionGrant). Unleased x)
                (attempt == 0 || ticks == 0) h h)
        | inl (done, k) ↦
            rw (k, issue_grant)
              (if-either (λ (x : ReferenceCftModel × Result ExecutionGrant). Unleased x)
                (attempt == 0 || ticks == 0) h
                (note_grant-Unleased grant (propose record_json leader (grant_record grant) m)
                  (propose-Unleased leader (grant_record grant) m h)))
      ]

  record_uncommitted_result-Unleased :
      (observer : NodeId) (result : ExecutedUncommittedResult) (tick : ℕ) (m : ReferenceCftModel)
      → m.control_lease ≡ none
      → Unleased (record_uncommitted_result observer result tick m)
  unfolding record_uncommitted_result
  record_uncommitted_result-Unleased observer result tick m h = ground arith

  note_decision-Unleased :
      (task : GlobalTaskId) (result : ExecutedUncommittedResult)
      (x : ReferenceCftModel × Result CommittedControlRecord)
      → Unleased x
      → Unleased (note_decision task result x)
  unfolding note_decision
  note_decision-Unleased task result (m, err e) h = h
  note_decision-Unleased task result (m, ok c) h = h

  reconcile-Unleased :
      (leader : NodeId) (task : GlobalTaskId) (decision : ReconciliationDecision) (tick : ℕ)
      (m : ReferenceCftModel)
      → m.control_lease ≡ none
      → Unleased (reconcile record_json leader task decision tick m)
  unfolding reconcile
  reconcile-Unleased leader task decision tick m h =
      let entry = reconcile_record task decision m.current_epoch in
      elim (Result-cases (authorize leader durable_write none tick m)) [
        | inr (e, k) ↦ rw (k, reconcile) h
        | inl (done, k) ↦ elim (Option-cases (result_of task m.uncommitted_results)) [
          | inl e ↦ rw (k, reconcile, e) h
          | inr (result, e) ↦
              rw (k, reconcile, e)
                (note_decision-Unleased task result (propose record_json leader entry m)
                  (propose-Unleased leader entry m h))
        ]
      ]

  serve-Unleased :
      (call : ControlCall) (m : ReferenceCftModel)
      → IsNoRenewal call
      → m.control_lease ≡ none
      → (serve record_json call m).control_lease ≡ none
  unfolding serve
  serve-Unleased (elect_call candidate) m k h = elect-Unleased candidate m h
  serve-Unleased (recover_call node) m k h = recover-Unleased node m h
  serve-Unleased (alive_call node alive) m k h = set_alive-Unleased node alive m h
  serve-Unleased (isolate_call node isolated) m k h = isolate-Unleased node isolated m h
  serve-Unleased (renew_call leader issued_tick ticks) m k h = absurd k
  serve-Unleased (propose_call leader control_record) m k h =
      propose-Unleased leader control_record m h
  serve-Unleased (propose_from_call ingress control_record tick) m k h =
      propose_from-Unleased ingress control_record tick m h
  serve-Unleased (grant_call leader task attempt worker issued ticks irreversible) m k h =
      issue_grant-Unleased leader task attempt worker issued ticks irreversible m h
  serve-Unleased (record_call observer result tick) m k h =
      record_uncommitted_result-Unleased observer result tick m h
  serve-Unleased (reconcile_call leader task decision tick) m k h =
      reconcile-Unleased leader task decision tick m h

  -- Without a lease and without a renewal there is no lease.
  pub serve_all-Unleased :
      (calls : List ControlCall) (m : ReferenceCftModel)
      → All IsNoRenewal calls
      → m.control_lease ≡ none
      → (serve_all record_json calls m).control_lease ≡ none
  unfolding serve_all
  serve_all-Unleased [] m k h = h
  serve_all-Unleased (call ∷ calls) m (k, ks) h =
      serve_all-Unleased calls (serve record_json call m) ks (serve-Unleased call m k h)
