-- ===== src/Control/Reigns.antt =====
-- The leaders of ha_control.rs over any calls: a later election has a higher term.
use mutsuki_distributed_host.Base.{
  ℕ, ◌<◌, ◌≡◌, ◌⊎◌, refl, inl, inr, Bool, not, ◌||◌, List, [], ◌∷◌, Option, none, Bytes,
  if◌then◌else◌, if-either, ltb, ◌==◌, u64_max, arith, Option-cases,
}
use mutsuki_distributed_host.Base.Outcome.{Result, ok, err, Result-cases}
use mutsuki_distributed_host.Contracts.{GlobalTaskId, NodeId}
use mutsuki_distributed_host.Control.Types.{
  ControlRecord, CommittedControlRecord, ExecutionGrant, ExecutedUncommittedResult,
  ReconciliationDecision, durable_write, irreversible_effect,
}
use mutsuki_distributed_host.Control.Cluster.{
  ControlNode, ReferenceCftModel, next_term, elect, connected, is_alive, quorum_size,
}
use mutsuki_distributed_host.Control.Authority.{authorize}
use mutsuki_distributed_host.Control.Propose.{
  write_entries, withdraw, count_written, written_nodes, finish_proposal, reached_by,
  check_proposal, propose, propose_from,
}
use mutsuki_distributed_host.Control.ProposeLaws.{withdraw-memory}
use mutsuki_distributed_host.Control.Grants.{
  new_grant, grant_record, note_grant, issue_grant, check_uncommitted, record_uncommitted_result,
  note_decision, result_of, reconcile_record, reconcile,
}
use mutsuki_distributed_host.Control.Calls.{
  ControlCall, elect_call, recover_call, alive_call, isolate_call, renew_call, propose_call,
  propose_from_call, grant_call, record_call, reconcile_call, serve, serve_all,
}
use mutsuki_distributed_host.Control.Terms.{
  TermsFit, Grows-TermsFit, max_term-ge, memory-Grows, write_entries-Grows,
}
use mutsuki_distributed_host.Control.Election.{
  IsLed, grown-IsLed, Elected, elect-Elected, elect-IsLed,
}
use mutsuki_distributed_host.Control.Repairs.{
  set_alive-IsLed, isolate-IsLed, recover-IsLed, renew-IsLed,
}

finish_proposal-IsLed :
    (reached : NodeId × ControlNode → Bool) (c : CommittedControlRecord) (term : ℕ)
    (m : ReferenceCftModel)
    → IsLed term m
    → IsLed term (finish_proposal c m (write_entries reached c m.disk m.nodes)).0
unfolding finish_proposal
finish_proposal-IsLed reached c term m led =
    let entries = (write_entries reached c m.disk m.nodes).0 in
    let disk : List Bool = (write_entries reached c m.disk m.nodes).1 in
    let undone = withdraw disk entries in
    if-either (λ (x : ReferenceCftModel × Result CommittedControlRecord). IsLed term x.0)
      (ltb (count_written entries) (quorum_size m))
      (grown-IsLed term m (record m { nodes = undone.0; disk = undone.1 })
        (memory-Grows m.nodes undone.0 (withdraw-memory reached c m.disk disk m.nodes) led.0)
        (inl refl) led)
      (grown-IsLed term m
        (record m { nodes = written_nodes entries; disk = disk; current_epoch = c.epoch })
        (write_entries-Grows reached c m.disk m.nodes led.0) (inl refl) led)

note_grant-IsLed :
    (grant : ExecutionGrant) (term : ℕ) (x : ReferenceCftModel × Result CommittedControlRecord)
    → IsLed term x.0
    → IsLed term (note_grant grant x).0
unfolding note_grant
note_grant-IsLed grant term (n, err e) led = led
note_grant-IsLed grant term (n, ok c) led = led

note_decision-IsLed :
    (task : GlobalTaskId) (result : ExecutedUncommittedResult) (term : ℕ)
    (x : ReferenceCftModel × Result CommittedControlRecord)
    → IsLed term x.0
    → IsLed term (note_decision task result x).0
unfolding note_decision
note_decision-IsLed task result term (n, err e) led = led
note_decision-IsLed task result term (n, ok c) led = led

module _ (record_json : ControlRecord → Option Bytes) where
  propose-IsLed :
      (leader : NodeId) (entry : ControlRecord) (term : ℕ) (m : ReferenceCftModel)
      → IsLed term m
      → IsLed term (propose record_json leader entry m).0
  unfolding propose
  propose-IsLed leader entry term m led =
      elim (Result-cases (check_proposal record_json leader entry m)) [
        | inr (e, h) ↦ rw (h, propose) led
        | inl (c, h) ↦ rw (h, propose) (finish_proposal-IsLed (reached_by m leader) c term m led)
      ]

  propose_from-IsLed :
      (ingress : NodeId) (entry : ControlRecord) (tick term : ℕ) (m : ReferenceCftModel)
      → IsLed term m
      → IsLed term (propose_from record_json ingress entry tick m).0
  unfolding propose_from
  propose_from-IsLed ingress entry tick term m led = elim (Option-cases m.leader) [
    | inl e ↦ rw (e, propose_from) led
    | inr (leader, e) ↦
        let away = not (connected m ingress leader) || not (is_alive m ingress) in
        elim (Result-cases (authorize leader durable_write none tick m)) [
          | inr (bad, h) ↦
              rw (e, propose_from, h)
                (if-either
                  (λ (x : ReferenceCftModel × Result CommittedControlRecord). IsLed term x.0) away
                  led led)
          | inl (done, h) ↦
              rw (e, propose_from, h)
                (if-either
                  (λ (x : ReferenceCftModel × Result CommittedControlRecord). IsLed term x.0) away
                  led (propose-IsLed leader entry term m led))
        ]
  ]

  grant-IsLed :
      (leader : NodeId) (task : GlobalTaskId) (attempt : ℕ) (worker : NodeId) (issued ticks : ℕ)
      (irreversible : Bool) (term : ℕ) (m : ReferenceCftModel)
      → IsLed term m
      → IsLed term
          (issue_grant record_json leader task attempt worker issued ticks irreversible m).0
  unfolding issue_grant
  grant-IsLed leader task attempt worker issued ticks irreversible term m led =
      let grant : ExecutionGrant = new_grant task attempt worker issued ticks irreversible m in
      let operation = if irreversible then irreversible_effect else durable_write in
      elim (Result-cases (authorize leader operation none issued m)) [
        | inr (bad, h) ↦
            rw (h, issue_grant)
              (if-either (λ (x : ReferenceCftModel × Result ExecutionGrant). IsLed term x.0)
                (attempt == 0 || ticks == 0) led led)
        | inl (done, h) ↦
            rw (h, issue_grant)
              (if-either (λ (x : ReferenceCftModel × Result ExecutionGrant). IsLed term x.0)
                (attempt == 0 || ticks == 0) led
                (note_grant-IsLed grant term (propose record_json leader (grant_record grant) m)
                  (propose-IsLed leader (grant_record grant) term m led)))
      ]

  record-IsLed :
      (observer : NodeId) (result : ExecutedUncommittedResult) (tick term : ℕ)
      (m : ReferenceCftModel)
      → IsLed term m
      → IsLed term (record_uncommitted_result observer result tick m).0
  unfolding record_uncommitted_result
  record-IsLed observer result tick term m led =
      elim (Result-cases (check_uncommitted observer result tick m)) [
        | inr (e, h) ↦ rw (h, record_uncommitted_result) led
        | inl (done, h) ↦ rw (h, record_uncommitted_result) led
      ]

  reconcile-IsLed :
      (leader : NodeId) (task : GlobalTaskId) (decision : ReconciliationDecision) (tick term : ℕ)
      (m : ReferenceCftModel)
      → IsLed term m
      → IsLed term (reconcile record_json leader task decision tick m).0
  unfolding reconcile
  reconcile-IsLed leader task decision tick term m led =
      let entry = reconcile_record task decision m.current_epoch in
      elim (Result-cases (authorize leader durable_write none tick m)) [
        | inr (e, h) ↦ rw (h, reconcile) led
        | inl (done, h) ↦ elim (Option-cases (result_of task m.uncommitted_results)) [
          | inl e ↦ rw (h, reconcile, e) led
          | inr (result, e) ↦
              rw (h, reconcile, e)
                (note_decision-IsLed task result term (propose record_json leader entry m)
                  (propose-IsLed leader entry term m led))
        ]
      ]

  serve-IsLed :
      (call : ControlCall) (term : ℕ) (m : ReferenceCftModel)
      → IsLed term m
      → IsLed term (serve record_json call m)
  unfolding serve
  serve-IsLed (elect_call candidate) term m led = elect-IsLed candidate term m led
  serve-IsLed (recover_call node) term m led = recover-IsLed node term m led
  serve-IsLed (alive_call node alive) term m led = set_alive-IsLed node alive term m led
  serve-IsLed (isolate_call node cut) term m led = isolate-IsLed node cut term m led
  serve-IsLed (renew_call leader issued ticks) term m led =
      renew-IsLed leader issued ticks term m led
  serve-IsLed (propose_call leader entry) term m led = propose-IsLed leader entry term m led
  serve-IsLed (propose_from_call ingress entry tick) term m led =
      propose_from-IsLed ingress entry tick term m led
  serve-IsLed (grant_call leader task attempt worker issued ticks irreversible) term m led =
      grant-IsLed leader task attempt worker issued ticks irreversible term m led
  serve-IsLed (record_call observer result tick) term m led =
      record-IsLed observer result tick term m led
  serve-IsLed (reconcile_call leader task decision tick) term m led =
      reconcile-IsLed leader task decision tick term m led

  serve_all-IsLed :
      (calls : List ControlCall) (term : ℕ) (m : ReferenceCftModel)
      → IsLed term m
      → IsLed term (serve_all record_json calls m)
  unfolding serve_all
  serve_all-IsLed [] term m led = led
  serve_all-IsLed (call ∷ calls) term m led =
      serve_all-IsLed calls term (serve record_json call m) (serve-IsLed call term m led)

  -- An election that succeeds starts with the next term.
  won-IsLed :
      (candidate : NodeId) (term : ℕ) (m : ReferenceCftModel)
      → TermsFit m.nodes
      → (elect candidate m).1 ≡ ok term
      → IsLed term (elect candidate m).0 × (term ≡ next_term m)
  won-IsLed candidate term m fit won =
      let (grows, end) : Elected m candidate (next_term m) (elect candidate m) =
        elect-Elected candidate m fit in
      elim end [
        | inl (lead, failed) ↦ absurd (failed term won)
        | inr (leads, has, got) ↦
            let same : term ≡ next_term m = cc (won, got) in
            (
              (
                Grows-TermsFit m.nodes (elect candidate m).0.nodes grows,
                candidate,
                rw same has,
                inr leads,
              ),
              same,
            )
      ]

  -- From nodes whose terms are 64-bit numbers, an election that succeeds after another one has a
  -- higher term, whatever calls stand between the two, unless the terms are exhausted.
  pub elect-rises :
      (first second : NodeId) (term term' : ℕ) (m : ReferenceCftModel) (calls : List ControlCall)
      → TermsFit m.nodes
      → (elect first m).1 ≡ ok term
      → (elect second (serve_all record_json calls (elect first m).0)).1 ≡ ok term'
      → (term < term') ⊎ (term' ≡ u64_max)
  elect-rises first second term term' m calls fit won won' =
      let n : ReferenceCftModel = serve_all record_json calls (elect first m).0 in
      let (led, start) : IsLed term (elect first m).0 × (term ≡ next_term m) =
        won-IsLed first term m fit won in
      let (fit', id, has, leads) : IsLed term n =
        serve_all-IsLed calls term (elect first m).0 led in
      let (led', next) : IsLed term' (elect second n).0 × (term' ≡ next_term n) =
        won-IsLed second term' n fit' won' in
      let low = max_term-ge id term n.nodes has in omega (arith, low, next)
