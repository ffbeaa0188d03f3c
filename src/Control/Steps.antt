-- ===== src/Control/Steps.antt =====
-- The calls of ha_control.rs that propose a record or note a result.
use mutsuki_distributed_host.Base.{
  ℕ, ◌≤◌, ◌<◌, ◌≡◌, refl, ap, sym, ◌∙◌, inl, inr, Bool, not, ◌||◌, List, [], ◌∷◌, Option, none,
  Bytes, ltb, ◌==◌, if◌then◌else◌, if-either, length, length-append, sat_add, arith, Option-cases,
}
use mutsuki_distributed_host.Base.Outcome.{Result, ok, err, Result-cases}
use mutsuki_distributed_host.Base.Map.{Map, get, insert, text_key}
use mutsuki_distributed_host.Contracts.{GlobalTaskId, NodeId}
use mutsuki_distributed_host.Control.Types.{
  ControlRecord, CommittedControlRecord, ExecutionGrant, ExecutedUncommittedResult,
  ReconciliationDecision, durable_write, irreversible_effect,
}
use mutsuki_distributed_host.Control.Cluster.{
  ControlNode, ReferenceCftModel, is_alive, connected, quorum_size,
}
use mutsuki_distributed_host.Control.Authority.{authorize}
use mutsuki_distributed_host.Control.Propose.{
  finish_proposal, write_entries, count_written, reached_by, check_proposal, propose, propose_from,
  entry_for,
}
use mutsuki_distributed_host.Control.Grants.{
  max_uncommitted_results, new_grant, grant_record, note_grant, issue_grant, check_uncommitted,
  record_uncommitted_result, without_result, note_decision, result_of, reconcile_record, reconcile,
}
use mutsuki_distributed_host.Control.Epochs.{IsSound, SameGrants, Step, same-Step}

-- What a proposal does to grants, results and the epoch.
abbrev pub EpochAfter :
    ReferenceCftModel → ReferenceCftModel × Result CommittedControlRecord → Type 0
EpochAfter m (n, ok c) =
    (n.grants ≡ m.grants)
    × (n.current_epoch ≡ sat_add m.current_epoch 1)
    × (n.uncommitted_results ≡ m.uncommitted_results)
EpochAfter m (n, err e) = SameGrants m n

finish_proposal-EpochAfter :
    (c : CommittedControlRecord) (m : ReferenceCftModel) (entries : Map NodeId (ControlNode × Bool))
    (disk : List Bool)
    → c.epoch ≡ sat_add m.current_epoch 1
    → EpochAfter m (finish_proposal c m (entries, disk))
unfolding finish_proposal
finish_proposal-EpochAfter c m entries disk h =
    if-either (EpochAfter m) (ltb (count_written entries) (quorum_size m)) (refl, refl, refl)
      (refl, h, refl)

module _ (record_json : ControlRecord → Option Bytes) where
  check_proposal-epoch :
      (leader : NodeId) (control_record : ControlRecord) (m : ReferenceCftModel)
      (c : CommittedControlRecord)
      → check_proposal record_json leader control_record m ≡ ok c
      → c.epoch ≡ sat_add m.current_epoch 1
  unfolding check_proposal
  check_proposal-epoch leader control_record m c h =
      elim (Option-cases (record_json control_record)) [
        | inl bad ↦ absurd (ground arith)
        | inr (bytes, good) ↦ elim (Option-cases (get leader m.nodes)) [
          | inl bad ↦ absurd (ground arith)
          | inr (node, found) ↦
              let made : entry_for node control_record m ≡ c = ground arith in
              ap (λ u. u.epoch) (sym made)
        ]
      ]

  pub propose-EpochAfter :
      (leader : NodeId) (control_record : ControlRecord) (m : ReferenceCftModel)
      → EpochAfter m (propose record_json leader control_record m)
  unfolding propose
  propose-EpochAfter leader control_record m =
      elim (Result-cases (check_proposal record_json leader control_record m)) [
        | inr (e, h) ↦ rw (h, propose) (refl, refl, refl)
        | inl (c, h) ↦
            rw (h, propose)
              (finish_proposal-EpochAfter c m
                (write_entries (reached_by m leader) c m.disk m.nodes).0
                (write_entries (reached_by m leader) c m.disk m.nodes).1
                (check_proposal-epoch leader control_record m c h))
      ]

  after-Step :
      (m : ReferenceCftModel) (x : ReferenceCftModel × Result CommittedControlRecord)
      → IsSound m
      → EpochAfter m x
      → Step m x.0
  after-Step m (n, ok c) (fits, epochs, few) (grants, epoch, results) =
      (omega (arith, epoch), omega (arith, epoch), omega (arith, ap length results), inl grants)
  after-Step m (n, err e) sound same = same-Step m n sound same

  self-Step : (m : ReferenceCftModel) → IsSound m → Step m m
  self-Step m sound = same-Step m m sound (refl, refl, refl)

  pub propose-Step :
      (leader : NodeId) (control_record : ControlRecord) (m : ReferenceCftModel)
      → IsSound m
      → Step m (propose record_json leader control_record m).0
  propose-Step leader control_record m sound =
      after-Step m (propose record_json leader control_record m) sound
        (propose-EpochAfter leader control_record m)

  pub propose_from-Step :
      (ingress : NodeId) (control_record : ControlRecord) (tick : ℕ) (m : ReferenceCftModel)
      → IsSound m
      → Step m (propose_from record_json ingress control_record tick m).0
  unfolding propose_from
  propose_from-Step ingress control_record tick m sound = elim (Option-cases m.leader) [
    | inl e ↦ rw (e, propose_from) (self-Step m sound)
    | inr (leader, e) ↦ elim (Result-cases (authorize leader durable_write none tick m)) [
      | inr (bad, h) ↦
          rw (e, propose_from, h)
            (if-either (λ (x : ReferenceCftModel × Result CommittedControlRecord). Step m x.0)
              (not (connected m ingress leader) || not (is_alive m ingress)) (self-Step m sound)
              (self-Step m sound))
      | inl (done, h) ↦
          rw (e, propose_from, h)
            (if-either (λ (x : ReferenceCftModel × Result CommittedControlRecord). Step m x.0)
              (not (connected m ingress leader) || not (is_alive m ingress)) (self-Step m sound)
              (propose-Step leader control_record m sound))
    ]
  ]

  note_grant-Step :
      (grant : ExecutionGrant) (m : ReferenceCftModel)
      (x : ReferenceCftModel × Result CommittedControlRecord)
      → grant.epoch ≡ sat_add m.current_epoch 1
      → IsSound m
      → EpochAfter m x
      → Step m (note_grant grant x).0
  unfolding note_grant
  note_grant-Step grant m (n, err e) h sound same = same-Step m n sound same
  note_grant-Step grant m (n, ok c) h (fits, epochs, few) (grants, epoch, results) = (
    omega (arith, epoch),
    omega (arith, epoch),
    omega (arith, ap length results),
    inr (grant, ap (insert grant.global_task_id grant) grants, h ∙ sym epoch),
  )

  pub grant-Step :
      (leader : NodeId) (task : GlobalTaskId) (attempt : ℕ) (worker : NodeId) (issued ticks : ℕ)
      (irreversible : Bool) (m : ReferenceCftModel)
      → IsSound m
      → Step m (issue_grant record_json leader task attempt worker issued ticks irreversible m).0
  unfolding issue_grant
  grant-Step leader task attempt worker issued ticks irreversible m sound =
      let grant = new_grant task attempt worker issued ticks irreversible m in
      let operation = if irreversible then irreversible_effect else durable_write in
      elim (Result-cases (authorize leader operation none issued m)) [
        | inr (bad, h) ↦
            rw (h, issue_grant)
              (if-either (λ (x : ReferenceCftModel × Result ExecutionGrant). Step m x.0)
                (attempt == 0 || ticks == 0) (self-Step m sound) (self-Step m sound))
        | inl (done, h) ↦
            rw (h, issue_grant)
              (if-either (λ (x : ReferenceCftModel × Result ExecutionGrant). Step m x.0)
                (attempt == 0 || ticks == 0) (self-Step m sound)
                (note_grant-Step grant m (propose record_json leader (grant_record grant) m) refl
                  sound (propose-EpochAfter leader (grant_record grant) m)))
      ]

  check_uncommitted-room :
      (observer : NodeId) (result : ExecutedUncommittedResult) (tick : ℕ) (m : ReferenceCftModel)
      → check_uncommitted observer result tick m ≡ ok tt
      → length m.uncommitted_results < max_uncommitted_results
  unfolding check_uncommitted
  check_uncommitted-room observer result tick m h = ground arith

  pub record-Step :
      (observer : NodeId) (result : ExecutedUncommittedResult) (tick : ℕ) (m : ReferenceCftModel)
      → IsSound m
      → Step m (record_uncommitted_result observer result tick m).0
  unfolding record_uncommitted_result
  record-Step observer result tick m sound =
      let (fits, epochs, few) = sound in
      elim (Result-cases (check_uncommitted observer result tick m)) [
        | inr (e, h) ↦ rw (h, record_uncommitted_result) (self-Step m sound)
        | inl (done, h) ↦
            let room : length m.uncommitted_results < max_uncommitted_results =
              check_uncommitted-room observer result tick m h in
            rw (h, record_uncommitted_result)
              (
                fits,
                omega arith,
                omega (arith, length-append m.uncommitted_results (result ∷ [])),
                inl refl,
              )
      ]

  length-without_result-le :
      (task : GlobalTaskId) (results : List ExecutedUncommittedResult)
      → length (without_result task results) ≤ length results
  unfolding without_result
  length-without_result-le task [] = omega arith
  length-without_result-le task (result ∷ results) =
      ground (arith, length-without_result-le task results)

  note_decision-Step :
      (task : GlobalTaskId) (result : ExecutedUncommittedResult) (m : ReferenceCftModel)
      (x : ReferenceCftModel × Result CommittedControlRecord)
      → IsSound m
      → EpochAfter m x
      → Step m (note_decision task result x).0
  unfolding note_decision
  note_decision-Step task result m (n, err e) sound same = same-Step m n sound same
  note_decision-Step task result m (n, ok c) (fits, epochs, few) (grants, epoch, results) = (
    omega (arith, epoch),
    omega (arith, epoch),
    omega (arith, length-without_result-le task n.uncommitted_results, ap length results),
    inl grants,
  )

  pub reconcile-Step :
      (leader : NodeId) (task : GlobalTaskId) (decision : ReconciliationDecision) (tick : ℕ)
      (m : ReferenceCftModel)
      → IsSound m
      → Step m (reconcile record_json leader task decision tick m).0
  unfolding reconcile
  reconcile-Step leader task decision tick m sound =
      let entry = reconcile_record task decision m.current_epoch in
      elim (Result-cases (authorize leader durable_write none tick m)) [
        | inr (e, h) ↦ rw (h, reconcile) (self-Step m sound)
        | inl (done, h) ↦ elim (Option-cases (result_of task m.uncommitted_results)) [
          | inl e ↦ rw (h, reconcile, e) (self-Step m sound)
          | inr (result, e) ↦
              rw (h, reconcile, e)
                (note_decision-Step task result m (propose record_json leader entry m) sound
                  (propose-EpochAfter leader entry m))
        ]
      ]
