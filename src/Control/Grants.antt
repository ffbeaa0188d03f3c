-- ===== src/Control/Grants.antt =====
-- Grants and results that were executed without a quorum, in ha_control.rs.
use mutsuki_distributed_host.Base.{
  ℕ, zero, suc, ◌+◌, ◌/◌, ◌%◌, ◌^◌, Bool, true, false, not, ◌||◌, List, [], ◌∷◌, ◌++◌, Option, none,
  some, Text, Bytes, ltb, leb, ◌==◌, if◌then◌else◌, length, sat_add,
}
use mutsuki_distributed_host.Base.Outcome.{
  Result, ok, err, ◌>>=◌, ◌>>◌, refuse_if, or_fail, invalid_config, fenced, task_unknown,
}
use mutsuki_distributed_host.Base.Map.{get, insert, text_key, ◌is◌}
use mutsuki_distributed_host.Contracts.{GlobalTaskId, NodeId}
use mutsuki_distributed_host.Control.Types.{
  ControlRecord, CommittedControlRecord, execution_grant, reconciliation, durable_write,
  irreversible_effect, ExecutionGrant, ExecutedUncommittedResult, ReconciliationDecision, accept,
  reexecute, compensate, reject, manual_review,
}
use mutsuki_distributed_host.Control.Cluster.{ReferenceCftModel, has_leader_quorum, current_term}
use mutsuki_distributed_host.Control.Authority.{validate_grant, authorize}
use mutsuki_distributed_host.Control.Propose.{propose}

-- `MAX_UNCOMMITTED_RESULTS`.
abbrev pub max_uncommitted_results : ℕ
max_uncommitted_results = 4096

-- `to_string` of a number, which has at most as many digits as its value and one more.
unfoldable pub digits : ℕ → ℕ → Text
digits zero n = []
digits (suc fuel) n =
    let rest = digits fuel (n / 10) in
    if ltb n 10 then (48 + n) ∷ [] else rest ++ (48 + n % 10) ∷ []

abbrev pub decimal : ℕ → Text
decimal n = digits (suc n) n

abbrev global_task_id_key : Text
global_task_id_key =
    103 ∷ 108 ∷ 111 ∷ 98 ∷ 97 ∷ 108 ∷ 95 ∷ 116 ∷ 97 ∷ 115 ∷ 107 ∷ 95 ∷ 105 ∷ 100 ∷ []

abbrev attempt_key : Text
attempt_key = 97 ∷ 116 ∷ 116 ∷ 101 ∷ 109 ∷ 112 ∷ 116 ∷ []

abbrev worker_node_key : Text
worker_node_key = 119 ∷ 111 ∷ 114 ∷ 107 ∷ 101 ∷ 114 ∷ 95 ∷ 110 ∷ 111 ∷ 100 ∷ 101 ∷ []

abbrev issued_tick_key : Text
issued_tick_key = 105 ∷ 115 ∷ 115 ∷ 117 ∷ 101 ∷ 100 ∷ 95 ∷ 116 ∷ 105 ∷ 99 ∷ 107 ∷ []

abbrev valid_until_tick_key : Text
valid_until_tick_key =
    118 ∷ 97 ∷ 108 ∷ 105 ∷ 100 ∷ 95 ∷ 117 ∷ 110 ∷ 116 ∷ 105 ∷ 108 ∷ 95 ∷ 116 ∷ 105 ∷ 99 ∷ 107 ∷ []

abbrev irreversible_effects_key : Text
irreversible_effects_key =
    105 ∷ 114 ∷ 114 ∷ 101 ∷ 118 ∷ 101 ∷ 114 ∷ 115 ∷ 105 ∷ 98 ∷ 108 ∷ 101 ∷ 95 ∷ 101 ∷ 102 ∷ 102
    ∷ 101 ∷ 99 ∷ 116 ∷ 115 ∷ []

abbrev decision_key : Text
decision_key = 100 ∷ 101 ∷ 99 ∷ 105 ∷ 115 ∷ 105 ∷ 111 ∷ 110 ∷ []

-- `true`.
abbrev true_text : Text
true_text = 116 ∷ 114 ∷ 117 ∷ 101 ∷ []

-- `false`.
abbrev false_text : Text
false_text = 102 ∷ 97 ∷ 108 ∷ 115 ∷ 101 ∷ []

-- `grant:`.
abbrev grant_prefix : Text
grant_prefix = 103 ∷ 114 ∷ 97 ∷ 110 ∷ 116 ∷ 58 ∷ []

-- `reconcile:`.
abbrev reconcile_prefix : Text
reconcile_prefix = 114 ∷ 101 ∷ 99 ∷ 111 ∷ 110 ∷ 99 ∷ 105 ∷ 108 ∷ 101 ∷ 58 ∷ []

abbrev bool_text : Bool → Text
bool_text true = true_text
bool_text false = false_text

-- The derived `Debug` of a decision.
unfoldable pub decision_text : ReconciliationDecision → Text
decision_text accept = 65 ∷ 99 ∷ 99 ∷ 101 ∷ 112 ∷ 116 ∷ []
decision_text reexecute = 82 ∷ 101 ∷ 101 ∷ 120 ∷ 101 ∷ 99 ∷ 117 ∷ 116 ∷ 101 ∷ []
decision_text compensate = 67 ∷ 111 ∷ 109 ∷ 112 ∷ 101 ∷ 110 ∷ 115 ∷ 97 ∷ 116 ∷ 101 ∷ []
decision_text reject = 82 ∷ 101 ∷ 106 ∷ 101 ∷ 99 ∷ 116 ∷ []
decision_text manual_review = 77 ∷ 97 ∷ 110 ∷ 117 ∷ 97 ∷ 108 ∷ 82 ∷ 101 ∷ 118 ∷ 105 ∷ 101 ∷ 119 ∷ []

abbrev pub new_grant : GlobalTaskId → ℕ → NodeId → ℕ → ℕ → Bool → ReferenceCftModel → ExecutionGrant
new_grant task attempt worker issued_tick valid_for_ticks irreversible m = record {
  global_task_id = task;
  attempt = attempt;
  worker_node = worker;
  term = current_term m;
  epoch = sat_add m.current_epoch 1;
  issued_tick = issued_tick;
  valid_until_tick = sat_add issued_tick valid_for_ticks;
  irreversible_effects = irreversible;
}

unfoldable pub grant_record : ExecutionGrant → ControlRecord
unfolding digits
grant_record grant = record {
  record_id = grant_prefix ++ (grant.global_task_id ++ 58 ∷ decimal grant.epoch);
  kind = execution_grant;
  metadata = insert irreversible_effects_key (bool_text grant.irreversible_effects) (
      insert valid_until_tick_key (decimal grant.valid_until_tick) (
        insert issued_tick_key (decimal grant.issued_tick) (
          insert worker_node_key grant.worker_node (
            insert attempt_key (decimal grant.attempt)
              (insert global_task_id_key grant.global_task_id [])))));
}

-- The id of a reconciliation counts the epoch without saturation.
unfoldable pub reconcile_record : GlobalTaskId → ReconciliationDecision → ℕ → ControlRecord
unfolding digits decision_text
reconcile_record task decision epoch = record {
  record_id = reconcile_prefix ++ (task ++ 58 ∷ decimal ((epoch + 1) % 2 ^ 64));
  kind = reconciliation;
  metadata = insert decision_key (decision_text decision) (insert global_task_id_key task []);
}

-- The grant is stored where its record was committed.
unfoldable pub note_grant :
    ExecutionGrant
    → ReferenceCftModel × Result CommittedControlRecord
    → ReferenceCftModel × Result ExecutionGrant
note_grant grant (m, err e) = (m, err e)
note_grant grant (m, ok committed) =
    (record m { grants = insert grant.global_task_id grant m.grants }, ok grant)

-- `position`, with the element there.
unfoldable pub result_of :
    GlobalTaskId → List ExecutedUncommittedResult → Option ExecutedUncommittedResult
result_of task [] = none
result_of task (result ∷ results) =
    if result.global_task_id is task then some result else result_of task results

-- `remove` at that position.
unfoldable pub without_result :
    GlobalTaskId → List ExecutedUncommittedResult → List ExecutedUncommittedResult
without_result task [] = []
without_result task (result ∷ results) =
    let rest = without_result task results in
    if result.global_task_id is task then results else result ∷ rest

unfoldable pub note_decision :
    GlobalTaskId
    → ExecutedUncommittedResult
    → ReferenceCftModel × Result CommittedControlRecord
    → ReferenceCftModel × Result ExecutedUncommittedResult
unfolding without_result
note_decision task result (m, err e) = (m, err e)
note_decision task result (m, ok committed) =
    (record m { uncommitted_results = without_result task m.uncommitted_results }, ok result)

-- Whether a result is not of the grant.
abbrev pub is_foreign : ExecutionGrant → ExecutedUncommittedResult → Bool
is_foreign grant result =
    not (grant.attempt == result.attempt)
    || not (grant.worker_node is result.worker_node)
    || not (grant.term == result.grant_term)
    || not (grant.epoch == result.grant_epoch)

unfoldable pub check_uncommitted :
    NodeId → ExecutedUncommittedResult → ℕ → ReferenceCftModel → Result (Unit {0})
unfolding has_leader_quorum validate_grant
check_uncommitted observer result tick m = do
  refuse_if
      (has_leader_quorum m observer || leb max_uncommitted_results (length m.uncommitted_results))
      invalid_config
  grant ← or_fail (get result.global_task_id m.grants) fenced
  refuse_if (is_foreign grant result) fenced
  validate_grant observer grant tick m

unfoldable pub record_uncommitted_result :
    NodeId
    → ExecutedUncommittedResult
    → ℕ
    → ReferenceCftModel
    → ReferenceCftModel × Result (Unit {0})
unfolding check_uncommitted
record_uncommitted_result observer result tick m = elim (check_uncommitted observer result tick m) [
  | err e ↦ (m, err e)
  | ok done ↦ (record m { uncommitted_results = m.uncommitted_results ++ result ∷ [] }, ok tt)
]

-- The JSON of a control record by serde_json.
module _ (record_json : ControlRecord → Option Bytes) where
  unfoldable pub issue_grant :
      NodeId
      → GlobalTaskId
      → ℕ
      → NodeId
      → ℕ
      → ℕ
      → Bool
      → ReferenceCftModel
      → ReferenceCftModel × Result ExecutionGrant
  unfolding authorize propose note_grant grant_record current_term
  issue_grant leader task attempt worker issued_tick valid_for_ticks irreversible m =
      let grant = new_grant task attempt worker issued_tick valid_for_ticks irreversible m in
      let operation = if irreversible then irreversible_effect else durable_write in
      let stored = note_grant grant (propose record_json leader (grant_record grant) m) in
      if attempt == 0 || valid_for_ticks == 0
      then (m, err invalid_config)
      else elim (authorize leader operation none issued_tick m) [
        | err e ↦ (m, err e)
        | ok done ↦ stored
      ]

  unfoldable pub reconcile :
      NodeId
      → GlobalTaskId
      → ReconciliationDecision
      → ℕ
      → ReferenceCftModel
      → ReferenceCftModel × Result ExecutedUncommittedResult
  unfolding authorize propose note_decision reconcile_record result_of
  reconcile leader task decision tick m = elim (authorize leader durable_write none tick m) [
    | err e ↦ (m, err e)
    | ok done ↦ elim (result_of task m.uncommitted_results) [
      | none ↦ (m, err task_unknown)
      | some result ↦
          note_decision task result
            (propose record_json leader (reconcile_record task decision m.current_epoch) m)
    ]
  ]
