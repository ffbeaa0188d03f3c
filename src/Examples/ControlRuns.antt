-- ===== src/Examples/ControlRuns.antt =====
-- Runs of the control plane of ha_control.rs.
use mutsuki_distributed_host.Base.{
  not, ◌<◌, ◌≡◌, ◌≢◌, ◌⊎◌, u64_max, refl, true, false, List, [], ◌∷◌, some, none, arith, Bytes,
  Text, text_discrete, ℕ_discrete, Option,
}
use mutsuki_distributed_host.Base.Outcome.{refuse_if, control_lease_expired, ok}
use mutsuki_distributed_host.Base.Map.{get, insert}
use mutsuki_distributed_host.Control.Types.{
  MemberPulseSummary, healthy, dead, full, witness_node, follower_role, witness_role, ControlRecord,
  global_task, ExecutionGrant, ControlLease, durable_write, lease_is_valid_at,
}
use mutsuki_distributed_host.Control.Detector.{FailureDetector, register_full, advance, health_of}
use mutsuki_distributed_host.Control.DetectorLaws.{
  DetectorCall, register_call, pulse_call, advance_call, watch_all, IsBounded, watch_all-IsBounded,
  silent-dead,
}
use mutsuki_distributed_host.Control.Cluster.{
  elect, connected, ControlNodeSnapshot, ControlNode, ReferenceCftModel,
}
use mutsuki_distributed_host.Control.Authority.{renew_control_lease, authorize, validate_result}
use mutsuki_distributed_host.Control.Propose.{propose, committed_records}
use mutsuki_distributed_host.Control.ProposeLaws.{LeavesAllOrNone, propose-leaves}
use mutsuki_distributed_host.Control.Grants.{issue_grant}
use mutsuki_distributed_host.Control.Calls.{
  propose_call, ControlCall, elect_call, renew_call, grant_call, alive_call, serve, serve_all,
}
use mutsuki_distributed_host.Control.Epochs.{IsSound}
use mutsuki_distributed_host.Control.Leases.{elect-revokes, renew-authorizes}
use mutsuki_distributed_host.Control.Reigns.{elect-rises}
use mutsuki_distributed_host.Control.Fencing.{serve_all-IsSound, issue_grant-fences}
use mutsuki_distributed_host.Examples.Sample.{task_name}

abbrev node_a : Text
node_a = 97 ∷ []

abbrev node_b : Text
node_b = 98 ∷ []

abbrev node_w : Text
node_w = 119 ∷ []

abbrev summary_of : Text → MemberPulseSummary
summary_of node = record {
  node_id = node;
  capability_version = 1;
  resource_version = 1;
  pressure_bucket = 0;
  health = healthy;
}

abbrev detector : FailureDetector
detector = record {
  members = [];
  max_members = 2;
  suspect_after_ticks = 3;
  dead_after_ticks = 6;
  active_interval_ticks = 1;
  stable_interval_ticks = 4;
}

-- The other member is registered and heard, and time passes.
abbrev others : List DetectorCall
others =
    register_call (summary_of node_b) 2 ∷ advance_call 5 ∷ pulse_call (summary_of node_b) 6 ∷ []

silent-dead_example :
    health_of node_a (advance 7 (watch_all others (register_full (summary_of node_a) 1 detector).0))
    ≡ some dead
unfolding register_full get
silent-dead_example =
    silent-dead (summary_of node_a) 1 7 detector others refl (text_apart, (tt, (text_apart, tt)))
      (omega arith)
  where
    text_apart : node_b ≢ node_a
    text_apart = ground arith

watch_all-IsBounded_example : IsBounded (watch_all others detector)
watch_all-IsBounded_example = watch_all-IsBounded others detector (omega arith)

abbrev fresh_snapshot : ControlNodeSnapshot
fresh_snapshot = record {
  node_id = node_a;
  kind = full;
  role = follower_role;
  current_term = 0;
  voted_for = none;
  log = [];
}

abbrev node_with : ControlNodeSnapshot → ControlNode
node_with snapshot = record { snapshot = snapshot; file = snapshot; alive = true }

-- Two full nodes and a witness.
abbrev cluster : ReferenceCftModel
cluster = record {
  nodes =
      (node_a, node_with fresh_snapshot)
      ∷ (node_b, node_with (record fresh_snapshot { node_id = node_b }))
      ∷ (
        node_w,
        node_with
            (record fresh_snapshot { node_id = node_w; kind = witness_node; role = witness_role }),
      )
      ∷ [];
  links = [];
  leader = none;
  control_lease = none;
  current_epoch = 0;
  grants = [];
  uncommitted_results = [];
  disk = [];
}

abbrev record_json : ControlRecord → Option Bytes
record_json entry = some entry.record_id

abbrev led : ReferenceCftModel
led = serve_all record_json (elect_call node_a ∷ renew_call node_a 1 10 ∷ []) cluster

abbrev entry : ControlRecord
entry = record { record_id = task_name; kind = global_task; metadata = [] }

propose-leaves_example : LeavesAllOrNone node_a entry led (propose record_json node_a entry led)
propose-leaves_example = propose-leaves record_json node_a entry led

abbrev granting : List ControlCall
granting =
    elect_call node_a ∷ renew_call node_a 1 10 ∷ grant_call node_a task_name 1 node_b 2 5 false ∷ []

serve_all-IsSound_example : IsSound (serve_all record_json granting cluster)
serve_all-IsSound_example =
    serve_all-IsSound record_json granting cluster (omega arith, tt, omega arith)

abbrev granted : ReferenceCftModel
granted = serve_all record_json granting cluster

granted-epoch : granted.current_epoch ≡ 1
unfolding serve_all serve get text_discrete ℕ_discrete
granted-epoch = refl

abbrev first_grant : ExecutionGrant
first_grant = record {
  global_task_id = task_name;
  attempt = 1;
  worker_node = node_b;
  term = 1;
  epoch = 1;
  issued_tick = 2;
  valid_until_tick = 7;
  irreversible_effects = false;
}

abbrev second_grant : ExecutionGrant
second_grant = record {
  global_task_id = task_name;
  attempt = 2;
  worker_node = node_a;
  term = 1;
  epoch = 2;
  issued_tick = 3;
  valid_until_tick = 8;
  irreversible_effects = true;
}

issue_grant-fences_example :
    validate_result first_grant 4 (
      serve_all record_json
        (alive_call node_b false ∷ [])
        (issue_grant record_json node_a task_name 2 node_a 3 5 true granted).0)
    ≢ ok tt
unfolding serve_all get serve text_discrete ℕ_discrete insert
issue_grant-fences_example =
    issue_grant-fences record_json node_a task_name 2 node_a 3 5 true granted first_grant
      second_grant (alive_call node_b false ∷ []) 4 serve_all-IsSound_example
      (omega (arith, granted-epoch)) refl refl refl

elect-rises_example : (1 < 2) ⊎ (2 ≡ u64_max)
unfolding elect get text_discrete ℕ_discrete connected serve_all serve insert
elect-rises_example =
    elect-rises record_json node_a node_b 1 2 cluster
      (renew_call node_a 1 10 ∷ alive_call node_a false ∷ [])
      (omega arith, (omega arith, (omega arith, tt))) refl refl

-- A node that comes back without `recover` takes the later entries only; its last index is the
-- leader's, and it is elected without the record that was committed while it was away.
abbrev other_entry : ControlRecord
other_entry = record { record_id = node_w; kind = global_task; metadata = [] }

abbrev comes_back : ReferenceCftModel
comes_back =
    serve_all record_json
      (elect_call node_a
        ∷ alive_call node_b false
        ∷ propose_call node_a entry
        ∷ alive_call node_b true
        ∷ propose_call node_a other_entry
        ∷ [])
      cluster

comes_back-elected : (elect node_b comes_back).1 ≡ ok 2
unfolding elect get serve_all serve text_discrete ℕ_discrete insert
comes_back-elected = refl

comes_back-logs :
    (committed_records node_a comes_back
      ≡ ok (
          record { index = 1; term = 1; epoch = 1; entry = entry }
          ∷ record { index = 2; term = 1; epoch = 2; entry = other_entry }
          ∷ []))
    × (committed_records node_b comes_back
        ≡ ok (record { index = 2; term = 1; epoch = 2; entry = other_entry } ∷ []))
unfolding committed_records get serve_all serve text_discrete ℕ_discrete insert
comes_back-logs = (refl, refl)

-- The leader proposes, and is elected again after a node was down.
abbrev later_calls : List ControlCall
later_calls = alive_call node_b false ∷ elect_call node_a ∷ propose_call node_a entry ∷ []

elect-revokes_example :
    authorize node_a durable_write none 5 (serve_all record_json later_calls (elect node_a led).0)
    ≢ ok tt
unfolding elect get serve_all serve text_discrete ℕ_discrete
elect-revokes_example =
    elect-revokes record_json node_a node_a 2 5 durable_write none led later_calls refl tt
      (tt, (tt, (tt, tt)))

abbrev elected : ReferenceCftModel
elected = serve_all record_json (elect_call node_a ∷ []) cluster

abbrev lease_of_a : ControlLease
lease_of_a = record { leader_node = node_a; term = 1; issued_tick = 1; valid_until_tick = 11 }

renew-authorizes_example :
    authorize node_a durable_write none 12 (renew_control_lease node_a 1 10 elected).0
    ≡ refuse_if (not (lease_is_valid_at lease_of_a 12)) control_lease_expired
unfolding renew_control_lease serve_all serve get text_discrete ℕ_discrete
renew-authorizes_example =
    renew-authorizes node_a 1 10 12 durable_write none elected lease_of_a refl tt
