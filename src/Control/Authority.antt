-- ===== src/Control/Authority.antt =====
-- What a member of ha_control.rs may do: availability, authorisation, the control lease and the
-- checks of a grant.
use mutsuki_distributed_host.Base.{
  ℕ, Bool, false, not, ◌&&◌, ◌||◌, Option, none, some, ltb, ◌==◌, if◌then◌else◌, holds, any,
  sat_add,
}
use mutsuki_distributed_host.Base.Outcome.{
  Result, ok, err, ◌>>◌, refuse_if, quorum_lost, grant_expired, fenced, control_lease_expired,
}
use mutsuki_distributed_host.Base.Map.{get, values, text_key, ◌is◌, ◌gives◌}
use mutsuki_distributed_host.Contracts.{NodeId}
use mutsuki_distributed_host.Control.Types.{
  ClusterAvailability, no_quorum, isolated_cluster, safe_stop, degraded, healthy_cluster, impaired,
  ControlOperation, query_only, local_work, continue_granted, durable_write, membership_change,
  generation_switch, irreversible_effect, ExecutionGrant, ControlLease, lease_is_valid_at,
  grant_is_valid_at,
}
use mutsuki_distributed_host.Control.Cluster.{
  ReferenceCftModel, connected, voter_count, quorum_size, reachable_voters, has_leader_quorum,
  current_term, grant_discrete,
}

-- Whether the grant of a task is this one.
abbrev pub is_grant : Option ExecutionGrant → ExecutionGrant → Bool
is_grant none grant = false
is_grant (some stored) grant = holds (grant_discrete stored grant)

unfoldable pub validate_grant : NodeId → ExecutionGrant → ℕ → ReferenceCftModel → Result (Unit {0})
unfolding grant_is_valid_at
validate_grant observer grant tick m = do
  refuse_if (not (grant.worker_node is observer) || not (grant_is_valid_at grant tick))
      grant_expired
  refuse_if (not (is_grant (get grant.global_task_id m.grants) grant)) fenced

unfoldable pub validate_result : ExecutionGrant → ℕ → ReferenceCftModel → Result (Unit {0})
unfolding grant_is_valid_at
validate_result grant tick m = do
  refuse_if (not (grant_is_valid_at grant tick)) grant_expired
  refuse_if (not (is_grant (get grant.global_task_id m.grants) grant)) fenced

unfoldable pub has_valid_grant_for : NodeId → ℕ → ReferenceCftModel → Bool
unfolding grant_is_valid_at
has_valid_grant_for node tick m =
    any (λ grant. grant.worker_node is node && grant_is_valid_at grant tick) (values m.grants)

abbrev pub without_quorum : Bool → Bool → ClusterAvailability
without_quorum leads granted =
    if leads then no_quorum else if granted then isolated_cluster else safe_stop

abbrev pub with_quorum : ℕ → ReferenceCftModel → ClusterAvailability
with_quorum reachable m =
    if reachable == voter_count m
    then healthy_cluster
    else if reachable == quorum_size m
    then degraded
    else impaired

unfoldable pub availability : NodeId → ℕ → ReferenceCftModel → ClusterAvailability
unfolding reachable_voters connected has_valid_grant_for
availability observer tick m = elim (get observer m.nodes) [
  | none ↦ safe_stop
  | some node ↦
      let reachable = reachable_voters m observer in
      if not node.alive
      then safe_stop
      else if ltb reachable (quorum_size m)
      then without_quorum (m.leader gives observer) (has_valid_grant_for observer tick m)
      else elim m.leader [
        | none ↦ degraded
        | some leader ↦
            if connected m observer leader then with_quorum reachable m else isolated_cluster
      ]
]

-- The lease of the leader in its term, at a tick.
unfoldable pub lease_holds : NodeId → ℕ → ReferenceCftModel → Bool
unfolding lease_is_valid_at current_term
lease_holds observer tick m = elim m.control_lease [
  | none ↦ false
  | some lease ↦
      lease.leader_node is observer && lease.term == current_term m && lease_is_valid_at lease tick
]

unfoldable pub authorize_write : NodeId → ℕ → ReferenceCftModel → Result (Unit {0})
unfolding has_leader_quorum lease_holds
authorize_write observer tick m =
    if has_leader_quorum m observer
    then refuse_if (not (lease_holds observer tick m)) control_lease_expired
    else err quorum_lost

unfoldable pub authorize :
    NodeId → ControlOperation → Option ExecutionGrant → ℕ → ReferenceCftModel → Result (Unit {0})
unfolding authorize_write validate_grant
authorize observer query_only grant tick m = ok tt
authorize observer local_work grant tick m = ok tt
authorize observer continue_granted none tick m = err grant_expired
authorize observer continue_granted (some grant) tick m = validate_grant observer grant tick m
authorize observer durable_write grant tick m = authorize_write observer tick m
authorize observer membership_change grant tick m = authorize_write observer tick m
authorize observer generation_switch grant tick m = authorize_write observer tick m
authorize observer irreversible_effect grant tick m = authorize_write observer tick m

abbrev pub new_lease : NodeId → ℕ → ℕ → ReferenceCftModel → ControlLease
new_lease leader issued_tick valid_for_ticks m = record {
  leader_node = leader;
  term = current_term m;
  issued_tick = issued_tick;
  valid_until_tick = sat_add issued_tick valid_for_ticks;
}

unfoldable pub renew_control_lease :
    NodeId → ℕ → ℕ → ReferenceCftModel → ReferenceCftModel × Result ControlLease
unfolding has_leader_quorum current_term
renew_control_lease leader issued_tick valid_for_ticks m =
    let lease = new_lease leader issued_tick valid_for_ticks m in
    if valid_for_ticks == 0 || not (has_leader_quorum m leader)
    then (m, err quorum_lost)
    else (record m { control_lease = some lease }, ok lease)
