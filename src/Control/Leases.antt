-- ===== src/Control/Leases.antt =====
-- The control lease of ha_control.rs: who may write, and when.
use mutsuki_distributed_host.Base.{
  ℕ, ◌≡◌, ◌≢◌, refl, sym, ◌∙◌, inl, inr, true, not, ◌||◌, Option, none, some, ltb, ◌==◌, if-either,
  if-cases, filter, length, arith, Option-cases, List, All, Bytes,
}
use mutsuki_distributed_host.Base.Outcome.{Result, ok, err, refuse_if, control_lease_expired}
use mutsuki_distributed_host.Base.Map.{get, text_key, is_self}
use mutsuki_distributed_host.Contracts.{NodeId}
use mutsuki_distributed_host.Control.Types.{
  ControlRecord, ControlOperation, query_only, local_work, continue_granted, durable_write,
  membership_change, generation_switch, irreversible_effect, ExecutionGrant, ControlLease,
  lease_is_valid_at,
}
use mutsuki_distributed_host.Control.Cluster.{
  ReferenceCftModel, cast_votes, votes_for, last_index, is_full, quorum_size, next_term,
  finish_election, elect, connected, has_leader_quorum, reachable_voters, current_term,
}
use mutsuki_distributed_host.Control.Terms.{Cast}
use mutsuki_distributed_host.Control.Calls.{ControlCall, serve_all}
use mutsuki_distributed_host.Control.Unleased.{IsNoRenewal, serve_all-Unleased}
use mutsuki_distributed_host.Control.Authority.{
  lease_holds, authorize_write, authorize, new_lease, renew_control_lease,
}

-- The operations that need the control lease.
abbrev pub IsWrite : ControlOperation → Type 0
IsWrite query_only = ⊥
IsWrite local_work = ⊥
IsWrite continue_granted = ⊥
IsWrite durable_write = Unit
IsWrite membership_change = Unit
IsWrite generation_switch = Unit
IsWrite irreversible_effect = Unit

authorize-write :
    (observer : NodeId) (operation : ControlOperation) (grant : Option ExecutionGrant) (tick : ℕ)
    (m : ReferenceCftModel)
    → IsWrite operation
    → authorize observer operation grant tick m ≡ authorize_write observer tick m
unfolding authorize
authorize-write observer query_only grant tick m w = absurd w
authorize-write observer local_work grant tick m w = absurd w
authorize-write observer continue_granted grant tick m w = absurd w
authorize-write observer durable_write grant tick m w = refl
authorize-write observer membership_change grant tick m w = refl
authorize-write observer generation_switch grant tick m w = refl
authorize-write observer irreversible_effect grant tick m w = refl

no_lease-refused :
    (observer : NodeId) (tick : ℕ) (m : ReferenceCftModel)
    → m.control_lease ≡ none
    → authorize_write observer tick m ≢ ok tt
unfolding authorize_write lease_holds
no_lease-refused observer tick m gone h = ground arith

abbrev Revoked : ReferenceCftModel × Result ℕ → Type 0
Revoked x = (term : ℕ) → x.1 ≡ ok term → x.0.control_lease ≡ none

finish_election-Revoked :
    (candidate : NodeId) (term : ℕ) (m : ReferenceCftModel) (cast : Cast)
    → Revoked (finish_election candidate term m cast)
unfolding finish_election
finish_election-Revoked candidate term m (nodes, disk, err e) = λ got h. absurd cc
finish_election-Revoked candidate term m (nodes, disk, ok done) = λ got h. refl

elect-Revoked : (candidate : NodeId) (m : ReferenceCftModel) → Revoked (elect candidate m)
unfolding elect
elect-Revoked candidate m = elim (Option-cases (get candidate m.nodes)) [
  | inl e ↦ rw (e, elect) (λ got h. absurd cc)
  | inr (node, e) ↦
      let votes = votes_for m candidate (last_index node) in
      let cast : Cast = cast_votes votes candidate (next_term m) m.disk m.nodes in
      rw (e, elect)
        (if-either (λ (x : ReferenceCftModel × Result ℕ). Revoked x)
          (not node.alive || not (is_full node.snapshot.kind)) (λ got h. absurd cc)
          (if-either (λ (x : ReferenceCftModel × Result ℕ). Revoked x)
            (ltb (length (filter votes m.nodes)) (quorum_size m)) (λ got h. absurd cc)
            (finish_election-Revoked candidate (next_term m) m cast)))
]

-- After an election that succeeds nobody may write, the new leader included, whatever calls follow
-- that are no renewal of the lease.
pub elect-revokes :
    (record_json : ControlRecord → Option Bytes) (candidate observer : NodeId) (term tick : ℕ)
    (operation : ControlOperation) (grant : Option ExecutionGrant) (m : ReferenceCftModel)
    (calls : List ControlCall)
    → (elect candidate m).1 ≡ ok term
    → IsWrite operation
    → All IsNoRenewal calls
    → authorize observer operation grant tick (serve_all record_json calls (elect candidate m).0)
      ≢ ok tt
elect-revokes record_json candidate observer term tick operation grant m calls won write others h =
    let later = serve_all record_json calls (elect candidate m).0 in
    no_lease-refused observer tick later
      (serve_all-Unleased record_json calls (elect candidate m).0 others
        (elect-Revoked candidate m term won))
      (sym (authorize-write observer operation grant tick later write) ∙ h)

abbrev leased : NodeId → ℕ → ℕ → ReferenceCftModel → ReferenceCftModel
leased leader issued ticks m = record m { control_lease = some (new_lease leader issued ticks m) }

abbrev Renewed :
    NodeId → ℕ → ℕ → ReferenceCftModel → ReferenceCftModel × Result ControlLease → Type 0
Renewed leader issued ticks m x =
    (lease : ControlLease)
    → x.1 ≡ ok lease
    → (has_leader_quorum m leader ≡ true)
      × (x.0 ≡ leased leader issued ticks m)
      × (lease ≡ new_lease leader issued ticks m)

renew-Renewed :
    (leader : NodeId) (issued ticks : ℕ) (m : ReferenceCftModel)
    → Renewed leader issued ticks m (renew_control_lease leader issued ticks m)
unfolding renew_control_lease
renew-Renewed leader issued ticks m =
    if-cases (Renewed leader issued ticks m) (ticks == 0 || not (has_leader_quorum m leader))
      (λ refused lease h. absurd cc) (λ let_in lease h. (ground (arith, let_in), refl, cc))

leased-quorum :
    (leader : NodeId) (issued ticks : ℕ) (m : ReferenceCftModel)
    → has_leader_quorum (leased leader issued ticks m) leader ≡ has_leader_quorum m leader
unfolding has_leader_quorum reachable_voters connected
leased-quorum leader issued ticks m = refl

leased-holds :
    (leader : NodeId) (issued ticks tick : ℕ) (m : ReferenceCftModel)
    → lease_holds leader tick (leased leader issued ticks m)
      ≡ lease_is_valid_at (new_lease leader issued ticks m) tick
unfolding lease_holds current_term
leased-holds leader issued ticks tick m = rw (is_self leader) (ground arith)

leased-authorizes :
    (leader : NodeId) (issued ticks tick : ℕ) (m : ReferenceCftModel)
    → has_leader_quorum m leader ≡ true
    → authorize_write leader tick (leased leader issued ticks m)
      ≡ refuse_if
          (not (lease_is_valid_at (new_lease leader issued ticks m) tick))
          control_lease_expired
unfolding authorize_write
leased-authorizes leader issued ticks tick m quorum =
    rw (leased-quorum leader issued ticks m, quorum, leased-holds leader issued ticks tick m) refl

-- After a renewal the leader may write exactly within the lease, while nothing else changes.
pub renew-authorizes :
    (leader : NodeId) (issued ticks tick : ℕ) (operation : ControlOperation)
    (grant : Option ExecutionGrant) (m : ReferenceCftModel) (lease : ControlLease)
    → (renew_control_lease leader issued ticks m).1 ≡ ok lease
    → IsWrite operation
    → authorize leader operation grant tick (renew_control_lease leader issued ticks m).0
      ≡ refuse_if (not (lease_is_valid_at lease tick)) control_lease_expired
renew-authorizes leader issued ticks tick operation grant m lease won write =
    let (quorum, after, same) = renew-Renewed leader issued ticks m lease won in
    authorize-write leader operation grant tick (renew_control_lease leader issued ticks m).0 write
    ∙ rw (after, same) (leased-authorizes leader issued ticks tick m quorum)
