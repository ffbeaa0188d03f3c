-- ===== src/Control/Unchanged.antt =====
-- The calls of ha_control.rs that change no grant, no epoch and no uncommitted result.
use mutsuki_distributed_host.Base.{
  ℕ, refl, inl, inr, Bool, true, not, ◌||◌, List, ltb, ◌==◌, filter, if-either, length,
  Option-cases,
}
use mutsuki_distributed_host.Base.Outcome.{Result, ok, err, Result-cases}
use mutsuki_distributed_host.Base.Map.{Map, get, insert, text_key, ◌gives◌, keys, contains}
use mutsuki_distributed_host.Contracts.{NodeId}
use mutsuki_distributed_host.Control.Types.{ControlLease}
use mutsuki_distributed_host.Control.Cluster.{
  ControlNode, ReferenceCftModel, elect, set_alive, isolate, recover, copy_leader, finish_election,
  without_leader, connected, has_leader_quorum, quorum_size, is_full, votes_for, last_index,
  next_term, set_links,
}
use mutsuki_distributed_host.Control.Authority.{renew_control_lease}
use mutsuki_distributed_host.Control.Epochs.{SameGrants}

abbrev pub Same {ℓ} : {A : Type ℓ} → ReferenceCftModel → ReferenceCftModel × Result A → Type 0
Same m x = SameGrants m x.0

finish_election-Same :
    (candidate : NodeId) (term : ℕ) (m : ReferenceCftModel) (nodes : Map NodeId ControlNode)
    (disk : List Bool) (r : Result (Unit {0}))
    → Same m (finish_election candidate term m (nodes, disk, r))
unfolding finish_election
finish_election-Same candidate term m nodes disk (ok done) = (refl, refl, refl)
finish_election-Same candidate term m nodes disk (err e) = (refl, refl, refl)

pub elect-Same : (candidate : NodeId) (m : ReferenceCftModel) → Same m (elect candidate m)
unfolding elect
elect-Same candidate m = elim (Option-cases (get candidate m.nodes)) [
  | inl e ↦ rw (e, elect) (refl, refl, refl)
  | inr (node, e) ↦
      rw (e, elect)
        (if-either (λ (x : ReferenceCftModel × Result ℕ). Same m x)
          (not node.alive || not (is_full node.snapshot.kind)) (refl, refl, refl)
          (if-either (λ (x : ReferenceCftModel × Result ℕ). Same m x)
            (ltb (length (filter (votes_for m candidate (last_index node)) m.nodes))
              (quorum_size m))
            (refl, refl, refl) (finish_election-Same candidate (next_term m) m _ _ _)))
]

without_leader-Same :
    (node : NodeId) (m n : ReferenceCftModel)
    → SameGrants m n
    → SameGrants m (without_leader node n)
without_leader-Same node m n h =
    if-either (λ (x : ReferenceCftModel). SameGrants m x) (n.leader gives node) h h

pub set_alive-Same :
    (node : NodeId) (alive : Bool) (m : ReferenceCftModel) → Same m (set_alive node alive m)
unfolding set_alive
set_alive-Same node alive m = elim (Option-cases (get node m.nodes)) [
  | inl e ↦ rw (e, set_alive) (refl, refl, refl)
  | inr (found, e) ↦
      let changed = record m { nodes = insert node (record found { alive = alive }) m.nodes } in
      rw (e, set_alive)
        (if-either (λ (x : ReferenceCftModel). SameGrants m x) alive (refl, refl, refl)
          (without_leader-Same node m changed (refl, refl, refl)))
]

pub isolate-Same :
    (node : NodeId) (cut : Bool) (m : ReferenceCftModel) → Same m (isolate node cut m)
unfolding isolate
isolate-Same node cut m =
    let changed = record m { links = set_links node (not cut) (keys m.nodes) m.links } in
    if-either (λ (x : ReferenceCftModel × Result (Unit {0})). Same m x) (contains node m.nodes)
      (if-either (λ (x : ReferenceCftModel). SameGrants m x) cut
        (without_leader-Same node m changed (refl, refl, refl)) (refl, refl, refl))
      (refl, refl, refl)

copy_leader-Same :
    (node leader : NodeId) (m n : ReferenceCftModel)
    → SameGrants m n
    → Same m (copy_leader node leader n)
unfolding copy_leader
copy_leader-Same node leader m n h = elim (Option-cases (get leader n.nodes)) [
  | inl e ↦ rw (e, copy_leader) h
  | inr (found, e) ↦ elim (Option-cases (get node n.nodes)) [
    | inl e' ↦ rw (e, copy_leader, e') h
    | inr (own, e') ↦ rw (e, copy_leader, e') h
  ]
]

pub recover-Same : (node : NodeId) (m : ReferenceCftModel) → Same m (recover node m)
unfolding recover
recover-Same node m =
    let up : ReferenceCftModel × Result (Unit {0}) = set_alive node true m in
    let h : SameGrants m up.0 = set_alive-Same node true m in
    elim (Result-cases up.1) [
      | inr (e, bad) ↦ rw (bad, recover) h
      | inl (done, good) ↦ elim (Option-cases up.0.leader) [
        | inl e ↦ rw (good, recover, e) h
        | inr (leader, e) ↦
            rw (good, recover, e)
              (if-either (λ (x : ReferenceCftModel × Result (Unit {0})). Same m x)
                (connected up.0 node leader) (copy_leader-Same node leader m up.0 h) h)
      ]
    ]

pub renew-Same :
    (leader : NodeId) (issued ticks : ℕ) (m : ReferenceCftModel)
    → Same m (renew_control_lease leader issued ticks m)
unfolding renew_control_lease
renew-Same leader issued ticks m =
    if-either (λ (x : ReferenceCftModel × Result ControlLease). Same m x)
      (ticks == 0 || not (has_leader_quorum m leader)) (refl, refl, refl) (refl, refl, refl)
