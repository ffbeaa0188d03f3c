-- ===== src/Control/Repairs.antt =====
-- The terms of ha_control.rs when members fail, are cut off and are brought back.
use mutsuki_distributed_host.Base.{
  ℕ, ◌≤◌, ◌≡◌, ◌⊎◌, refl, ap, inl, inr, Bool, true, not, ◌||◌, none, some, if-either, u64_max,
  arith, ◌==◌, Option-cases,
}
use mutsuki_distributed_host.Base.Outcome.{Result, Result-cases}
use mutsuki_distributed_host.Base.Map.{
  Map, get, insert, keys, contains, text_key, ◌gives◌, All-insert, All-get,
}
use mutsuki_distributed_host.Contracts.{NodeId}
use mutsuki_distributed_host.Control.Types.{ControlLease}
use mutsuki_distributed_host.Control.Cluster.{
  ControlNode, ReferenceCftModel, persist_node, next_write, later_writes, without_leader, set_alive,
  set_links, isolate, caught_up, copy_leader, recover, connected, has_leader_quorum,
}
use mutsuki_distributed_host.Control.Authority.{renew_control_lease}
use mutsuki_distributed_host.Control.Terms.{term_of, TermsFit, HasTerm, persist_node-term}
use mutsuki_distributed_host.Control.Election.{Lead, IsLed, keep-leader, insert-HasTerm}

-- The same nodes, with the same leader or none.
same-IsLed :
    (term : ℕ) (m n : ReferenceCftModel)
    → n.nodes ≡ m.nodes
    → Lead m n
    → IsLed term m
    → IsLed term n
same-IsLed term m n same lead (fit, id, has, led) =
    (rw same fit, id, rw same has, keep-leader m n id lead led)

without_leader-Lead :
    (node : NodeId) (m n : ReferenceCftModel) → Lead m n → Lead m (without_leader node n)
without_leader-Lead node m n lead =
    if-either (λ (x : ReferenceCftModel). Lead m x) (n.leader gives node) (inr refl) lead

without_leader-IsLed :
    (node : NodeId) (term : ℕ) (m : ReferenceCftModel)
    → IsLed term m
    → IsLed term (without_leader node m)
without_leader-IsLed node term m led =
    if-either (λ (x : ReferenceCftModel). IsLed term x) (m.leader gives node)
      (same-IsLed term m (record m { leader = none; control_lease = none }) refl (inr refl) led) led

-- One node changed, with no lower a term where it counts.
change-IsLed :
    (term : ℕ) (k : NodeId) (node : ControlNode) (m n : ReferenceCftModel)
    → n.nodes ≡ insert k node m.nodes
    → n.leader ≡ m.leader
    → term_of node ≤ u64_max
    → ((id : NodeId)
        → (m.leader ≡ none) ⊎ (m.leader ≡ some id)
        → HasTerm id term m.nodes
        → k ≡ id
        → term ≤ term_of node)
    → IsLed term m
    → IsLed term n
change-IsLed term k node m n nodes leader fits low (fit, id, has, led) = (
  rw nodes (All-insert (λ e. term_of e.1 ≤ u64_max) k node m.nodes fits fit),
  id,
  rw nodes (insert-HasTerm id k term node m.nodes (low id led has) has),
  keep-leader m n id (inl leader) led,
)

found-fits :
    (k : NodeId) (nodes : Map NodeId ControlNode) (node : ControlNode)
    → TermsFit nodes
    → get k nodes ≡ some node
    → term_of node ≤ u64_max
found-fits k nodes node fit found = All-get (λ e. term_of e.1 ≤ u64_max) k nodes fit found

found-term :
    (k id : NodeId) (term : ℕ) (nodes : Map NodeId ControlNode) (node : ControlNode)
    → get k nodes ≡ some node
    → k ≡ id
    → HasTerm id term nodes
    → term ≤ term_of node
found-term k id term nodes node found same (old, stored, low) =
    let e : old ≡ node = cc (stored, found, same) in omega (arith, ap term_of e)

pub set_alive-IsLed :
    (node : NodeId) (alive : Bool) (term : ℕ) (m : ReferenceCftModel)
    → IsLed term m
    → IsLed term (set_alive node alive m).0
unfolding set_alive
set_alive-IsLed node alive term m led = elim (Option-cases (get node m.nodes)) [
  | inl e ↦ rw (e, set_alive) led
  | inr (found, e) ↦
      let new : ControlNode = record found { alive = alive } in
      let changed : ReferenceCftModel = record m { nodes = insert node new m.nodes } in
      let after : IsLed term changed =
        change-IsLed term node new m changed refl refl (found-fits node m.nodes found led.0 e)
          (λ id leads has same. found-term node id term m.nodes found e same has) led in
      rw (e, set_alive)
        (if-either (λ (x : ReferenceCftModel). IsLed term x) alive after
          (without_leader-IsLed node term changed after))
]

pub isolate-IsLed :
    (node : NodeId) (cut : Bool) (term : ℕ) (m : ReferenceCftModel)
    → IsLed term m
    → IsLed term (isolate node cut m).0
unfolding isolate
isolate-IsLed node cut term m led =
    let changed : ReferenceCftModel = record m {
      links = set_links node (not cut) (keys m.nodes) m.links;
    } in
    let after : IsLed term changed = same-IsLed term m changed refl (inl refl) led in
    if-either (λ (x : ReferenceCftModel × Result (Unit {0})). IsLed term x.0)
      (contains node m.nodes)
      (if-either (λ (x : ReferenceCftModel). IsLed term x) cut
        (without_leader-IsLed node term changed after) after)
      led

copy_leader-IsLed :
    (node leader : NodeId) (term : ℕ) (m : ReferenceCftModel)
    → m.leader ≡ some leader
    → IsLed term m
    → IsLed term (copy_leader node leader m).0
unfolding copy_leader
copy_leader-IsLed node leader term m leads led = elim (Option-cases (get leader m.nodes)) [
  | inl e ↦ rw (e, copy_leader) led
  | inr (found, e) ↦ elim (Option-cases (get node m.nodes)) [
    | inl e' ↦ rw (e, copy_leader, e') led
    | inr (own, e') ↦
        let new : ControlNode = (persist_node (next_write m.disk) (caught_up leader found own)).0 in
        let same : term_of new ≡ term_of found =
          persist_node-term (next_write m.disk) (caught_up leader found own) in
        rw (e, copy_leader, e')
          (change-IsLed term node new m
            (record m { nodes = insert node new m.nodes; disk = later_writes m.disk }) refl refl
            (omega (arith, same, found-fits leader m.nodes found led.0 e))
            (copied leader term m found new e leads same) led)
  ]
]
  where
    copied :
        (leader : NodeId) (term : ℕ) (m : ReferenceCftModel) (found new : ControlNode)
        → get leader m.nodes ≡ some found
        → m.leader ≡ some leader
        → term_of new ≡ term_of found
        → {k : NodeId} (id : NodeId) → (m.leader ≡ none) ⊎ (m.leader ≡ some id)
        → HasTerm id term m.nodes
        → k ≡ id
        → term ≤ term_of new
    copied leader term m found new e leads same id (inl gone) has h = absurd (cc (gone, leads))
    copied leader term m found new e leads same id (inr other) has h =
        let one : leader ≡ id = cc (leads, other) in
        omega (arith, same, found-term leader id term m.nodes found e one has)

pub recover-IsLed :
    (node : NodeId) (term : ℕ) (m : ReferenceCftModel)
    → IsLed term m
    → IsLed term (recover node m).0
unfolding recover
recover-IsLed node term m led =
    let up : ReferenceCftModel × Result (Unit {0}) = set_alive node true m in
    let after : IsLed term up.0 = set_alive-IsLed node true term m led in
    elim (Result-cases up.1) [
      | inr (e, bad) ↦ rw (bad, recover) after
      | inl (done, good) ↦ elim (Option-cases up.0.leader) [
        | inl e ↦ rw (good, recover, e) after
        | inr (leader, e) ↦
            rw (good, recover, e)
              (if-either (λ (x : ReferenceCftModel × Result (Unit {0})). IsLed term x.0)
                (connected up.0 node leader) (copy_leader-IsLed node leader term up.0 e after)
                after)
      ]
    ]

pub renew-IsLed :
    (leader : NodeId) (issued ticks term : ℕ) (m : ReferenceCftModel)
    → IsLed term m
    → IsLed term (renew_control_lease leader issued ticks m).0
unfolding renew_control_lease
renew-IsLed leader issued ticks term m led =
    if-either (λ (x : ReferenceCftModel × Result ControlLease). IsLed term x.0)
      (ticks == 0 || not (has_leader_quorum m leader)) led led
