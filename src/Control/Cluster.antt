-- ===== src/Control/Cluster.antt =====
-- The members, links and leader of `ReferenceCftModel` of ha_control.rs: reachability and quorum,
-- elections, failures and the control lease.
--
-- The file of a node holds its snapshot as last written; `disk` is a script of whether the next
-- writes succeed, and a write past its end succeeds. A write that fails leaves the file as it was.
use mutsuki_distributed_host.Base.{
  ℕ, ◌+◌, ◌/◌, Bool, true, false, not, ◌&&◌, ◌||◌, List, [], ◌∷◌, Option, none, some, leb, ltb,
  if◌then◌else◌, length, filter, last?, max, sat_add, ℕ_discrete, text_discrete, text_below,
}
use mutsuki_distributed_host.Base.Outcome.{
  Result, ok, err, storage, worker_unavailable, quorum_lost,
}
use mutsuki_distributed_host.Base.Map.{
  Map, Key, get, insert, contains, keys, text_key, ◌is◌, ◌gives◌,
}
use mutsuki_distributed_host.Contracts.{GlobalTaskId, NodeId}
use mutsuki_distributed_host.Control.Types.{
  ControlNodeKind, full, witness_node, ControlRole, leader_role, follower_role, witness_role,
  CommittedControlRecord, ExecutionGrant, ControlLease, ExecutedUncommittedResult,
}

pub record ControlNodeSnapshot : Type 0 where
  pub node_id : NodeId
  pub kind : ControlNodeKind
  pub role : ControlRole
  pub current_term : ℕ
  pub voted_for : Option NodeId
  pub log : List CommittedControlRecord

pub record ControlNode : Type 0 where
  pub snapshot : ControlNodeSnapshot
  pub file : ControlNodeSnapshot
  pub alive : Bool

pub record ReferenceCftModel : Type 0 where
  pub nodes : Map NodeId ControlNode
  pub links : Map (NodeId × NodeId) Bool
  pub leader : Option NodeId
  pub control_lease : Option ControlLease
  pub current_epoch : ℕ
  pub grants : Map GlobalTaskId ExecutionGrant
  pub uncommitted_results : List ExecutedUncommittedResult
  pub disk : List Bool

unfoldable pub pair_discrete : Discrete (NodeId × NodeId)
pair_discrete = hlevel text_discrete

instance abbrev pub link_order : Key (NodeId × NodeId)
link_order = record {
  discrete = pair_discrete;
  below = λ a b. text_below a.0 b.0 || (a.0 is b.0 && text_below a.1 b.1);
}

unfoldable pub grant_discrete : Discrete ExecutionGrant
grant_discrete = hlevel (ℕ_discrete, text_discrete)

abbrev pub last_index : ControlNode → ℕ
last_index node = elim (last? node.snapshot.log) [ none ↦ 0 | some entry ↦ entry.index ]

abbrev pub role_of : ControlNodeKind → ControlRole
role_of full = follower_role
role_of witness_node = witness_role

abbrev pub is_full : ControlNodeKind → Bool
is_full full = true
is_full witness_node = false

unfoldable pub link_key : NodeId → NodeId → NodeId × NodeId
link_key left right = if text_below right left then (right, left) else (left, right)

unfoldable pub connected : ReferenceCftModel → NodeId → NodeId → Bool
unfolding link_key
connected m left right =
    left is right || elim (get (link_key left right) m.links) [ none ↦ true | some up ↦ up ]

abbrev pub voter_count : ReferenceCftModel → ℕ
voter_count m = length m.nodes

abbrev pub quorum_size : ReferenceCftModel → ℕ
quorum_size m = voter_count m / 2 + 1

unfoldable pub reachable_voters : ReferenceCftModel → NodeId → ℕ
reachable_voters m observer = length (filter (λ e. e.1.alive && connected m observer e.0) m.nodes)

abbrev pub is_alive : ReferenceCftModel → NodeId → Bool
is_alive m node = elim (get node m.nodes) [ none ↦ false | some found ↦ found.alive ]

unfoldable pub has_leader_quorum : ReferenceCftModel → NodeId → Bool
unfolding reachable_voters
has_leader_quorum m observer =
    m.leader gives observer
    && is_alive m observer
    && leb (quorum_size m) (reachable_voters m observer)

unfoldable pub current_term : ReferenceCftModel → ℕ
current_term m = elim m.leader [
  | none ↦ 0
  | some leader ↦ elim (get leader m.nodes) [ none ↦ 0 | some node ↦ node.snapshot.current_term ]
]

unfoldable pub max_term : Map NodeId ControlNode → ℕ
max_term [] = 0
max_term ((id, node) ∷ nodes) = max node.snapshot.current_term (max_term nodes)

-- `persist` of a node. The file is the snapshot that its JSON holds; serde_json writes every snapshot,
-- since the keys of its maps are strings, so that `control_corrupt_error` is not reached here.
unfoldable pub persist_node : Bool → ControlNode → ControlNode × Result (Unit {0})
persist_node true node = (record node { file = node.snapshot }, ok tt)
persist_node false node = (node, err storage)

abbrev pub next_write : List Bool → Bool
next_write [] = true
next_write (works ∷ rest) = works

abbrev pub later_writes : List Bool → List Bool
later_writes [] = []
later_writes (works ∷ rest) = rest

abbrev pub vote_role : NodeId → ControlNodeSnapshot → ControlRole
vote_role candidate node =
    if is_full node.kind && node.node_id is candidate then leader_role else role_of node.kind

-- The vote of a node, in memory.
unfoldable pub take_vote : NodeId → ℕ → ControlNode → ControlNode
take_vote candidate term node = record node {
  snapshot = record node.snapshot {
    current_term = term;
    voted_for = some candidate;
    role = vote_role candidate node.snapshot;
  };
}

abbrev pub votes_for : ReferenceCftModel → NodeId → ℕ → NodeId × ControlNode → Bool
votes_for m candidate index e = e.1.alive && connected m candidate e.0 && leb (last_index e.1) index

-- A node after its vote and the write of it, which ends the loop where it failed.
unfoldable pub after_vote :
    NodeId
    → ControlNode × Result (Unit {0})
    → List Bool
    → Map NodeId ControlNode
    → Map NodeId ControlNode × List Bool × Result (Unit {0})
    → Map NodeId ControlNode × List Bool × Result (Unit {0})
after_vote id (node, err e) disk nodes rest = ((id, node) ∷ nodes, disk, err e)
after_vote id (node, ok done) disk nodes rest = ((id, node) ∷ rest.0, rest.1, rest.2)

-- The votes are cast in the order of the nodes.
unfoldable pub cast_votes :
    (NodeId × ControlNode → Bool)
    → NodeId
    → ℕ
    → List Bool
    → Map NodeId ControlNode
    → Map NodeId ControlNode × List Bool × Result (Unit {0})
unfolding take_vote persist_node after_vote
cast_votes votes candidate term disk [] = ([], disk, ok tt)
cast_votes votes candidate term disk ((id, node) ∷ nodes) =
    let voted = persist_node (next_write disk) (take_vote candidate term node) in
    let rest = cast_votes votes candidate term (later_writes disk) nodes in
    let others = cast_votes votes candidate term disk nodes in
    if votes (id, node)
    then after_vote id voted (later_writes disk) nodes rest
    else ((id, node) ∷ others.0, others.1, others.2)

-- After the votes.
unfoldable pub finish_election :
    NodeId
    → ℕ
    → ReferenceCftModel
    → Map NodeId ControlNode × List Bool × Result (Unit {0})
    → ReferenceCftModel × Result ℕ
finish_election candidate term m (nodes, disk, err e) =
    (record m { nodes = nodes; disk = disk }, err e)
finish_election candidate term m (nodes, disk, ok done) = (
  record m { nodes = nodes; disk = disk; leader = some candidate; control_lease = none },
  ok term,
)

abbrev pub next_term : ReferenceCftModel → ℕ
next_term m = sat_add (max_term m.nodes) 1

unfoldable pub elect : NodeId → ReferenceCftModel → ReferenceCftModel × Result ℕ
unfolding cast_votes finish_election max_term
elect candidate m = elim (get candidate m.nodes) [
  | none ↦ (m, err worker_unavailable)
  | some node ↦
      let votes = votes_for m candidate (last_index node) in
      let cast = cast_votes votes candidate (next_term m) m.disk m.nodes in
      if not node.alive || not (is_full node.snapshot.kind)
      then (m, err worker_unavailable)
      else if ltb (length (filter votes m.nodes)) (quorum_size m)
      then (record m { leader = none }, err quorum_lost)
      else finish_election candidate (next_term m) m cast
]

-- A leader that is gone leads no more.
abbrev pub without_leader : NodeId → ReferenceCftModel → ReferenceCftModel
without_leader node m =
    if m.leader gives node then record m { leader = none; control_lease = none } else m

unfoldable pub set_alive : NodeId → Bool → ReferenceCftModel → ReferenceCftModel × Result (Unit {0})
set_alive node alive m = elim (get node m.nodes) [
  | none ↦ (m, err worker_unavailable)
  | some found ↦
      let changed = record m { nodes = insert node (record found { alive = alive }) m.nodes } in
      (if alive then changed else without_leader node changed, ok tt)
]

unfoldable pub set_links :
    NodeId → Bool → List NodeId → Map (NodeId × NodeId) Bool → Map (NodeId × NodeId) Bool
unfolding link_key
set_links node up [] links = links
set_links node up (other ∷ others) links =
    set_links node up others
      (if other is node then links else insert (link_key node other) up links)

unfoldable pub isolate : NodeId → Bool → ReferenceCftModel → ReferenceCftModel × Result (Unit {0})
unfolding set_links
isolate node isolated m =
    let changed = record m { links = set_links node (not isolated) (keys m.nodes) m.links } in
    if contains node m.nodes
    then (if isolated then without_leader node changed else changed, ok tt)
    else (m, err worker_unavailable)

abbrev pub caught_up : NodeId → ControlNode → ControlNode → ControlNode
caught_up leader_id leader node = record node {
  snapshot = record node.snapshot {
    log = leader.snapshot.log;
    current_term = leader.snapshot.current_term;
    voted_for = some leader_id;
    role = role_of node.snapshot.kind;
  };
}

unfoldable pub copy_leader :
    NodeId → NodeId → ReferenceCftModel → ReferenceCftModel × Result (Unit {0})
unfolding persist_node
copy_leader node leader_id m = elim (get leader_id m.nodes) [
  | none ↦ (m, err worker_unavailable)
  | some leader ↦ elim (get node m.nodes) [
    | none ↦ (m, err worker_unavailable)
    | some found ↦
        let written = persist_node (next_write m.disk) (caught_up leader_id leader found) in
        (record m { nodes = insert node written.0 m.nodes; disk = later_writes m.disk }, written.1)
  ]
]

unfoldable pub recover : NodeId → ReferenceCftModel → ReferenceCftModel × Result (Unit {0})
unfolding set_alive copy_leader
recover node m =
    let up = set_alive node true m in
    elim up.1 [
      | err e ↦ (up.0, err e)
      | ok done ↦ elim up.0.leader [
        | none ↦ (up.0, ok tt)
        | some leader ↦
            if connected up.0 node leader then copy_leader node leader up.0 else (up.0, ok tt)
      ]
    ]

unfoldable pub node_role : NodeId → ReferenceCftModel → Result ControlRole
node_role node m = elim (get node m.nodes) [
  | none ↦ err worker_unavailable
  | some found ↦ ok found.snapshot.role
]
