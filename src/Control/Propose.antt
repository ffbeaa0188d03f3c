-- ===== src/Control/Propose.antt =====
-- Proposals of ha_control.rs: a record goes to the logs of the nodes that the leader reaches, and
-- stays there if a quorum of them could write it.
use mutsuki_distributed_host.Base.{
  ℕ, suc, Bool, true, false, not, ◌&&◌, ◌||◌, List, [], ◌∷◌, ◌++◌, Option, none, some, Bytes, ltb,
  if◌then◌else◌, length, sat_add,
}
use mutsuki_distributed_host.Base.Outcome.{
  Result, ok, err, ◌>>=◌, ◌>>◌, refuse_if, or_fail, worker_unavailable, quorum_lost, not_leader,
  corrupt, capacity_exceeded,
}
use mutsuki_distributed_host.Base.Map.{Map, get, text_key, ◌gives◌}
use mutsuki_distributed_host.Contracts.{NodeId}
use mutsuki_distributed_host.Control.Types.{ControlRecord, CommittedControlRecord, durable_write}
use mutsuki_distributed_host.Control.Cluster.{
  ControlNode, ReferenceCftModel, connected, has_leader_quorum, current_term, quorum_size,
  persist_node, next_write, later_writes, last_index, is_alive,
}
use mutsuki_distributed_host.Control.Authority.{authorize}

-- `MAX_CONSENSUS_RECORD_BYTES`.
abbrev pub max_consensus_record_bytes : ℕ
max_consensus_record_bytes = 65536

-- `Vec::pop`.
abbrev pub without_last {ℓ} : {A : Type ℓ} → List A → List A
without_last [] = []
without_last (x ∷ []) = []
without_last (x ∷ y ∷ xs) = x ∷ without_last (y ∷ xs)

abbrev pub push_log : CommittedControlRecord → ControlNode → ControlNode
push_log committed node = record node {
  snapshot = record node.snapshot { log = node.snapshot.log ++ committed ∷ [] };
}

abbrev pub pop_log : ControlNode → ControlNode
pop_log node = record node {
  snapshot = record node.snapshot { log = without_last node.snapshot.log };
}

-- A node after the push and its write: the entry goes again where the write failed. The Boolean
-- says whether it stayed.
unfoldable pub write_entry : CommittedControlRecord → Bool → ControlNode → ControlNode × Bool
unfolding persist_node
write_entry committed works node =
    let written = persist_node works (push_log committed node) in
    if works then (written.0, true) else (pop_log written.0, false)

-- The first loop, over the nodes with whether the leader reaches each: every node with whether it
-- wrote the entry.
unfoldable pub write_entries :
    (NodeId × ControlNode → Bool)
    → CommittedControlRecord
    → List Bool
    → Map NodeId ControlNode
    → Map NodeId (ControlNode × Bool) × List Bool
unfolding write_entry
write_entries reached committed disk [] = ([], disk)
write_entries reached committed disk ((id, node) ∷ nodes) =
    let here = write_entry committed (next_write disk) node in
    let rest = write_entries reached committed (later_writes disk) nodes in
    let others = write_entries reached committed disk nodes in
    if reached (id, node)
    then ((id, here) ∷ rest.0, rest.1)
    else ((id, (node, false)) ∷ others.0, others.1)

abbrev pub count_written : Map NodeId (ControlNode × Bool) → ℕ
count_written [] = 0
count_written ((id, (node, wrote)) ∷ nodes) =
    let rest = count_written nodes in if wrote then suc rest else rest

abbrev pub written_nodes : Map NodeId (ControlNode × Bool) → Map NodeId ControlNode
written_nodes [] = []
written_nodes ((id, (node, wrote)) ∷ nodes) = (id, node) ∷ written_nodes nodes

-- The second loop, where no quorum wrote the entry: those that did drop it, whatever comes of the
-- write.
unfoldable pub withdraw :
    List Bool → Map NodeId (ControlNode × Bool) → Map NodeId ControlNode × List Bool
unfolding persist_node
withdraw disk [] = ([], disk)
withdraw disk ((id, (node, true)) ∷ nodes) =
    let rest = withdraw (later_writes disk) nodes in
    ((id, (persist_node (next_write disk) (pop_log node)).0) ∷ rest.0, rest.1)
withdraw disk ((id, (node, false)) ∷ nodes) =
    let rest = withdraw disk nodes in ((id, node) ∷ rest.0, rest.1)

unfoldable pub finish_proposal :
    CommittedControlRecord
    → ReferenceCftModel
    → Map NodeId (ControlNode × Bool) × List Bool
    → ReferenceCftModel × Result CommittedControlRecord
unfolding withdraw
finish_proposal committed m (entries, disk) =
    let undone = withdraw disk entries in
    if ltb (count_written entries) (quorum_size m)
    then (record m { nodes = undone.0; disk = undone.1 }, err quorum_lost)
    else (
      record m { nodes = written_nodes entries; disk = disk; current_epoch = committed.epoch },
      ok committed,
    )

abbrev pub entry_for : ControlNode → ControlRecord → ReferenceCftModel → CommittedControlRecord
entry_for leader control_record m = record {
  index = sat_add (last_index leader) 1;
  term = current_term m;
  epoch = sat_add m.current_epoch 1;
  entry = control_record;
}

abbrev pub reached_by : ReferenceCftModel → NodeId → NodeId × ControlNode → Bool
reached_by m leader e = e.1.alive && connected m leader e.0

-- The JSON of a control record by serde_json.
module _ (record_json : ControlRecord → Option Bytes) where
  -- The guards, and the entry.
  unfoldable pub check_proposal :
      NodeId → ControlRecord → ReferenceCftModel → Result CommittedControlRecord
  unfolding has_leader_quorum current_term
  check_proposal leader control_record m = do
    refuse_if (not (m.leader gives leader)) not_leader
    refuse_if (not (has_leader_quorum m leader)) quorum_lost
    encoded ← or_fail (record_json control_record) corrupt
    refuse_if (ltb max_consensus_record_bytes (length encoded)) capacity_exceeded
    node ← or_fail (get leader m.nodes) worker_unavailable
    ok (entry_for node control_record m)

  unfoldable pub propose :
      NodeId → ControlRecord → ReferenceCftModel → ReferenceCftModel × Result CommittedControlRecord
  unfolding check_proposal finish_proposal write_entries
  propose leader control_record m = elim (check_proposal leader control_record m) [
    | err e ↦ (m, err e)
    | ok committed ↦
        finish_proposal committed m (write_entries (reached_by m leader) committed m.disk m.nodes)
  ]

  unfoldable pub propose_from :
      NodeId
      → ControlRecord
      → ℕ
      → ReferenceCftModel
      → ReferenceCftModel × Result CommittedControlRecord
  unfolding propose authorize connected
  propose_from ingress control_record tick m = elim m.leader [
    | none ↦ (m, err not_leader)
    | some leader ↦
        if not (connected m ingress leader) || not (is_alive m ingress)
        then (m, err not_leader)
        else elim (authorize leader durable_write none tick m) [
          | err e ↦ (m, err e)
          | ok done ↦ propose leader control_record m
        ]
  ]

unfoldable pub committed_records : NodeId → ReferenceCftModel → Result (List CommittedControlRecord)
committed_records node m = elim (get node m.nodes) [
  | none ↦ err worker_unavailable
  | some found ↦ ok found.snapshot.log
]
