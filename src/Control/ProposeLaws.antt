-- ===== src/Control/ProposeLaws.antt =====
-- What a proposal of ha_control.rs leaves in the logs.
use mutsuki_distributed_host.Base.{
  ℕ, suc, ◌+◌, ◌<◌, ◌≡◌, subst, sat_add, Option-cases, refl, ap, ◌∙◌, inl, inr, Bool, true, false,
  List, [], ◌∷◌, ◌++◌, Option, some, Bytes, ltb, if◌then◌else◌, last?, map, arith, Bool-cases,
  if-cases,
}
use mutsuki_distributed_host.Base.Outcome.{Result, ok, err, Result-cases}
use mutsuki_distributed_host.Base.Map.{Map, get, text_key}
use mutsuki_distributed_host.Contracts.{NodeId}
use mutsuki_distributed_host.Control.Types.{ControlRecord, CommittedControlRecord}
use mutsuki_distributed_host.Control.Cluster.{
  ControlNodeSnapshot, ControlNode, ReferenceCftModel, quorum_size, voter_count, current_term,
  last_index, persist_node, next_write, later_writes,
}
use mutsuki_distributed_host.Control.Propose.{
  without_last, push_log, pop_log, write_entry, write_entries, count_written, written_nodes,
  withdraw, finish_proposal, reached_by, check_proposal, propose, entry_for,
}

without_last-snoc {ℓ} : {A : Type ℓ} (xs : List A) (x : A) → without_last (xs ++ x ∷ []) ≡ xs
without_last-snoc [] x = refl
without_last-snoc (y ∷ []) x = refl
without_last-snoc (y ∷ z ∷ xs) x = ap (◌∷◌ y) (without_last-snoc (z ∷ xs) x)

abbrev with_log : ControlNodeSnapshot → List CommittedControlRecord → ControlNodeSnapshot
with_log snapshot log = record snapshot { log = log }

-- The snapshots in memory.
abbrev pub memory : Map NodeId ControlNode → List (NodeId × ControlNodeSnapshot)
memory = map (λ e. (e.0, e.1.snapshot))

pop-push :
    (c : CommittedControlRecord) (node : ControlNode)
    → (pop_log (push_log c node)).snapshot ≡ node.snapshot
pop-push c node = ap (with_log node.snapshot) (without_last-snoc node.snapshot.log c)

write_entry-refused :
    (c : CommittedControlRecord) (node : ControlNode)
    → (write_entry c false node).0.snapshot ≡ node.snapshot
unfolding write_entry persist_node
write_entry-refused c node = pop-push c node

withdraw-written :
    (c : CommittedControlRecord) (works : Bool) (node : ControlNode)
    → (persist_node works (pop_log (write_entry c true node).0)).0.snapshot ≡ node.snapshot
unfolding write_entry persist_node
withdraw-written c true node = pop-push c node
withdraw-written c false node = pop-push c node

abbrev more_memory :
    NodeId
    → ControlNodeSnapshot
    → List (NodeId × ControlNodeSnapshot)
    → List (NodeId × ControlNodeSnapshot)
more_memory id snapshot rest = (id, snapshot) ∷ rest

withdraw-entry :
    (c : CommittedControlRecord) (works : Bool) (id : NodeId) (node : ControlNode)
    (disk : List Bool) (rest : Map NodeId (ControlNode × Bool))
    → memory (withdraw disk ((id, write_entry c works node) ∷ rest)).0
      ≡ more_memory id node.snapshot
          (memory (withdraw (if works then later_writes disk else disk) rest).0)
unfolding withdraw write_entry
withdraw-entry c true id node disk rest =
    ap (λ s. more_memory id s (memory (withdraw (later_writes disk) rest).0))
      (withdraw-written c (next_write disk) node)
withdraw-entry c false id node disk rest =
    ap (λ s. more_memory id s (memory (withdraw disk rest).0)) (write_entry-refused c node)

-- Withdrawn, an entry leaves no trace in memory.
pub withdraw-memory :
    (reached : NodeId × ControlNode → Bool) (c : CommittedControlRecord) (disk disk' : List Bool)
    (nodes : Map NodeId ControlNode)
    → memory (withdraw disk' (write_entries reached c disk nodes).0).0 ≡ memory nodes
unfolding write_entries withdraw
withdraw-memory reached c disk disk' [] = refl
withdraw-memory reached c disk disk' ((id, node) ∷ nodes) = elim (Bool-cases (reached (id, node))) [
  | inr e ↦ rw e (ap (more_memory id node.snapshot) (withdraw-memory reached c disk disk' nodes))
  | inl e ↦ rw e (
      withdraw-entry c (next_write disk) id node disk'
        (write_entries reached c (later_writes disk) nodes).0
      ∙ ap (more_memory id node.snapshot) (
          withdraw-memory reached c (later_writes disk)
            (if next_write disk then later_writes disk' else disk') nodes))
]

-- The nodes whose log ends with the entry, in memory and in the file.
abbrev pub HoldsEntry : CommittedControlRecord → ControlNode → Type 0
HoldsEntry c node = (last? node.snapshot.log ≡ some c) × (last? node.file.log ≡ some c)

-- As many nodes as a number hold the entry.
pub data Hold (c : CommittedControlRecord) : ℕ → Map NodeId ControlNode → Type 0 where
  none_left : Hold c 0 []
  holds_here :
      {n : ℕ} {id : NodeId} {node : ControlNode} {nodes : Map NodeId ControlNode}
      → HoldsEntry c node
      → Hold c n nodes
      → Hold c (suc n) ((id, node) ∷ nodes)
  passes_by :
      {n : ℕ} {id : NodeId} {node : ControlNode} {nodes : Map NodeId ControlNode}
      → Hold c n nodes
      → Hold c n ((id, node) ∷ nodes)

last-snoc {ℓ} : {A : Type ℓ} (xs : List A) (x : A) → last? (xs ++ x ∷ []) ≡ some x
last-snoc [] x = refl
last-snoc (y ∷ []) x = refl
last-snoc (y ∷ z ∷ xs) x = last-snoc (z ∷ xs) x

Hold-entry :
    (c : CommittedControlRecord) (works : Bool) (id : NodeId) (node : ControlNode)
    (rest : Map NodeId (ControlNode × Bool))
    → Hold c (count_written rest) (written_nodes rest)
    → Hold c
        (count_written ((id, write_entry c works node) ∷ rest))
        (written_nodes ((id, write_entry c works node) ∷ rest))
unfolding write_entry persist_node
Hold-entry c true id node rest h =
    holds_here (last-snoc node.snapshot.log c, last-snoc node.snapshot.log c) h
Hold-entry c false id node rest h = passes_by h

write_entries-Hold :
    (reached : NodeId × ControlNode → Bool) (c : CommittedControlRecord) (disk : List Bool)
    (nodes : Map NodeId ControlNode)
    → let entries = (write_entries reached c disk nodes).0 in
      Hold c (count_written entries) (written_nodes entries)
unfolding write_entries
write_entries-Hold reached c disk [] = none_left
write_entries-Hold reached c disk ((id, node) ∷ nodes) = elim (Bool-cases (reached (id, node))) [
  | inr e ↦ rw e (passes_by (write_entries-Hold reached c disk nodes))
  | inl e ↦ rw e (
      Hold-entry c (next_write disk) id node (write_entries reached c (later_writes disk) nodes).0
        (write_entries-Hold reached c (later_writes disk) nodes))
]

-- A majority of the voters.
abbrev pub IsMajority : ReferenceCftModel → ℕ → Type 0
IsMajority m n = voter_count m < n + n

-- The entry of a proposal: the record as it was proposed, behind the last entry of the leader, in
-- the term of the leader and the next epoch.
abbrev pub IsEntryOf : NodeId → ControlRecord → ReferenceCftModel → CommittedControlRecord → Type 0
IsEntryOf leader control_record m c =
    (c.entry ≡ control_record)
    × (c.term ≡ current_term m)
    × (c.epoch ≡ sat_add m.current_epoch 1)
    × (node : ControlNode) × (get leader m.nodes ≡ some node)
    × (c.index ≡ sat_add (last_index node) 1)

-- What a proposal leaves: where it is accepted, a majority of the nodes hold its entry, and the
-- epoch of the entry is the current one; where it fails, every log in memory, with the rest of the
-- snapshots, and the epoch are as before.
abbrev pub LeavesAllOrNone :
    NodeId
    → ControlRecord
    → ReferenceCftModel
    → ReferenceCftModel × Result CommittedControlRecord
    → Type 0
LeavesAllOrNone leader control_record m (after, ok c) =
    IsEntryOf leader control_record m c
    × (n : ℕ) × (IsMajority m n)
    × Hold c n after.nodes
    × (after.current_epoch ≡ c.epoch)
LeavesAllOrNone leader control_record m (after, err e) =
    (memory after.nodes ≡ memory m.nodes) × (after.current_epoch ≡ m.current_epoch)

finish_proposal-leaves :
    (leader : NodeId) (control_record : ControlRecord) (reached : NodeId × ControlNode → Bool)
    (c : CommittedControlRecord) (m : ReferenceCftModel)
    → IsEntryOf leader control_record m c
    → LeavesAllOrNone leader control_record m
        (finish_proposal c m (write_entries reached c m.disk m.nodes))
unfolding finish_proposal
finish_proposal-leaves leader control_record reached c m entry =
    let entries = (write_entries reached c m.disk m.nodes).0 in
    let disk = (write_entries reached c m.disk m.nodes).1 in
    if-cases (LeavesAllOrNone leader control_record m) (ltb (count_written entries) (quorum_size m))
      (λ few. (withdraw-memory reached c m.disk disk m.nodes, refl))
      (λ enough. (
        entry,
        count_written entries,
        ground (arith, enough),
        write_entries-Hold reached c m.disk m.nodes,
        refl,
      ))

module _ (record_json : ControlRecord → Option Bytes) where
  check_proposal-IsEntryOf :
      (leader : NodeId) (control_record : ControlRecord) (m : ReferenceCftModel)
      (c : CommittedControlRecord)
      → check_proposal record_json leader control_record m ≡ ok c
      → IsEntryOf leader control_record m c
  unfolding check_proposal
  check_proposal-IsEntryOf leader control_record m c h =
      elim (Option-cases (record_json control_record)) [
        | inl bad ↦ absurd (ground arith)
        | inr (bytes, good) ↦ elim (Option-cases (get leader m.nodes)) [
          | inl bad ↦ absurd (ground arith)
          | inr (node, found) ↦
              let made : entry_for node control_record m ≡ c = ground arith in
              subst (IsEntryOf leader control_record m) made (refl, refl, refl, node, found, refl)
        ]
      ]

  -- A proposal is all or nothing: accepted, its entry, the record as proposed in the leader's term
  -- and the next epoch, stands last in the logs of a majority of the nodes, in memory and in their
  -- files; refused, it changes no snapshot in memory and not the epoch.
  pub propose-leaves :
      (leader : NodeId) (control_record : ControlRecord) (m : ReferenceCftModel)
      → LeavesAllOrNone leader control_record m (propose record_json leader control_record m)
  unfolding propose
  propose-leaves leader control_record m =
      elim (Result-cases (check_proposal record_json leader control_record m)) [
        | inr (e, h) ↦ rw (h, propose) (refl, refl)
        | inl (c, h) ↦
            rw (h, propose)
              (finish_proposal-leaves leader control_record (reached_by m leader) c m
                (check_proposal-IsEntryOf leader control_record m c h))
      ]
