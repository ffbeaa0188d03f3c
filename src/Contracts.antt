-- ===== src/Contracts.antt =====
-- The durable contracts: crates/mutsuki-distributed-contracts/src/durability.rs and the node and
-- task names of its lib.rs.
use mutsuki_distributed_host.Base.{
  ℕ, Bool, true, false, List, Option, Text, leb, any, filter, find_last, length,
}

-- The types of the crate mutsuki_runtime_contracts, which is not part of the repository: what a
-- registry record carries without looking inside, and the two fields of a content id it reads.
pub record RuntimeContracts : Type 1 where
  pub ContentId : Type 0
  pub content_discrete : Discrete ContentId
  pub digest : ContentId → Text
  pub size : ContentId → ℕ
  pub PortableTask : Type 0
  pub RequirementSet : Type 0
  pub TaskHandle : Type 0

-- The names of nodes and of global tasks are newtypes of `String`.
abbrev pub NodeId : Type 0
NodeId = Text

abbrev pub GlobalTaskId : Type 0
GlobalTaskId = Text

pub data AcceptanceMode : Type 0 where
  fast durable : AcceptanceMode
  critical : ℕ → AcceptanceMode

abbrev pub is_fast : AcceptanceMode → Bool
is_fast fast = true
is_fast _ = false

unfoldable pub minimum_metadata_copies : AcceptanceMode → ℕ
minimum_metadata_copies fast = 1
minimum_metadata_copies durable = 2
minimum_metadata_copies (critical minimum_replicas) = minimum_replicas

pub data GlobalTaskState : Type 0 where
  submitted persisted assigned running output_staged committed : GlobalTaskState
  failed cancelled recovery_required : GlobalTaskState

unfoldable pub GlobalTaskState-discrete : Discrete GlobalTaskState
GlobalTaskState-discrete = hlevel

unfoldable pub is_terminal : GlobalTaskState → Bool
is_terminal committed = true
is_terminal failed = true
is_terminal cancelled = true
is_terminal _ = false

pub record DurableTaskSpec (r : RuntimeContracts) : Type 0 where
  pub global_task_id : GlobalTaskId
  pub portable : r.PortableTask
  pub requirements : r.RequirementSet
  pub required_inputs : List r.ContentId
  pub requested_acceptance : AcceptanceMode

pub record DurableAttempt (r : RuntimeContracts) : Type 0 where
  pub attempt : ℕ
  pub node_id : NodeId
  pub local_handle : Option r.TaskHandle
  pub runner_generation : ℕ
  pub active : Bool

pub record StagedOutput (r : RuntimeContracts) : Type 0 where
  pub attempt : ℕ
  pub worker_node : NodeId
  pub content_id : r.ContentId
  pub verified_copies : ℕ

pub record ConflictOutput (r : RuntimeContracts) : Type 0 where
  pub attempt : ℕ
  pub worker_node : NodeId
  pub content_id : r.ContentId
  pub reason : Text

pub record DurableTaskRecord (r : RuntimeContracts) : Type 0 where
  pub spec : DurableTaskSpec r
  pub state : GlobalTaskState
  pub acceptance : AcceptanceMode
  pub metadata_copies : ℕ
  pub attempts : List (DurableAttempt r)
  pub staged_output : Option (StagedOutput r)
  pub committed_output : Option r.ContentId
  pub conflicts : List (ConflictOutput r)
  pub failure : Option Text

unfoldable pub active_attempt :
    {r : RuntimeContracts} → DurableTaskRecord r → Option (DurableAttempt r)
active_attempt record' = find_last (λ a. a.active) record'.attempts

pub record MetadataCommitProof : Type 0 where
  pub replica_id : Text
  pub transaction_id : Text
  pub log_index : ℕ

pub record AcceptanceReceipt : Type 0 where
  pub global_task_id : GlobalTaskId
  pub requested : AcceptanceMode
  pub actual : AcceptanceMode
  pub state : GlobalTaskState
  pub metadata_copies : ℕ
  pub input_copies : ℕ
  pub transaction_id : Text
  pub log_index : ℕ
  pub replica_commits : List MetadataCommitProof

pub data ResourcePolicy : Type 0 where
  ephemeral reconstructible : ResourcePolicy
  replicated : ℕ → ResourcePolicy
  external_durable : ResourcePolicy

pub record ChunkDescriptor : Type 0 where
  pub index : ℕ
  pub digest : Text
  pub size : ℕ

pub record ContentManifest (r : RuntimeContracts) : Type 0 where
  pub content_id : r.ContentId
  pub chunk_size : ℕ
  pub chunks : List ChunkDescriptor
  pub policy : ResourcePolicy

pub data ReplicaTarget : Type 0 where
  node : NodeId → ReplicaTarget
  external : Text → ReplicaTarget

pub data ReplicaHealth : Type 0 where
  pending healthy damaged missing : ReplicaHealth

abbrev pub is_healthy : ReplicaHealth → Bool
is_healthy healthy = true
is_healthy _ = false

abbrev pub is_external : ReplicaTarget → Bool
is_external (external name) = true
is_external (node name) = false

pub record ReplicaRecord : Type 0 where
  pub target : ReplicaTarget
  pub health : ReplicaHealth
  pub verified_at_epoch : ℕ

pub record ResourceCatalogRecord (r : RuntimeContracts) : Type 0 where
  pub manifest : ContentManifest r
  pub replicas : List ReplicaRecord
  pub reference_count : ℕ
  pub retain_until_epoch : ℕ
  pub repair_required : Bool

unfoldable pub healthy_copies : {r : RuntimeContracts} → ResourceCatalogRecord r → ℕ
healthy_copies record' = length (filter (λ c. is_healthy c.health) record'.replicas)

-- A healthy replica outside the cluster.
abbrev pub is_external_healthy : ReplicaRecord → Bool
is_external_healthy replica = elim (is_external replica.target) [
  | true ↦ is_healthy replica.health
  | false ↦ false
]

abbrev pub recoverable_by : {r : RuntimeContracts} → ResourceCatalogRecord r → ResourcePolicy → Bool
recoverable_by record' ephemeral = false
recoverable_by record' reconstructible = true
recoverable_by record' (replicated minimum_replicas) = leb minimum_replicas (healthy_copies record')
recoverable_by record' external_durable = any is_external_healthy record'.replicas

unfoldable pub is_recoverable : {r : RuntimeContracts} → ResourceCatalogRecord r → Bool
is_recoverable record' = recoverable_by record' record'.manifest.policy
