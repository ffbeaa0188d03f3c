-- ===== src/Registry/Store.antt =====
-- The state of the registry of persistent_registry.rs: its write-ahead log, its snapshot and its
-- tables, with the writes to the two files.
--
-- Parameters stand for what lies outside the repository: the digest of sha2 and the JSON of
-- serde_json, with the round trip that reading relies on. A failing disk is a script: `disk` holds
-- the outcomes of the next writes, and a write past its end succeeds. Asking for the length of the
-- open log does not fail.
use mutsuki_distributed_host.Base.{
  ℕ, ◌*◌, ◌≡◌, Bool, ◌||◌, List, [], ◌∷◌, ◌++◌, Option, none, some, Text, Bytes, ltb, leb,
  if◌then◌else◌, length, take, is_some, u64_max, max,
}
use mutsuki_distributed_host.Base.Outcome.{
  Result, ok, err, ErrorKind, ◌>>=◌, ◌>>◌, refuse_if, or_fail, conflict, capacity_exceeded, storage,
  corrupt,
}
use mutsuki_distributed_host.Base.Map.{Map, get, text_key}
use mutsuki_distributed_host.Base.Encoding.{le_bytes, to_hex}
use mutsuki_distributed_host.Contracts.{
  RuntimeContracts, GlobalTaskId, DurableTaskRecord, MetadataCommitProof,
}
use mutsuki_distributed_host.Registry.Frame.{Sha256, snapshot, encode_frame, wal_version}
use mutsuki_distributed_host.Registry.Mutation.{RegistryMutation}

pub record RegistryOptions : Type 0 where
  pub max_tasks : ℕ
  pub max_record_bytes : ℕ
  pub compact_after_records : ℕ
  pub compact_after_bytes : ℕ

pub record PreparedPayload (r : RuntimeContracts) : Type 0 where
  pub transaction_id : Text
  pub log_index : ℕ
  pub previous_transaction_id : Text
  pub global_task_id : GlobalTaskId
  pub previous_version : ℕ
  pub new_version : ℕ
  pub mutation : RegistryMutation r

pub record RegistrySnapshot (r : RuntimeContracts) : Type 0 where
  pub format_version : ℕ
  pub last_included_log_index : ℕ
  pub last_transaction_id : Text
  pub records : Map GlobalTaskId (DurableTaskRecord r)
  pub versions : Map GlobalTaskId ℕ

-- serde_json and sha2, as the registry uses them. What was written as JSON is read back.
pub record Codec (r : RuntimeContracts) : Type 0 where
  pub sha : Sha256
  pub mutation_json : RegistryMutation r → Option Bytes
  pub prepared_json : PreparedPayload r → Option Bytes
  pub read_prepared : Bytes → Option (PreparedPayload r)
  pub read-prepared_json :
      (p : PreparedPayload r) (bytes : Bytes)
      → prepared_json p ≡ some bytes
      → read_prepared bytes ≡ some p
  pub snapshot_json : RegistrySnapshot r → Option Bytes
  pub read_snapshot : Bytes → Option (RegistrySnapshot r)
  pub read-snapshot_json :
      (s : RegistrySnapshot r) (bytes : Bytes)
      → snapshot_json s ≡ some bytes
      → read_snapshot bytes ≡ some s
  -- `PartialEq` of mutations, derived in the source over the types of mutsuki_runtime_contracts.
  pub mutation_discrete : Discrete (RegistryMutation r)

pub record MetadataTransaction : Type 0 where
  pub transaction_id : Text
  pub log_index : ℕ
  pub previous_version : ℕ
  pub prepare_payload : Bytes
  pub prepare_frame : Bytes
  pub commit_frame : Bytes

pub record ReplicaCommitAck : Type 0 where
  pub replica_id : Text
  pub transaction_id : Text
  pub log_index : ℕ

-- `trait MetadataReplica`, over the states of the replicas.
pub record MetadataReplica : Type 1 where
  pub Replica : Type 0
  pub replica_id : Replica → Text
  pub commit : MetadataTransaction → Bool → Replica → Replica × Result ReplicaCommitAck

pub data ReplicaCommitOutcome : Type 0 where
  committed : MetadataCommitProof → ReplicaCommitOutcome
  failed : ErrorKind → ReplicaCommitOutcome

pub record RegistryCommitReport : Type 0 where
  pub transaction_id : Text
  pub log_index : ℕ
  pub previous_version : ℕ
  pub local_committed : Bool
  pub required_replica_acks : ℕ
  pub replica_attempts : Map Text ReplicaCommitOutcome
  pub maintenance_error : Option ErrorKind

pub record PendingTransaction (r : RuntimeContracts) : Type 0 where
  pub metadata : MetadataTransaction
  pub prepared : PreparedPayload r
  pub resulting_record : DurableTaskRecord r
  pub proofs : Map Text MetadataCommitProof
  pub attempts : Map Text ReplicaCommitOutcome

pub record CommitProof : Type 0 where
  pub transaction_id : Text
  pub log_index : ℕ
  pub replica_commits : List MetadataCommitProof

-- How a write to the disk ends: done; refused with the file as it was; or refused, with so many
-- bytes left behind because the rollback failed too.
pub data DiskOutcome : Type 0 where
  written rolled_back : DiskOutcome
  torn : ℕ → DiskOutcome

pub record RegistryState (r : RuntimeContracts) (m : MetadataReplica) : Type 0 where
  pub wal : Bytes
  pub snapshot_file : Option Bytes
  pub disk : List DiskOutcome
  pub replicas : List m.Replica
  pub records : Map GlobalTaskId (DurableTaskRecord r)
  pub versions : Map GlobalTaskId ℕ
  pub last_log_index : ℕ
  pub last_transaction_id : Text
  pub wal_transactions : ℕ
  pub recovered_tail_bytes : ℕ
  pub pending : Option (PendingTransaction r)
  pub last_report : Option RegistryCommitReport

abbrev pub next_outcome : List DiskOutcome → DiskOutcome
next_outcome [] = written
next_outcome (o ∷ rest) = o

abbrev pub later_outcomes : List DiskOutcome → List DiskOutcome
later_outcomes [] = []
later_outcomes (o ∷ rest) = rest

-- `WalFile::append`: the file and the result.
unfoldable pub append_bytes : DiskOutcome → Bytes → Bytes → Bytes × Result (Unit {0})
append_bytes written wal frame = (wal ++ frame, ok tt)
append_bytes rolled_back wal frame = (wal, err storage)
append_bytes (torn n) wal frame = (wal ++ take n frame, err storage)

-- The number in a map of versions; an unknown task has version 0.
abbrev pub version_of : GlobalTaskId → Map GlobalTaskId ℕ → ℕ
version_of id versions = elim (get id versions) [ none ↦ 0 | some v ↦ v ]

unfoldable pub report_for :
    {r : RuntimeContracts}
    → PendingTransaction r
    → ℕ
    → Bool
    → Option ErrorKind
    → RegistryCommitReport
report_for pending acks local error = record {
  transaction_id = pending.metadata.transaction_id;
  log_index = pending.metadata.log_index;
  previous_version = pending.metadata.previous_version;
  local_committed = local;
  required_replica_acks = acks;
  replica_attempts = pending.attempts;
  maintenance_error = error;
}

module _ {r : RuntimeContracts} (c : Codec r) where
  -- The hash chain of the log.
  unfoldable pub transaction_id : Text → ℕ → ℕ → Bytes → Text
  transaction_id previous log_index previous_version mutation_bytes = to_hex (
      c.sha.digest
        (previous ++ (le_bytes 8 log_index ++ (le_bytes 8 previous_version ++ mutation_bytes))))

  unfoldable pub transaction_id_for_prepared : PreparedPayload r → Result Text
  transaction_id_for_prepared p = do
    mutation_bytes ← or_fail (c.mutation_json p.mutation) corrupt
    ok (transaction_id p.previous_transaction_id p.log_index p.previous_version mutation_bytes)

  -- The frame of a snapshot, within its limit.
  unfoldable pub snapshot_frame : ℕ → RegistrySnapshot r → Result Bytes
  snapshot_frame max_record_bytes s = do
    payload ← or_fail (c.snapshot_json s) corrupt
    let limit = max_record_bytes * max (length s.records) 1
    refuse_if (ltb u64_max limit || ltb limit (length payload)) capacity_exceeded
    encode_frame c.sha snapshot s.last_included_log_index payload

module _ {r : RuntimeContracts} {m : MetadataReplica} where
  unfoldable pub append_local : Bytes → RegistryState r m → RegistryState r m × Result (Unit {0})
  unfolding append_bytes
  append_local frame s =
      let appended = append_bytes (next_outcome s.disk) s.wal frame in
      (record s { wal = appended.0; disk = later_outcomes s.disk }, appended.1)

  -- The new snapshot file, renamed into place. Its directory may fail to sync after the rename.
  unfoldable pub write_snapshot :
      DiskOutcome → Bytes → RegistryState r m → RegistryState r m × Result (Unit {0})
  write_snapshot written frame s =
      (record s { snapshot_file = some frame; disk = later_outcomes s.disk }, ok tt)
  write_snapshot rolled_back frame s = (record s { disk = later_outcomes s.disk }, err storage)
  write_snapshot (torn n) frame s =
      (record s { snapshot_file = some frame; disk = later_outcomes s.disk }, err storage)

  -- `wal.truncate(0)`, and the count of its transactions. The file may be cut and fail to sync.
  unfoldable pub truncate_wal :
      DiskOutcome → RegistryState r m → RegistryState r m × Result (Unit {0})
  truncate_wal written s =
      (record s { wal = []; disk = later_outcomes s.disk; wal_transactions = 0 }, ok tt)
  truncate_wal rolled_back s = (record s { disk = later_outcomes s.disk }, err storage)
  truncate_wal (torn n) s = (record s { wal = []; disk = later_outcomes s.disk }, err storage)

  abbrev pub snapshot_of : RegistryState r m → RegistrySnapshot r
  snapshot_of s = record {
    format_version = wal_version;
    last_included_log_index = s.last_log_index;
    last_transaction_id = s.last_transaction_id;
    records = s.records;
    versions = s.versions;
  }

  module _ (c : Codec r) (options : RegistryOptions) where
    unfoldable pub compact_locked : RegistryState r m → RegistryState r m × Result (Unit {0})
    compact_locked s = elim (snapshot_frame c options.max_record_bytes (snapshot_of s)) [
      | err e ↦ (s, err e)
      | ok frame ↦
          let saved = write_snapshot (next_outcome s.disk) frame s in
          elim saved.1 [
            | err e ↦ (saved.0, err e)
            | ok done ↦ truncate_wal (next_outcome saved.0.disk) saved.0
          ]
    ]

    unfoldable pub compact : RegistryState r m → RegistryState r m × Result (Unit {0})
    unfolding compact_locked
    compact s = if is_some s.pending then (s, err conflict) else compact_locked s

    abbrev pub compaction_due : RegistryState r m → Bool
    compaction_due s =
        leb options.compact_after_records s.wal_transactions
        || leb options.compact_after_bytes (length s.wal)
