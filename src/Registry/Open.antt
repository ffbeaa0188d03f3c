-- ===== src/Registry/Open.antt =====
-- Opening the registry of persistent_registry.rs: `RegistryOptions::validate`,
-- `validate_replica_ids` and `open_with_options`. The two files are given by their contents;
-- that the directory cannot be made or a file cannot be read is not modelled.
use mutsuki_distributed_host.Base.{
  ℕ, ◌||◌, List, [], ◌∷◌, Option, none, some, Text, Bytes, ◌==◌, take, is_empty, map, if◌then◌else◌,
}
use mutsuki_distributed_host.Base.Outcome.{
  Result, ok, err, ◌>>=◌, ◌>>◌, refuse_if, invalid_config, storage,
}
use mutsuki_distributed_host.Base.Map.{Map, contains, insert, text_key}
use mutsuki_distributed_host.Contracts.{RuntimeContracts}
use mutsuki_distributed_host.Registry.Store.{
  RegistryOptions, Codec, MetadataReplica, DiskOutcome, written, rolled_back, torn, RegistryState,
  next_outcome, later_outcomes,
}
use mutsuki_distributed_host.Registry.Replay.{load_snapshot, replay_wal}

unfoldable pub validate : RegistryOptions → Result RegistryOptions
validate options = do
  refuse_if
      (options.max_tasks == 0
        || options.max_record_bytes == 0
        || options.compact_after_records == 0
        || options.compact_after_bytes == 0)
      invalid_config
  ok options

-- The ids that were seen stand in a set.
unfoldable pub validate_ids : Map Text (Unit {0}) → List Text → Result (Unit {0})
validate_ids seen [] = ok tt
validate_ids seen (id ∷ rest) =
    let later = validate_ids (insert id tt seen) rest in
    if is_empty id || contains id seen then err invalid_config else later

-- `wal.truncate(length)` while the registry is opened.
unfoldable pub cut_tail : DiskOutcome → Option ℕ → Bytes → Result Bytes
cut_tail outcome none wal = ok wal
cut_tail written (some length) wal = ok (take length wal)
cut_tail rolled_back (some length) wal = err storage
cut_tail (torn n) (some length) wal = err storage

-- The outcomes that are left: a log that need not be cut asks the disk for nothing.
abbrev pub after_cut : Option ℕ → List DiskOutcome → List DiskOutcome
after_cut none disk = disk
after_cut (some length) disk = later_outcomes disk

module _ {r : RuntimeContracts} {m : MetadataReplica} (c : Codec r) where
  unfoldable pub open_with_options :
      RegistryOptions
      → List m.Replica
      → List DiskOutcome
      → Bytes
      → Option Bytes
      → Result (RegistryState r m)
  unfolding validate validate_ids cut_tail
  open_with_options options replicas disk wal file = do
    options ← validate options
    validate_ids [] (map m.replica_id replicas)
    snap ← load_snapshot c options file
    recovered ← replay_wal c options wal snap
    kept ← cut_tail (next_outcome disk) recovered.truncate_at wal
    ok (record {
      wal = kept;
      snapshot_file = file;
      disk = after_cut recovered.truncate_at disk;
      replicas = replicas;
      records = recovered.records;
      versions = recovered.versions;
      last_log_index = recovered.last_log_index;
      last_transaction_id = recovered.last_transaction_id;
      wal_transactions = recovered.wal_transactions;
      recovered_tail_bytes = recovered.recovered_tail_bytes;
      pending = recovered.pending;
      last_report = none;
    })
