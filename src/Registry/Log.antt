-- ===== src/Registry/Log.antt =====
-- The transaction of the registry: `transact_locked` of persistent_registry.rs, with the
-- preparation, the replication, the local commit and the compaction that it calls.
use mutsuki_distributed_host.Base.{
  ℕ, ◌-◌, Bool, true, false, not, ◌||◌, [], Option, none, some, Bytes, ltb, ◌==◌, if◌then◌else◌,
  length, sat_add, checked_add, holds,
}
use mutsuki_distributed_host.Base.Outcome.{
  Result, ok, err, ErrorKind, ◌>>=◌, ◌>>◌, refuse_if, or_fail, conflict, capacity_exceeded,
  durability_unavailable, corrupt,
}
use mutsuki_distributed_host.Base.Map.{insert, values, text_key}
use mutsuki_distributed_host.Contracts.{RuntimeContracts, DurableTaskRecord}
use mutsuki_distributed_host.Registry.Frame.{prepare, commit, encode_frame}
use mutsuki_distributed_host.Registry.Mutation.{RegistryMutation, task_id, prepare_mutation}
use mutsuki_distributed_host.Registry.Store.{
  RegistryOptions, PreparedPayload, Codec, MetadataReplica, PendingTransaction, CommitProof,
  RegistryState, version_of, report_for, transaction_id, append_local, compaction_due,
  compact_locked,
}
use mutsuki_distributed_host.Registry.Replicate.{replicate_transaction}

module _ {r : RuntimeContracts} {m : MetadataReplica} (c : Codec r)
    (options : RegistryOptions) where
  -- A transaction that is not yet in the log: its payload, its frames and its id.
  unfoldable pub new_transaction :
      RegistryState r m
      → RegistryMutation r
      → Bytes
      → DurableTaskRecord r
      → ℕ
      → Result (PendingTransaction r)
  new_transaction s mutation mutation_bytes resulting previous_version = do
    log_index ← or_fail (checked_add s.last_log_index 1) capacity_exceeded
    new_version ← or_fail (checked_add previous_version 1) capacity_exceeded
    let id = transaction_id c s.last_transaction_id log_index previous_version mutation_bytes
    let prepared : PreparedPayload r = record {
      transaction_id = id;
      log_index = log_index;
      previous_transaction_id = s.last_transaction_id;
      global_task_id = task_id mutation;
      previous_version = previous_version;
      new_version = new_version;
      mutation = mutation;
    }
    payload ← or_fail (c.prepared_json prepared) corrupt
    refuse_if (ltb options.max_record_bytes (length payload)) capacity_exceeded
    prepare_frame ← encode_frame c.sha prepare log_index payload
    commit_frame ← encode_frame c.sha commit log_index id
    ok (record {
      metadata = record {
        transaction_id = id;
        log_index = log_index;
        previous_version = previous_version;
        prepare_payload = payload;
        prepare_frame = prepare_frame;
        commit_frame = commit_frame;
      };
      prepared = prepared;
      resulting_record = resulting;
      proofs = [];
      attempts = [];
    })

  -- With no transaction pending: make one and write its prepare frame.
  unfoldable pub begin_transaction :
      RegistryState r m
      → RegistryMutation r
      → Bytes
      → DurableTaskRecord r
      → ℕ
      → RegistryState r m × Result (PendingTransaction r)
  begin_transaction s mutation mutation_bytes resulting previous_version =
      elim (new_transaction s mutation mutation_bytes resulting previous_version) [
        | err e ↦ (s, err e)
        | ok p ↦
            let appended = append_local p.metadata.prepare_frame s in
            (appended.0, appended.1 >>= λ _. ok p)
      ]

  -- A transaction that is pending is taken up again by the same mutation only.
  unfoldable pub prepare_pending_transaction :
      Option (PendingTransaction r)
      → RegistryState r m
      → RegistryMutation r
      → Bytes
      → DurableTaskRecord r
      → ℕ
      → RegistryState r m × Result (PendingTransaction r)
  unfolding begin_transaction
  prepare_pending_transaction (some existing) s mutation mutation_bytes resulting version =
      if not (holds (c.mutation_discrete existing.prepared.mutation mutation))
        || not (existing.prepared.previous_version == version)
      then (s, err conflict)
      else (record s { pending = none }, ok existing)
  prepare_pending_transaction none s mutation mutation_bytes resulting version =
      begin_transaction s mutation mutation_bytes resulting version

  -- The state after the local commit.
  unfoldable pub apply_commit : PendingTransaction r → RegistryState r m → RegistryState r m
  apply_commit p s = record s {
    records = insert p.prepared.global_task_id p.resulting_record s.records;
    versions = insert p.prepared.global_task_id p.prepared.new_version s.versions;
    last_log_index = p.metadata.log_index;
    last_transaction_id = p.metadata.transaction_id;
    wal_transactions = sat_add s.wal_transactions 1;
  }

  -- Compaction when it is due, and the error that it may meet.
  unfoldable pub maintain : RegistryState r m → RegistryState r m × Option ErrorKind
  unfolding compact_locked
  maintain s =
      if compaction_due c options s
      then (let compacted = compact_locked c options s in
          (compacted.0, elim compacted.1 [ ok done ↦ none | err e ↦ some e ]))
      else (s, none)

  -- The transaction is kept for another attempt.
  abbrev pub waiting : ℕ → PendingTransaction r → RegistryState r m → RegistryState r m
  waiting acks p s = record s {
    last_report = some (report_for p acks false none);
    pending = some p;
  }

  -- From the append of the commit frame on.
  unfoldable pub finish_commit :
      ℕ
      → PendingTransaction r
      → RegistryState r m × Result (Unit {0})
      → RegistryState r m × Result CommitProof
  unfolding apply_commit maintain
  finish_commit acks p (s, err e) = (waiting acks p s, err e)
  finish_commit acks p (s, ok done) =
      let kept = maintain (apply_commit p s) in
      (
        record kept.0 { last_report = some (report_for p acks true kept.1); pending = none },
        ok (record {
          transaction_id = p.metadata.transaction_id;
          log_index = p.metadata.log_index;
          replica_commits = values p.proofs;
        }),
      )

  unfoldable pub finish_transaction :
      ℕ → PendingTransaction r → RegistryState r m → RegistryState r m × Result CommitProof
  unfolding finish_commit
  finish_transaction acks p s =
      if ltb (length p.proofs) acks
      then (waiting acks p s, err durability_unavailable)
      else finish_commit acks p (append_local p.metadata.commit_frame s)

  unfoldable pub continue_transaction :
      ℕ
      → Bool
      → RegistryState r m × Result (PendingTransaction r)
      → RegistryState r m × Result CommitProof
  unfolding replicate_transaction finish_transaction
  continue_transaction acks sync (s, err e) = (s, err e)
  continue_transaction acks sync (s, ok p) =
      let replicated = replicate_transaction m acks sync s.replicas p in
      finish_transaction acks replicated.1 (record s { replicas = replicated.0 })

  unfoldable pub transact_locked :
      RegistryMutation r → ℕ → Bool → RegistryState r m → RegistryState r m × Result CommitProof
  unfolding prepare_pending_transaction continue_transaction
  transact_locked mutation required_copies sync s =
      let previous_version = version_of (task_id mutation) s.versions in
      elim (prepare_mutation s.records mutation options.max_tasks) [
        | err e ↦ (s, err e)
        | ok resulting ↦ elim (c.mutation_json mutation) [
          | none ↦ (s, err corrupt)
          | some mutation_bytes ↦
              if ltb options.max_record_bytes (length mutation_bytes)
              then (s, err capacity_exceeded)
              else continue_transaction (required_copies - 1) sync (
                  prepare_pending_transaction s.pending s mutation mutation_bytes resulting
                    previous_version)
        ]
      ]
