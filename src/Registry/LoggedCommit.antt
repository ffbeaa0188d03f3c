-- ===== src/Registry/LoggedCommit.antt =====
-- The commit frame in the log of persistent_registry.rs: replaying it makes the same change to the
-- tables as the transaction did.
use mutsuki_distributed_host.Base.{
  ℕ, ◌≤◌, ◌≡◌, refl, true, [], ◌∷◌, ◌++◌, Option, none, some, Text, Bytes, arith, length,
  All-append, inl, inr, Option-cases, sat_add,
}
use mutsuki_distributed_host.Base.Outcome.{ok}
use mutsuki_distributed_host.Base.Map.{
  Map, get, insert, remove, text_key, ℕ_key, length-insert, is_self,
}
use mutsuki_distributed_host.Base.Encoding.{range_of}
use mutsuki_distributed_host.Contracts.{RuntimeContracts, GlobalTaskId, DurableTaskRecord}
use mutsuki_distributed_host.Registry.Frame.{commit}
use mutsuki_distributed_host.Registry.Mutation.{
  RegistryMutation, task_id, prepare_mutation, prepare_submit, prepare_existing_mutation, submit,
}
use mutsuki_distributed_host.Registry.Store.{RegistryOptions, Codec, PendingTransaction}
use mutsuki_distributed_host.Registry.Replay.{ReplayState, replay_frame, replay_commit}
use mutsuki_distributed_host.Registry.ReplayLaws.{Entry, IsLog-append, replay_entries-append}
use mutsuki_distributed_host.Registry.Logged.{IsPrepared, IsLogged}

module _ {r : RuntimeContracts} where
  existing-fits :
      (records : Map GlobalTaskId (DurableTaskRecord r)) (m : RegistryMutation r)
      (u : DurableTaskRecord r)
      → prepare_existing_mutation records m ≡ ok u
      → length (insert (task_id m) u records) ≡ length records
  unfolding prepare_existing_mutation
  existing-fits records m u h = elim (Option-cases (get (task_id m) records)) [
    | inl e ↦ absurd (ground arith)
    | inr (t, e) ↦ ground (arith, length-insert (task_id m) u records)
  ]

  -- The capacity: what an accepted mutation stores fits the table.
  pub prepare_mutation-fits :
      (records : Map GlobalTaskId (DurableTaskRecord r)) (m : RegistryMutation r) (max_tasks : ℕ)
      (u : DurableTaskRecord r)
      → length records ≤ max_tasks
      → prepare_mutation records m max_tasks ≡ ok u
      → length (insert (task_id m) u records) ≤ max_tasks
  unfolding prepare_mutation task_id prepare_submit
  prepare_mutation-fits records (submit t) max_tasks u l h =
      ground (arith, length-insert t.spec.global_task_id u records)
  prepare_mutation-fits records m max_tasks u l h = omega (arith, existing-fits records m u h)

module _ {r : RuntimeContracts} (c : Codec r) (options : RegistryOptions) where
  -- The tables after the commit of a transaction is replayed.
  abbrev commit_of : PendingTransaction r → ReplayState r → ReplayState r
  commit_of p s = record {
    records = insert p.prepared.global_task_id p.resulting_record s.records;
    versions = insert p.prepared.global_task_id p.prepared.new_version s.versions;
    last_log_index = p.prepared.log_index;
    last_transaction_id = p.prepared.transaction_id;
    prepared = [];
    wal_transactions = sat_add s.wal_transactions 1;
  }

  replay-commit_frame :
      (included : ℕ) (p : PendingTransaction r) (s : ReplayState r)
      → included ≤ s.last_log_index
      → s.prepared ≡ (p.prepared.log_index, p.prepared) ∷ []
      → IsPrepared c options s.records s.versions s.last_log_index s.last_transaction_id p
      → replay_frame c options included commit p.prepared.log_index p.prepared.transaction_id s
        ≡ ok (commit_of p s)
  unfolding replay_frame replay_commit get remove
  replay-commit_frame included p s low ep q = ground (
    arith,
    q.text,
    q.chained,
    q.hashed,
    q.accepted,
    q.next_index,
    is_self p.prepared.transaction_id,
    ep,
  )

  -- The commit frame of the pending transaction, and the tables that it leaves.
  pub IsLogged-commit :
      {wal : Bytes} {file : Option Bytes} {records : Map GlobalTaskId (DurableTaskRecord r)}
      {versions : Map GlobalTaskId ℕ} {index : ℕ} {id : Text} (p : PendingTransaction r)
      → IsLogged c options wal file records versions index id (some p)
      → IsLogged c options
          (wal ++ p.metadata.commit_frame)
          file
          (insert p.prepared.global_task_id p.resulting_record records)
          (insert p.prepared.global_task_id p.prepared.new_version versions)
          p.prepared.log_index
          p.prepared.transaction_id
          none
  unfolding range_of
  IsLogged-commit {wal} {records} p l =
      let q = l.same_prepared.1 in
      let e : Entry = record {
        is_commit = true;
        log_index = p.prepared.log_index;
        payload = p.prepared.transaction_id;
      } in
      record {
        snap = l.snap;
        loaded = l.loaded;
        version = l.version;
        start_fits = l.start_fits;
        start_index = omega (arith, l.start_index, q.next_index);
        entries = l.entries ++ e ∷ [];
        log =
            IsLog-append c options l.entries wal e p.metadata.commit_frame l.log q.commit_written
              (omega (arith, q.index_fits)) q.id_fits;
        below = All-append _ l.entries (e ∷ []) (rw (q.next_index) l.below) (omega arith, tt);
        state = commit_of p l.state;
        replayed =
            rw (replay_entries-append c options, l.replayed)
              (replay-commit_frame _ p l.state (omega (arith, l.start_index, l.same_index))
                l.same_prepared.0
                (rw (l.same_records, l.same_versions, l.same_index, l.same_id) q));
        same_records = rw (l.same_records) refl;
        same_versions = rw (l.same_versions) refl;
        same_index = refl;
        same_id = refl;
        same_prepared = refl;
        tables_fit = rw (q.task) (
            prepare_mutation-fits records p.prepared.mutation options.max_tasks p.resulting_record
              l.tables_fit q.accepted);
        index_fits = q.index_fits;
      }
