-- ===== src/Registry/LoggedReplay.antt =====
-- Reading the files of persistent_registry.rs back gives the tables that they say.
use mutsuki_distributed_host.Base.{
  ℕ, suc, ◌≡◌, refl, ◌∙◌, false, [], Option, none, some, Text, Bytes, length, arith,
}
use mutsuki_distributed_host.Base.Outcome.{ok}
use mutsuki_distributed_host.Base.Map.{Map, text_key, is_self}
use mutsuki_distributed_host.Contracts.{RuntimeContracts, GlobalTaskId, DurableTaskRecord}
use mutsuki_distributed_host.Registry.Store.{RegistryOptions, Codec, PendingTransaction}
use mutsuki_distributed_host.Registry.Replay.{
  ReplayState, RecoveredRegistry, is_legacy, start_of, replay_start, replay_loop, replay_wal,
  recover_prepared, recover_pending_transaction, validate_prepared_tail,
}
use mutsuki_distributed_host.Registry.ReplayLaws.{replay_loop-entries}
use mutsuki_distributed_host.Registry.Logged.{IsPrepared, IsLogged}

module _ {r : RuntimeContracts} where
  -- A pending transaction without the answers of replicas, which no file keeps.
  abbrev pub unanswered : PendingTransaction r → PendingTransaction r
  unanswered p = record p { proofs = []; attempts = [] }

  abbrev pub pending_of : Option (PendingTransaction r) → Option (PendingTransaction r)
  pending_of none = none
  pending_of (some p) = some (unanswered p)

  -- The registry that the files describe.
  abbrev pub registry_of :
      Map GlobalTaskId (DurableTaskRecord r)
      → Map GlobalTaskId ℕ
      → ℕ
      → Text
      → ℕ
      → Option (PendingTransaction r)
      → RecoveredRegistry r
  registry_of records versions index id transactions pending = record {
    records = records;
    versions = versions;
    last_log_index = index;
    last_transaction_id = id;
    wal_transactions = transactions;
    pending = pending_of pending;
    truncate_at = none;
    recovered_tail_bytes = 0;
  }

module _ {r : RuntimeContracts} (c : Codec r) (options : RegistryOptions) where
  recover_prepared-same :
      (p : PendingTransaction r) (s : ReplayState r)
      → IsPrepared c options s.records s.versions s.last_log_index s.last_transaction_id p
      → recover_prepared c options p.prepared s ≡ ok (unanswered p)
  unfolding recover_prepared validate_prepared_tail
  recover_prepared-same p s q = ground (
    arith,
    q.chained,
    q.hashed,
    q.accepted,
    q.encoded,
    q.prepare_written,
    q.commit_written,
    q.same_id,
    q.same_index,
    q.same_version,
    is_self p.prepared.transaction_id,
  )

  module _ {wal : Bytes} {file : Option Bytes} {records : Map GlobalTaskId (DurableTaskRecord r)}
      {versions : Map GlobalTaskId ℕ} {index : ℕ} {id : Text} where
    recover_pending-same :
        (pending : Option (PendingTransaction r))
        (l : IsLogged c options wal file records versions index id pending)
        → recover_pending_transaction c options l.state.prepared l.state ≡ ok (pending_of pending)
    unfolding recover_pending_transaction
    recover_pending-same none l = rw (l.same_prepared) refl
    recover_pending-same (some p) l =
        rw
          (
            l.same_prepared.0,
            recover_prepared-same p l.state
                (rw (l.same_records, l.same_versions, l.same_index, l.same_id) l.same_prepared.1),
          )
          refl

    loop-same :
        (pending : Option (PendingTransaction r))
        (l : IsLogged c options wal file records versions index id pending)
        → replay_loop c options
            (suc (length wal))
            (start_of l.snap).last_included_log_index
            wal
            0
            (replay_start (start_of l.snap))
          ≡ some (ok (l.state, length wal))
    loop-same pending l =
        replay_loop-entries c options (suc (length wal)) (start_of l.snap).last_included_log_index
          l.entries [] wal (replay_start (start_of l.snap)) (omega arith) l.log
        ∙ rw (l.replayed) refl

    -- Replaying the log over the snapshot gives the tables, their versions and the place in the
    -- chain, with the pending transaction as it was but for the answers of replicas; nothing of the
    -- log is cut.
    pub replay_wal-logged :
        (pending : Option (PendingTransaction r))
        (l : IsLogged c options wal file records versions index id pending)
        → is_legacy wal ≡ false
        → replay_wal c options wal l.snap
          ≡ ok (registry_of records versions index id l.state.wal_transactions pending)
    unfolding replay_wal
    replay_wal-logged pending l legacy = ground (
      arith,
      l.version,
      l.start_fits,
      loop-same pending l,
      recover_pending-same pending l,
      l.same_records,
      l.same_versions,
      l.same_index,
      l.same_id,
    )
