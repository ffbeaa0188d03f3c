-- ===== src/Registry/Reached.antt =====
-- The registry of persistent_registry.rs over its whole life: calls of its interface,
-- compactions and restarts in any order, from a registry without files.
use mutsuki_distributed_host.Base.{
  ℕ, ◌≤◌, ◌≡◌, refl, ◌∙◌, subst, false, List, [], Option, none, some, All, arith, map,
}
use mutsuki_distributed_host.Base.Outcome.{ok, ◌>>=◌}
use mutsuki_distributed_host.Contracts.{RuntimeContracts}
use mutsuki_distributed_host.Registry.Store.{
  RegistryOptions, Codec, MetadataReplica, PendingTransaction, DiskOutcome, RegistryState, compact,
}
use mutsuki_distributed_host.Registry.Replay.{is_legacy}
use mutsuki_distributed_host.Registry.Open.{validate, validate_ids, cut_tail, open_with_options}
use mutsuki_distributed_host.Registry.Logged.{IsLogged-empty}
use mutsuki_distributed_host.Registry.LoggedCompact.{FilesAgree, compact-FilesAgree}
use mutsuki_distributed_host.Registry.LoggedService.{serve-FilesAgree}
use mutsuki_distributed_host.Registry.Service.{ServiceCall, serve}
use mutsuki_distributed_host.Catalog.{ResourceCatalog}
use mutsuki_distributed_host.Registry.LoggedTransact.{IsClean}
use mutsuki_distributed_host.Registry.LoggedReplicate.{IsLogged-answers}
use mutsuki_distributed_host.Registry.LoggedReplay.{pending_of, replay_wal-logged}

module _ {r : RuntimeContracts} {m : MetadataReplica} where
  -- A registry over no files.
  abbrev pub first_registry : List m.Replica → RegistryState r m
  first_registry replicas = record {
    wal = [];
    snapshot_file = none;
    disk = [];
    replicas = replicas;
    records = [];
    versions = [];
    last_log_index = 0;
    last_transaction_id = [];
    wal_transactions = 0;
    recovered_tail_bytes = 0;
    pending = none;
    last_report = none;
  }

  -- The registry that a restart makes: the tables stay, the answers of replicas are forgotten.
  abbrev pub restarted :
      RegistryState r m → List m.Replica → List DiskOutcome → ℕ → RegistryState r m
  restarted s replicas disk transactions = record {
    wal = s.wal;
    snapshot_file = s.snapshot_file;
    disk = disk;
    replicas = replicas;
    records = s.records;
    versions = s.versions;
    last_log_index = s.last_log_index;
    last_transaction_id = s.last_transaction_id;
    wal_transactions = transactions;
    recovered_tail_bytes = 0;
    pending = pending_of s.pending;
    last_report = none;
  }

module _ {r : RuntimeContracts} {m : MetadataReplica} (c : Codec r)
    (options : RegistryOptions) where
  -- What a registry may go through. Each call meets a disk of its own; a write to the log that
  -- fails is rolled back, and a log that begins like the older format is not opened.
  pub data IsReached : RegistryState r m → Type 0 where
    first : (replicas : List m.Replica) → IsReached (first_registry replicas)
    served :
        (s : RegistryState r m) (disk : List DiskOutcome) (op : ServiceCall r)
        (resources : ResourceCatalog r)
        → All IsClean disk
        → IsReached s
        → IsReached (serve c options op resources (record s { disk = disk }))
    compacted :
        (s : RegistryState r m) (disk : List DiskOutcome)
        → IsReached s
        → IsReached (compact c options (record s { disk = disk })).0
    reopened :
        (s t : RegistryState r m) (replicas : List m.Replica) (disk : List DiskOutcome)
        → is_legacy s.wal ≡ false
        → open_with_options c options replicas disk s.wal s.snapshot_file ≡ ok t
        → IsReached s
        → IsReached t

  -- Opening the files of a registry.
  pub open_with_options-logged :
      (s : RegistryState r m) (replicas : List m.Replica) (disk : List DiskOutcome)
      (l : FilesAgree c options s s.pending)
      → is_legacy s.wal ≡ false
      → open_with_options c options replicas disk s.wal s.snapshot_file ≡ (
          validate options >>= λ valid. validate_ids [] (map m.replica_id replicas) >>= λ done.
          ok (restarted s replicas disk l.state.wal_transactions))
  unfolding open_with_options validate cut_tail
  open_with_options-logged s replicas disk l legacy =
      ground (arith, l.loaded, replay_wal-logged c options s.pending l legacy)

  pending_of-FilesAgree :
      (s : RegistryState r m) (pending : Option (PendingTransaction r))
      → FilesAgree c options s pending
      → FilesAgree c options s (pending_of pending)
  pending_of-FilesAgree s none l = l
  pending_of-FilesAgree s (some p) l =
      IsLogged-answers c options s p (record p { proofs = []; attempts = [] }) l

  restarted-FilesAgree :
      (s t : RegistryState r m) (replicas : List m.Replica) (disk : List DiskOutcome)
      → is_legacy s.wal ≡ false
      → open_with_options c options replicas disk s.wal s.snapshot_file ≡ ok t
      → FilesAgree c options s s.pending
      → FilesAgree c options t t.pending
  unfolding validate
  restarted-FilesAgree s t replicas disk legacy h l =
      let opened = open_with_options-logged s replicas disk l legacy in
      let same : restarted s replicas disk l.state.wal_transactions ≡ t = ground arith in
      subst (λ u. FilesAgree c options u u.pending) same (pending_of-FilesAgree s s.pending l)

  IsReached-FilesAgree :
      (s : RegistryState r m)
      → 64 ≤ options.max_record_bytes
      → IsReached s
      → FilesAgree c options s s.pending
  IsReached-FilesAgree _ low (first replicas) = IsLogged-empty c options
  IsReached-FilesAgree _ low (served s disk op resources clean h) =
      serve-FilesAgree c options (record s { disk = disk }) low clean (IsReached-FilesAgree s low h)
        op resources
  IsReached-FilesAgree _ low (compacted s disk h) =
      compact-FilesAgree c options (record s { disk = disk }) (IsReached-FilesAgree s low h)
  IsReached-FilesAgree _ low (reopened s t replicas disk legacy o h) =
      restarted-FilesAgree s t replicas disk legacy o (IsReached-FilesAgree s low h)

  -- After calls, compactions and restarts in any order, whatever the calls answered, the files open
  -- again to the registry that wrote them: the same records, versions, log index and chain, with the
  -- pending transaction and without the answers of replicas. In the run a write to the log by a call
  -- that fails is rolled back, and no restart meets a log that begins like the older format. The
  -- options and the replica ids are ones that the registry accepts, a record may hold 64 bytes, the
  -- length of a transaction id, and this log does not begin like the older format either.
  pub open_with_options-IsReached :
      (s : RegistryState r m) (replicas : List m.Replica) (disk : List DiskOutcome)
      → 64 ≤ options.max_record_bytes
      → validate options ≡ ok options
      → validate_ids [] (map m.replica_id replicas) ≡ ok tt
      → is_legacy s.wal ≡ false
      → IsReached s
      → (transactions : ℕ) × (open_with_options c options replicas disk s.wal s.snapshot_file
          ≡ ok (restarted s replicas disk transactions))
  open_with_options-IsReached s replicas disk low valid ids legacy h =
      let l = IsReached-FilesAgree s low h in
      (
        l.state.wal_transactions,
        open_with_options-logged s replicas disk l legacy ∙ rw (valid, ids) refl,
      )
