-- ===== src/Registry/LoggedCompact.antt =====
-- Compaction of persistent_registry.rs keeps what the files say of the tables, however its writes
-- end.
use mutsuki_distributed_host.Base.{
  ◌≡◌, Option, Bytes, none, arith, inl, inr, sym, ◌∙◌, subst, is_some, if-cases, is_some-false,
}
use mutsuki_distributed_host.Base.Outcome.{Result, ok, err, Result-cases}
use mutsuki_distributed_host.Contracts.{RuntimeContracts}
use mutsuki_distributed_host.Registry.Store.{
  RegistryOptions, Codec, MetadataReplica, PendingTransaction, DiskOutcome, written, rolled_back,
  torn, RegistryState, next_outcome, write_snapshot, truncate_wal, snapshot_frame, snapshot_of,
  compact_locked, compact,
}
use mutsuki_distributed_host.Registry.Log.{maintain}
use mutsuki_distributed_host.Registry.Logged.{IsLogged}
use mutsuki_distributed_host.Registry.LoggedSnapshot.{IsLogged-snapshot, IsLogged-truncated}

module _ {r : RuntimeContracts} {m : MetadataReplica} (c : Codec r)
    (options : RegistryOptions) where
  -- The files of a registry against its tables, with the transaction that is pending.
  abbrev pub FilesAgree : RegistryState r m → Option (PendingTransaction r) → Type 0
  FilesAgree s pending =
      IsLogged c options s.wal s.snapshot_file s.records s.versions s.last_log_index
        s.last_transaction_id pending

  save-FilesAgree :
      (o : DiskOutcome) (s : RegistryState r m) {frame : Bytes}
      → snapshot_frame c options.max_record_bytes (snapshot_of s) ≡ ok frame
      → FilesAgree s none
      → FilesAgree (write_snapshot o frame s).0 none
  unfolding write_snapshot
  save-FilesAgree written s h l = IsLogged-snapshot c options h l
  save-FilesAgree rolled_back s h l = l
  save-FilesAgree (torn n) s h l = IsLogged-snapshot c options h l

  cut-FilesAgree :
      (o : DiskOutcome) (s : RegistryState r m) {frame : Bytes}
      → snapshot_frame c options.max_record_bytes (snapshot_of s) ≡ ok frame
      → FilesAgree s none
      → FilesAgree (truncate_wal o (write_snapshot written frame s).0).0 none
  unfolding write_snapshot truncate_wal
  cut-FilesAgree written s h l = IsLogged-truncated c options h l
  cut-FilesAgree rolled_back s h l = IsLogged-snapshot c options h l
  cut-FilesAgree (torn n) s h l = IsLogged-truncated c options h l

  -- Compaction keeps the agreement of the files with the tables, on every branch: when the
  -- snapshot cannot be made, when its file, the sync of its directory or the cut of the log fails,
  -- and when all succeed.
  pub compact_locked-FilesAgree :
      (s : RegistryState r m) → FilesAgree s none → FilesAgree (compact_locked c options s).0 none
  unfolding compact_locked write_snapshot
  compact_locked-FilesAgree s l =
      elim (Result-cases (snapshot_frame c options.max_record_bytes (snapshot_of s))) [
        | inr (e, h) ↦ rw (h, compact_locked) l
        | inl (frame, h) ↦ rw (h, compact_locked) (go frame h (next_outcome s.disk))
      ]
    where
      go :
          (frame : Bytes)
          → snapshot_frame c options.max_record_bytes (snapshot_of s) ≡ ok frame
          → (o : DiskOutcome)
          → let after : RegistryState r m × Result (Unit {0}) = elim (write_snapshot o frame s).1 [
            | err e ↦ ((write_snapshot o frame s).0, err e)
            | ok done ↦
                truncate_wal
                  (next_outcome (write_snapshot o frame s).0.disk)
                  (write_snapshot o frame s).0
          ] in
            FilesAgree after.0 none
      go frame h written =
          cut-FilesAgree (next_outcome (write_snapshot written frame s).0.disk) s h l
      go frame h rolled_back = save-FilesAgree rolled_back s h l
      go frame h (torn n) = save-FilesAgree (torn n) s h l

  pub maintain-FilesAgree :
      (s : RegistryState r m) → FilesAgree s none → FilesAgree (maintain c options s).0 none
  unfolding maintain
  maintain-FilesAgree s l = ground (arith, compact_locked-FilesAgree s l)

  compact_locked-pending :
      (s : RegistryState r m) → (compact_locked c options s).0.pending ≡ s.pending
  unfolding compact_locked write_snapshot truncate_wal
  compact_locked-pending s = ground arith

  pub compact-FilesAgree :
      (s : RegistryState r m)
      → FilesAgree s s.pending
      → FilesAgree (compact c options s).0 (compact c options s).0.pending
  unfolding compact
  compact-FilesAgree s l =
      let Agrees =
        λ (done : RegistryState r m × Result (Unit {0})). FilesAgree done.0 done.0.pending in
      if-cases Agrees (is_some s.pending) (λ e. l)
        (λ e.
          let idle = is_some-false s.pending e in
          subst (FilesAgree (compact_locked c options s).0) (sym (compact_locked-pending s ∙ idle))
            (compact_locked-FilesAgree s (subst (FilesAgree s) idle l)))
