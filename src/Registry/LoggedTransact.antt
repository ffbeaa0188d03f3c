-- ===== src/Registry/LoggedTransact.antt =====
-- The transaction of persistent_registry.rs keeps what the files say of the tables.
use mutsuki_distributed_host.Base.{
  ℕ, ◌-◌, ◌≤◌, ◌≡◌, refl, Bool, List, [], ◌∷◌, Option, none, some, ◌++◌, Bytes, not, ◌||◌, holds,
  ◌==◌, ltb, length, All, inl, inr, Option-cases, if-either,
}
use mutsuki_distributed_host.Base.Outcome.{Result, ok, err, ◌>>=◌, Result-cases, conflict}
use mutsuki_distributed_host.Base.Map.{text_key}
use mutsuki_distributed_host.Contracts.{RuntimeContracts, DurableTaskRecord}
use mutsuki_distributed_host.Registry.Mutation.{RegistryMutation, task_id, prepare_mutation}
use mutsuki_distributed_host.Registry.Store.{
  RegistryOptions, Codec, MetadataReplica, PendingTransaction, CommitProof, DiskOutcome, written,
  rolled_back, torn, RegistryState, next_outcome, later_outcomes, append_bytes, append_local,
  version_of,
}
use mutsuki_distributed_host.Registry.Replicate.{replicate_transaction}
use mutsuki_distributed_host.Registry.Log.{
  new_transaction, begin_transaction, prepare_pending_transaction, apply_commit, finish_commit,
  finish_transaction, continue_transaction, transact_locked,
}
use mutsuki_distributed_host.Registry.Logged.{IsPrepared, IsLogged-prepare}
use mutsuki_distributed_host.Registry.LoggedCommit.{IsLogged-commit}
use mutsuki_distributed_host.Registry.LoggedCompact.{FilesAgree, maintain-FilesAgree}
use mutsuki_distributed_host.Registry.LoggedNew.{new_transaction-IsPrepared}
use mutsuki_distributed_host.Registry.LoggedReplicate.{replicate_transaction-same, IsLogged-answers}

-- A write to the log that fails leaves it as it was.
abbrev pub IsClean : DiskOutcome → Type 0
IsClean (torn n) = ⊥
IsClean other = Unit

next_outcome-IsClean : (disk : List DiskOutcome) → All IsClean disk → IsClean (next_outcome disk)
next_outcome-IsClean [] h = tt
next_outcome-IsClean (o ∷ rest) h = h.0

later_outcomes-IsClean :
    (disk : List DiskOutcome) → All IsClean disk → All IsClean (later_outcomes disk)
later_outcomes-IsClean [] h = tt
later_outcomes-IsClean (o ∷ rest) h = h.1

module _ {r : RuntimeContracts} {m : MetadataReplica} (c : Codec r)
    (options : RegistryOptions) where
  -- What a step leaves for the next one: the transaction in the log, or an error and the
  -- transaction that was pending.
  abbrev IsReady : RegistryState r m × Result (PendingTransaction r) → Type 0
  IsReady (t, ok p) = FilesAgree c options t (some p) × All IsClean t.disk
  IsReady (t, err e) = FilesAgree c options t t.pending × All IsClean t.disk

  -- The prepare frame of a new transaction: written, or refused with the log as it was.
  prepare_frame-IsReady :
      (s : RegistryState r m) (p : PendingTransaction r) (o : DiskOutcome)
      → IsClean o
      → All IsClean (later_outcomes s.disk)
      → IsPrepared c options s.records s.versions s.last_log_index s.last_transaction_id p
      → s.pending ≡ none
      → FilesAgree c options s none
      → let appended = append_bytes o s.wal p.metadata.prepare_frame in
        IsReady
          (record s { wal = appended.0; disk = later_outcomes s.disk }, appended.1 >>= λ _. ok p)
  unfolding append_bytes
  prepare_frame-IsReady s p written clean later q none_pending l =
      (IsLogged-prepare c options p q l, later)
  prepare_frame-IsReady s p rolled_back clean later q none_pending l = (rw none_pending l, later)
  prepare_frame-IsReady s p (torn n) clean later q none_pending l = elim clean [ ]

  begin_transaction-IsReady :
      (s : RegistryState r m) (mutation : RegistryMutation r) (bytes : Bytes)
      (resulting : DurableTaskRecord r)
      → 64 ≤ options.max_record_bytes
      → All IsClean s.disk
      → prepare_mutation s.records mutation options.max_tasks ≡ ok resulting
      → c.mutation_json mutation ≡ some bytes
      → s.pending ≡ none
      → FilesAgree c options s none
      → IsReady (
          begin_transaction c options s mutation bytes resulting
            (version_of (task_id mutation) s.versions))
  unfolding begin_transaction append_local
  begin_transaction-IsReady s mutation bytes resulting low clean accepted mj none_pending l =
      elim (Result-cases (
        new_transaction c options s mutation bytes resulting
          (version_of (task_id mutation) s.versions))) [
            | inr (e, h) ↦ rw (h, begin_transaction) (rw none_pending l, clean)
            | inl (p, h) ↦
                rw (h, begin_transaction)
                  (prepare_frame-IsReady s p (next_outcome s.disk)
                    (next_outcome-IsClean s.disk clean) (later_outcomes-IsClean s.disk clean)
                    (new_transaction-IsPrepared c options s mutation bytes resulting low accepted mj
                      h)
                    none_pending l)
          ]

  prepare_pending_transaction-IsReady :
      (s : RegistryState r m) (pending : Option (PendingTransaction r))
      (mutation : RegistryMutation r) (bytes : Bytes) (resulting : DurableTaskRecord r)
      → 64 ≤ options.max_record_bytes
      → All IsClean s.disk
      → prepare_mutation s.records mutation options.max_tasks ≡ ok resulting
      → c.mutation_json mutation ≡ some bytes
      → s.pending ≡ pending
      → FilesAgree c options s pending
      → IsReady (
          prepare_pending_transaction c options pending s mutation bytes resulting
            (version_of (task_id mutation) s.versions))
  unfolding prepare_pending_transaction
  prepare_pending_transaction-IsReady s none mutation bytes resulting low clean accepted mj e l =
      begin_transaction-IsReady s mutation bytes resulting low clean accepted mj e l
  prepare_pending_transaction-IsReady s (some p) mutation bytes resulting low clean accepted mj e
        l =
      if-either IsReady
        (not (holds (c.mutation_discrete p.prepared.mutation mutation))
          || not (p.prepared.previous_version == version_of (task_id mutation) s.versions))
        {x = (s, err conflict)} (rw e l, clean) (l, clean)

  -- The files agree with the tables and the pending transaction after a call.
  abbrev Keeps : RegistryState r m × Result CommitProof → Type 0
  Keeps done = FilesAgree c options done.0 done.0.pending

  commit_frame-FilesAgree :
      (acks : ℕ) (p : PendingTransaction r) (s : RegistryState r m) (o : DiskOutcome)
      → IsClean o
      → FilesAgree c options s (some p)
      → let appended = append_bytes o s.wal p.metadata.commit_frame in
        let done =
          finish_commit c options acks p
            (record s { wal = appended.0; disk = later_outcomes s.disk }, appended.1) in
        FilesAgree c options done.0 done.0.pending
  unfolding append_bytes finish_commit apply_commit
  commit_frame-FilesAgree acks p s written clean l =
      let q = l.same_prepared.1 in
      maintain-FilesAgree c options
        (apply_commit c options p
          (record s { wal = s.wal ++ p.metadata.commit_frame; disk = later_outcomes s.disk }))
        (rw (q.same_id, q.same_index) (IsLogged-commit c options p l))
  commit_frame-FilesAgree acks p s rolled_back clean l = l
  commit_frame-FilesAgree acks p s (torn n) clean l = elim clean [ ]

  finish_transaction-FilesAgree :
      (acks : ℕ) (p : PendingTransaction r) (s : RegistryState r m)
      → All IsClean s.disk
      → FilesAgree c options s (some p)
      → let done = finish_transaction c options acks p s in
        FilesAgree c options done.0 done.0.pending
  unfolding finish_transaction append_local
  finish_transaction-FilesAgree acks p s clean l =
      if-either Keeps (ltb (length p.proofs) acks) l (
        commit_frame-FilesAgree acks p s (next_outcome s.disk) (next_outcome-IsClean s.disk clean)
          l)

  continue_transaction-FilesAgree :
      (acks : ℕ) (sync : Bool) (begun : RegistryState r m × Result (PendingTransaction r))
      → IsReady begun
      → let done = continue_transaction c options acks sync begun in
        FilesAgree c options done.0 done.0.pending
  unfolding continue_transaction
  continue_transaction-FilesAgree acks sync (s, err e) h = h.0
  continue_transaction-FilesAgree acks sync (s, ok p) h =
      let answered = replicate_transaction m acks sync s.replicas p in
      finish_transaction-FilesAgree acks answered.1 (record s { replicas = answered.0 }) h.1
        (rw (replicate_transaction-same m acks sync s.replicas p)
          (IsLogged-answers c options s p answered.1 h.0))

  -- A transaction keeps the agreement of the log and the snapshot with the tables and with the
  -- pending transaction: refused before the log is written, held back for want of
  -- replicas, failed at either write, or committed, with or without a compaction that may itself
  -- fail. A record may hold 64 bytes, the length of a transaction id; and no write leaves a part
  -- of a frame behind.
  pub transact_locked-FilesAgree :
      (mutation : RegistryMutation r) (required_copies : ℕ) (sync : Bool) (s : RegistryState r m)
      → 64 ≤ options.max_record_bytes
      → All IsClean s.disk
      → FilesAgree c options s s.pending
      → let done = transact_locked c options mutation required_copies sync s in
        FilesAgree c options done.0 done.0.pending
  unfolding transact_locked
  transact_locked-FilesAgree mutation required_copies sync s low clean l =
      elim (Result-cases (prepare_mutation s.records mutation options.max_tasks)) [
        | inr (e, h) ↦ rw (h, transact_locked) l
        | inl (resulting, accepted) ↦ elim (Option-cases (c.mutation_json mutation)) [
          | inl h ↦ rw (accepted, h, transact_locked) l
          | inr (bytes, mj) ↦
              rw (accepted, mj, transact_locked)
                (if-either Keeps (ltb options.max_record_bytes (length bytes)) l (
                  continue_transaction-FilesAgree (required_copies - 1) sync
                    (prepare_pending_transaction c options s.pending s mutation bytes resulting
                      (version_of (task_id mutation) s.versions))
                    (prepare_pending_transaction-IsReady s s.pending mutation bytes resulting low
                      clean accepted mj refl l)))
        ]
      ]
