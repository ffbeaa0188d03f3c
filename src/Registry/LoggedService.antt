-- ===== src/Registry/LoggedService.antt =====
-- The operations of `PersistentRegistry` keep what the files say of the tables.
use mutsuki_distributed_host.Base.{
  ◌≤◌, Bool, true, false, not, ◌||◌, ◌==◌, All, length, inl, inr, Option-cases, if-either,
  if◌then◌else◌,
}
use mutsuki_distributed_host.Base.Outcome.{Result, ok, err, Result-cases, invalid_config}
use mutsuki_distributed_host.Base.Map.{get, text_key}
use mutsuki_distributed_host.Contracts.{
  RuntimeContracts, DurableTaskRecord, minimum_metadata_copies, is_fast, failed, recovery_required,
}
use mutsuki_distributed_host.Catalog.{ResourceCatalog}
use mutsuki_distributed_host.Registry.Mutation.{
  RegistryMutation, submit, running, set_failure, cancel, commit_output, task_id,
}
use mutsuki_distributed_host.Registry.Store.{
  RegistryOptions, Codec, MetadataReplica, CommitProof, RegistryState,
}
use mutsuki_distributed_host.Registry.Service.{
  ServiceCall, submits, assigns, marks_running, stages_output, commits_output, fails, cancels,
  compacts, serve, forget, answer_staging, admit, new_task, staging, committing, transact_for,
  transact_for_existing, submit_task, assign_task, mark_running, stage_task_output,
  commit_task_output, fail_task, cancel_task,
}
use mutsuki_distributed_host.Registry.LoggedCompact.{FilesAgree, compact-FilesAgree}
use mutsuki_distributed_host.Registry.LoggedTransact.{IsClean, transact_locked-FilesAgree}

module _ {r : RuntimeContracts} {m : MetadataReplica} (c : Codec r)
    (options : RegistryOptions) where
  -- The files agree with the tables and with the transaction that is pending.
  abbrev Agrees : RegistryState r m → Type 0
  Agrees s = FilesAgree c options s s.pending

  forget-Agrees :
      {A : Type 0} (done : RegistryState r m × Result A)
      → Agrees done.0
      → Agrees (forget c options done).0
  forget-Agrees (s, ok a) l = l
  forget-Agrees (s, err e) l = l

  answer_staging-Agrees :
      (stale : Bool) (done : RegistryState r m × Result CommitProof)
      → Agrees done.0
      → Agrees (answer_staging c options stale done).0
  answer_staging-Agrees stale (s, err e) l = l
  answer_staging-Agrees true (s, ok proof) l = l
  answer_staging-Agrees false (s, ok proof) l = l

  module _ (s : RegistryState r m) (low : 64 ≤ options.max_record_bytes)
      (clean : All IsClean s.disk) (l : Agrees s) where
    transact_for-Agrees :
        (task : DurableTaskRecord r) (mutation : RegistryMutation r)
        → Agrees (transact_for c options task mutation s).0
    unfolding transact_for
    transact_for-Agrees task mutation =
        transact_locked-FilesAgree c options mutation (minimum_metadata_copies task.acceptance)
          (not (is_fast task.acceptance)) s low clean l

    transact_for_existing-Agrees :
        (mutation : RegistryMutation r) → Agrees (transact_for_existing c options mutation s).0
    unfolding transact_for_existing
    transact_for_existing-Agrees mutation = elim (Option-cases (get (task_id mutation) s.records)) [
      | inl e ↦ rw (e, transact_for_existing) l
      | inr (task, e) ↦ rw (e, transact_for_existing) (transact_for-Agrees task mutation)
    ]

    -- Every call of the registry's interface keeps the agreement of its files with its tables and
    -- its pending transaction, whether it succeeds or fails. A record may hold 64 bytes, the length of a
    -- transaction id, and no write to the log leaves a part of a frame behind.
    pub serve-FilesAgree :
        (op : ServiceCall r) (resources : ResourceCatalog r)
        → Agrees (serve c options op resources s)
    unfolding serve submit_task assign_task mark_running stage_task_output commit_task_output
        fail_task cancel_task
    serve-FilesAgree (submits spec) resources =
        elim (Result-cases (admit (length s.replicas) spec resources)) [
          | inr (e, a) ↦ rw (a, serve, submit_task) l
          | inl (copies, a) ↦
              rw (a, serve, submit_task)
                (transact_locked-FilesAgree c options (submit (new_task spec))
                  (minimum_metadata_copies spec.requested_acceptance)
                  (not (is_fast spec.requested_acceptance)) s low clean l)
        ]
    serve-FilesAgree (assigns id attempt node handle generation) resources =
        if-either (λ (done : RegistryState r m × Result (Unit {0})). Agrees done.0)
          (attempt == 0 || generation == 0) {x = (s, err invalid_config)} l
          (forget-Agrees (transact_for_existing c options _ s) (transact_for_existing-Agrees _))
    serve-FilesAgree (marks_running id attempt) resources =
        forget-Agrees (transact_for_existing c options (running id attempt) s)
          (transact_for_existing-Agrees (running id attempt))
    serve-FilesAgree (stages_output id attempt worker content) resources =
        elim (Option-cases (get id s.records)) [
          | inl e ↦ rw (e, serve, stage_task_output) l
          | inr (task, e) ↦ elim (Result-cases (staging task id attempt worker content resources)) [
            | inr (kind, a) ↦ rw (e, a, serve, stage_task_output) l
            | inl (staged, a) ↦
                rw (e, a, serve, stage_task_output)
                  (answer_staging-Agrees staged.1 (transact_for c options task staged.0 s)
                    (transact_for-Agrees task staged.0))
          ]
        ]
    serve-FilesAgree (commits_output id) resources = elim (Option-cases (get id s.records)) [
      | inl e ↦ rw (e, serve, commit_task_output) l
      | inr (task, e) ↦ elim (Result-cases (committing task resources)) [
        | inr (kind, a) ↦ rw (e, a, serve, commit_task_output) l
        | inl (content, a) ↦
            rw (e, a, serve, commit_task_output)
              (transact_for-Agrees task (commit_output id content))
      ]
    ]
    serve-FilesAgree (fails id reason needs_recovery) resources =
        let mutation =
          set_failure id (if needs_recovery then recovery_required else failed) reason in
        forget-Agrees (transact_for_existing c options mutation s)
          (transact_for_existing-Agrees mutation)
    serve-FilesAgree (cancels id) resources =
        forget-Agrees (transact_for_existing c options (cancel id) s)
          (transact_for_existing-Agrees (cancel id))
    serve-FilesAgree compacts resources = compact-FilesAgree c options s l
