-- ===== src/Registry/Service.antt =====
-- The operations of `PersistentRegistry` in persistent_registry.rs. Each holds the lock from its
-- first look at the state to its end, so it is one step from state to state.
use mutsuki_distributed_host.Base.{
  ℕ, ◌+◌, Bool, true, false, not, ◌&&◌, ◌||◌, [], ◌∷◌, Option, none, some, Text, if◌then◌else◌, ltb,
  leb, ◌==◌, length, is_empty, sat_add,
}
use mutsuki_distributed_host.Base.Outcome.{
  Result, ok, err, ◌>>=◌, ◌>>◌, refuse_if, or_fail, durability_unavailable, task_unknown,
  invalid_transition, invalid_config, attempt_stale,
}
use mutsuki_distributed_host.Base.Map.{get, text_key, ◌is◌}
use mutsuki_distributed_host.Contracts.{
  RuntimeContracts, GlobalTaskId, NodeId, AcceptanceMode, fast, durable, critical, is_fast,
  minimum_metadata_copies, failed, recovery_required, output_staged, DurableTaskSpec,
  DurableTaskRecord, active_attempt, AcceptanceReceipt, healthy_copies,
}
use mutsuki_distributed_host.Catalog.{
  ResourceCatalog, lookup_content, inputs_recoverable, minimum_healthy_copies, is_commit_ready,
}
use mutsuki_distributed_host.Registry.Mutation.{
  RegistryMutation, submit, assign, running, stage_output, conflict_output, commit_output,
  set_failure, cancel, task_id, state_is, accepted_state, is_executing,
}
use mutsuki_distributed_host.Registry.Store.{
  RegistryOptions, Codec, MetadataReplica, CommitProof, RegistryState, compact,
}
use mutsuki_distributed_host.Registry.Log.{transact_locked}

-- `RegistryStats`, less the path of the snapshot.
pub record RegistryStats : Type 0 where
  pub last_log_index : ℕ
  pub wal_transactions : ℕ
  pub wal_bytes : ℕ
  pub recovered_tail_bytes : ℕ

-- `Critical { minimum_replicas: 0 | 1 }`.
abbrev pub is_under_replicated : AcceptanceMode → Bool
is_under_replicated (critical minimum_replicas) = leb minimum_replicas 1
is_under_replicated other = false

-- "output belongs to a stale attempt".
abbrev pub stale_reason : Text
stale_reason =
    111 ∷ 117 ∷ 116 ∷ 112 ∷ 117 ∷ 116 ∷ 32 ∷ 98 ∷ 101 ∷ 108 ∷ 111 ∷ 110 ∷ 103 ∷ 115 ∷ 32 ∷ 116 ∷ 111
    ∷ 32 ∷ 97 ∷ 32 ∷ 115 ∷ 116 ∷ 97 ∷ 108 ∷ 101 ∷ 32 ∷ 97 ∷ 116 ∷ 116 ∷ 101 ∷ 109 ∷ 112 ∷ 116 ∷ []

module _ {r : RuntimeContracts} where
  -- Whether the inputs of a task may be relied on in its mode.
  unfoldable pub check_inputs :
      AcceptanceMode → DurableTaskSpec r → ResourceCatalog r → ℕ → Result (Unit {0})
  check_inputs fast spec resources input_copies = ok tt
  check_inputs durable spec resources input_copies =
      refuse_if (not (inputs_recoverable resources spec.required_inputs)) durability_unavailable
  check_inputs (critical minimum_replicas) spec resources input_copies =
      refuse_if
        (not (inputs_recoverable resources spec.required_inputs)
          || (not (is_empty spec.required_inputs) && ltb input_copies minimum_replicas))
        durability_unavailable

  -- The guards of `submit`; what passes them is the number of input copies.
  unfoldable pub admit : ℕ → DurableTaskSpec r → ResourceCatalog r → Result ℕ
  unfolding check_inputs
  admit replica_count spec resources = do
    let required = minimum_metadata_copies spec.requested_acceptance
    refuse_if
        (required == 0
          || is_under_replicated spec.requested_acceptance
          || ltb (sat_add replica_count 1) required)
        durability_unavailable
    input_copies ← minimum_healthy_copies resources spec.required_inputs
    check_inputs spec.requested_acceptance spec resources input_copies
    ok input_copies

  -- The record that a submission stores.
  unfoldable pub new_task : DurableTaskSpec r → DurableTaskRecord r
  new_task spec = record {
    spec = spec;
    state = accepted_state spec.requested_acceptance;
    acceptance = spec.requested_acceptance;
    metadata_copies = minimum_metadata_copies spec.requested_acceptance;
    attempts = [];
    staged_output = none;
    committed_output = none;
    conflicts = [];
    failure = none;
  }

  unfoldable pub receipt_for : DurableTaskSpec r → ℕ → CommitProof → AcceptanceReceipt
  receipt_for spec input_copies proof = record {
    global_task_id = spec.global_task_id;
    requested = spec.requested_acceptance;
    actual = spec.requested_acceptance;
    state = accepted_state spec.requested_acceptance;
    metadata_copies = length proof.replica_commits + 1;
    input_copies = input_copies;
    transaction_id = proof.transaction_id;
    log_index = proof.log_index;
    replica_commits = proof.replica_commits;
  }

  -- The mutation of an output, and whether the output is stale.
  unfoldable pub staging :
      DurableTaskRecord r
      → GlobalTaskId
      → ℕ
      → NodeId
      → r.ContentId
      → ResourceCatalog r
      → Result (RegistryMutation r × Bool)
  staging task id attempt worker content resources = do
    active ← or_fail (active_attempt task) invalid_transition
    let stale : Result (RegistryMutation r × Bool) = ok (
      conflict_output id (record {
        attempt = attempt;
        worker_node = worker;
        content_id = content;
        reason = stale_reason;
      }),
      true,
    )
    let current : Result (RegistryMutation r × Bool) = do
      refuse_if (not (is_executing task.state)) invalid_transition
      entry ← or_fail (lookup_content resources content) durability_unavailable
      refuse_if (not (is_commit_ready resources content task.acceptance)) durability_unavailable
      ok (
        stage_output id (record {
          attempt = attempt;
          worker_node = worker;
          content_id = content;
          verified_copies = healthy_copies entry;
        }),
        false,
      )
    if not (active.attempt == attempt) || not (active.node_id is worker) then stale else current

  -- What `commit_output` would commit.
  unfoldable pub committing : DurableTaskRecord r → ResourceCatalog r → Result r.ContentId
  committing task resources = do
    staged ← or_fail task.staged_output invalid_transition
    refuse_if
        (not (state_is task.state output_staged)
          || not (is_commit_ready resources staged.content_id task.acceptance))
        durability_unavailable
    ok staged.content_id

-- A call of the registry's interface that may change its state.
pub data ServiceCall (r : RuntimeContracts) : Type 0 where
  submits : DurableTaskSpec r → ServiceCall r
  assigns : GlobalTaskId → ℕ → NodeId → Option r.TaskHandle → ℕ → ServiceCall r
  marks_running : GlobalTaskId → ℕ → ServiceCall r
  stages_output : GlobalTaskId → ℕ → NodeId → r.ContentId → ServiceCall r
  commits_output : GlobalTaskId → ServiceCall r
  fails : GlobalTaskId → Text → Bool → ServiceCall r
  cancels : GlobalTaskId → ServiceCall r
  compacts : ServiceCall r

module _ {r : RuntimeContracts} {m : MetadataReplica} (c : Codec r)
    (options : RegistryOptions) where
  -- `.map(|_| ())`.
  abbrev pub forget {ℓ} :
      {A : Type ℓ} → RegistryState r m × Result A → RegistryState r m × Result (Unit {0})
  forget (s, ok a) = (s, ok tt)
  forget (s, err e) = (s, err e)

  -- A transaction on behalf of a task, with the copies that its acceptance asks for.
  unfoldable pub transact_for :
      DurableTaskRecord r
      → RegistryMutation r
      → RegistryState r m
      → RegistryState r m × Result CommitProof
  transact_for task mutation s =
      transact_locked c options mutation (minimum_metadata_copies task.acceptance)
        (not (is_fast task.acceptance)) s

  unfoldable pub transact_for_existing :
      RegistryMutation r → RegistryState r m → RegistryState r m × Result CommitProof
  unfolding transact_for
  transact_for_existing mutation s = elim (get (task_id mutation) s.records) [
    | none ↦ (s, err task_unknown)
    | some task ↦ transact_for task mutation s
  ]

  unfoldable pub submit_task :
      DurableTaskSpec r
      → ResourceCatalog r
      → RegistryState r m
      → RegistryState r m × Result AcceptanceReceipt
  unfolding admit new_task receipt_for
  submit_task spec resources s = elim (admit (length s.replicas) spec resources) [
    | err e ↦ (s, err e)
    | ok input_copies ↦
        let done =
          transact_locked c options (submit (new_task spec))
            (minimum_metadata_copies spec.requested_acceptance)
            (not (is_fast spec.requested_acceptance)) s in
        (done.0, done.1 >>= λ proof. ok (receipt_for spec input_copies proof))
  ]

  unfoldable pub assign_task :
      GlobalTaskId
      → ℕ
      → NodeId
      → Option r.TaskHandle
      → ℕ
      → RegistryState r m
      → RegistryState r m × Result (Unit {0})
  unfolding transact_for_existing
  assign_task id attempt node_id local_handle runner_generation s =
      if attempt == 0 || runner_generation == 0
      then (s, err invalid_config)
      else forget (
          transact_for_existing
            (assign id (record {
              attempt = attempt;
              node_id = node_id;
              local_handle = local_handle;
              runner_generation = runner_generation;
              active = true;
            }))
            s)

  unfoldable pub mark_running :
      GlobalTaskId → ℕ → RegistryState r m → RegistryState r m × Result (Unit {0})
  unfolding transact_for_existing
  mark_running id attempt s = forget (transact_for_existing (running id attempt) s)

  -- A stale output is kept as a conflict, and the caller is told.
  abbrev pub answer_staging :
      Bool → RegistryState r m × Result CommitProof → RegistryState r m × Result (Unit {0})
  answer_staging stale (s, err e) = (s, err e)
  answer_staging true (s, ok proof) = (s, err attempt_stale)
  answer_staging false (s, ok proof) = (s, ok tt)

  unfoldable pub stage_task_output :
      GlobalTaskId
      → ℕ
      → NodeId
      → r.ContentId
      → ResourceCatalog r
      → RegistryState r m
      → RegistryState r m × Result (Unit {0})
  unfolding staging transact_for
  stage_task_output id attempt worker content resources s = elim (get id s.records) [
    | none ↦ (s, err task_unknown)
    | some task ↦ elim (staging task id attempt worker content resources) [
      | err e ↦ (s, err e)
      | ok staged ↦ answer_staging staged.1 (transact_for task staged.0 s)
    ]
  ]

  unfoldable pub commit_task_output :
      GlobalTaskId → ResourceCatalog r → RegistryState r m → RegistryState r m × Result r.ContentId
  unfolding committing transact_for
  commit_task_output id resources s = elim (get id s.records) [
    | none ↦ (s, err task_unknown)
    | some task ↦ elim (committing task resources) [
      | err e ↦ (s, err e)
      | ok content ↦
          let done = transact_for task (commit_output id content) s in
          (done.0, done.1 >>= λ proof. ok content)
    ]
  ]

  unfoldable pub fail_task :
      GlobalTaskId → Text → Bool → RegistryState r m → RegistryState r m × Result (Unit {0})
  unfolding transact_for_existing
  fail_task id reason needs_recovery s = forget (
      transact_for_existing
        (set_failure id (if needs_recovery then recovery_required else failed) reason) s)

  unfoldable pub cancel_task :
      GlobalTaskId → RegistryState r m → RegistryState r m × Result (Unit {0})
  unfolding transact_for_existing
  cancel_task id s = forget (transact_for_existing (cancel id) s)

  -- The state after a call, whatever it answered.
  unfoldable pub serve : ServiceCall r → ResourceCatalog r → RegistryState r m → RegistryState r m
  unfolding submit_task assign_task mark_running stage_task_output commit_task_output fail_task
      cancel_task
  serve (submits spec) resources s = (submit_task spec resources s).0
  serve (assigns id attempt node_id handle generation) resources s =
      (assign_task id attempt node_id handle generation s).0
  serve (marks_running id attempt) resources s = (mark_running id attempt s).0
  serve (stages_output id attempt worker content) resources s =
      (stage_task_output id attempt worker content resources s).0
  serve (commits_output id) resources s = (commit_task_output id resources s).0
  serve (fails id reason needs_recovery) resources s = (fail_task id reason needs_recovery s).0
  serve (cancels id) resources s = (cancel_task id s).0
  serve compacts resources s = (compact c options s).0

module _ {r : RuntimeContracts} {m : MetadataReplica} where
  unfoldable pub query : GlobalTaskId → RegistryState r m → Option (DurableTaskRecord r)
  query id s = get id s.records

  unfoldable pub stats : RegistryState r m → RegistryStats
  stats s = record {
    last_log_index = s.last_log_index;
    wal_transactions = s.wal_transactions;
    wal_bytes = length s.wal;
    recovered_tail_bytes = s.recovered_tail_bytes;
  }
