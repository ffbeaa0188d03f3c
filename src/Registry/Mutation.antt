-- ===== src/Registry/Mutation.antt =====
-- The mutations of persistent_registry.rs and the record that each of them results in.
use mutsuki_distributed_host.Base.{
  ℕ, Bool, true, false, not, ◌||◌, List, [], ◌∷◌, ◌++◌, Option, none, some, Text, leb, ◌==◌,
  if◌then◌else◌, length, any, is_empty, is_some, holds,
}
use mutsuki_distributed_host.Base.Outcome.{
  Result, ok, err, ◌>>=◌, ◌>>◌, refuse_if, or_fail, conflict, capacity_exceeded, invalid_transition,
  task_unknown,
}
use mutsuki_distributed_host.Base.Map.{Map, get, contains, text_key, ◌is◌}
use mutsuki_distributed_host.Contracts.{
  RuntimeContracts, GlobalTaskId, AcceptanceMode, fast, durable, critical, GlobalTaskState,
  submitted, persisted, assigned, output_staged, committed, failed, cancelled, recovery_required,
  GlobalTaskState-discrete, is_terminal, DurableAttempt, StagedOutput, ConflictOutput,
  DurableTaskRecord, active_attempt,
}

pub data RegistryMutation (r : RuntimeContracts) : Type 0 where
  submit : DurableTaskRecord r → RegistryMutation r
  assign : GlobalTaskId → DurableAttempt r → RegistryMutation r
  running : GlobalTaskId → ℕ → RegistryMutation r
  stage_output : GlobalTaskId → StagedOutput r → RegistryMutation r
  conflict_output : GlobalTaskId → ConflictOutput r → RegistryMutation r
  commit_output : GlobalTaskId → r.ContentId → RegistryMutation r
  set_failure : GlobalTaskId → GlobalTaskState → Text → RegistryMutation r
  cancel : GlobalTaskId → RegistryMutation r

abbrev pub state_is : GlobalTaskState → GlobalTaskState → Bool
state_is s t = holds (GlobalTaskState-discrete s t)

-- The state in which a task is accepted.
unfoldable pub accepted_state : AcceptanceMode → GlobalTaskState
accepted_state fast = submitted
accepted_state durable = persisted
accepted_state (critical minimum_replicas) = persisted

-- `matches!(state, Assigned | Running)`.
unfoldable pub is_executing : GlobalTaskState → Bool
is_executing assigned = true
is_executing GlobalTaskState.running = true
is_executing _ = false

-- `matches!(state, Failed | RecoveryRequired)`.
unfoldable pub is_failure : GlobalTaskState → Bool
is_failure failed = true
is_failure recovery_required = true
is_failure _ = false

module _ {r : RuntimeContracts} where
  unfoldable pub task_id : RegistryMutation r → GlobalTaskId
  task_id (submit task) = task.spec.global_task_id
  task_id (assign id attempt) = id
  task_id (running id attempt) = id
  task_id (stage_output id output) = id
  task_id (conflict_output id output) = id
  task_id (commit_output id content) = id
  task_id (set_failure id state reason) = id
  task_id (cancel id) = id

  unfoldable pub deactivate : List (DurableAttempt r) → List (DurableAttempt r)
  deactivate [] = []
  deactivate (a ∷ rest) = record a { active = false } ∷ deactivate rest

  -- `active_attempt().map(..) != Some(attempt)`, the other way round.
  unfoldable pub active_is : Option (DurableAttempt r) → ℕ → Bool
  active_is none attempt = false
  active_is (some a) attempt = a.attempt == attempt

  abbrev pub staged_is : Option (StagedOutput r) → r.ContentId → Bool
  staged_is none content = false
  staged_is (some staged) content = holds (r.content_discrete staged.content_id content)

  unfoldable pub apply_assign :
      DurableAttempt r → DurableTaskRecord r → Result (DurableTaskRecord r)
  unfolding deactivate
  apply_assign attempt task = do
    refuse_if
        (is_terminal task.state
          || state_is task.state output_staged
          || attempt.attempt == 0
          || attempt.runner_generation == 0
          || any (λ current. leb attempt.attempt current.attempt) task.attempts)
        invalid_transition
    ok (record task { attempts = deactivate task.attempts ++ attempt ∷ []; state = assigned })

  unfoldable pub apply_running : ℕ → DurableTaskRecord r → Result (DurableTaskRecord r)
  apply_running attempt task = do
    refuse_if (not (state_is task.state assigned) || not (active_is (active_attempt task) attempt))
        invalid_transition
    ok (record task { state = GlobalTaskState.running })

  unfoldable pub apply_stage : StagedOutput r → DurableTaskRecord r → Result (DurableTaskRecord r)
  apply_stage output task = do
    active ← or_fail (active_attempt task) invalid_transition
    refuse_if
        (not (is_executing task.state)
          || not (active.attempt == output.attempt)
          || not (active.node_id is output.worker_node))
        invalid_transition
    ok (record task { staged_output = some output; state = output_staged })

  unfoldable pub apply_commit : r.ContentId → DurableTaskRecord r → Result (DurableTaskRecord r)
  unfolding deactivate
  apply_commit content task = do
    refuse_if
        (not (state_is task.state output_staged) || not (staged_is task.staged_output content))
        invalid_transition
    ok (record task {
      committed_output = some content;
      state = committed;
      attempts = deactivate task.attempts;
    })

  unfoldable pub apply_failure :
      GlobalTaskState → Text → DurableTaskRecord r → Result (DurableTaskRecord r)
  unfolding deactivate
  apply_failure state reason task = do
    refuse_if (is_terminal task.state || not (is_failure state)) invalid_transition
    ok (record task { state = state; failure = some reason; attempts = deactivate task.attempts })

  unfoldable pub apply_cancel : DurableTaskRecord r → Result (DurableTaskRecord r)
  unfolding deactivate
  apply_cancel task = do
    refuse_if (is_terminal task.state) invalid_transition
    ok (record task { state = cancelled; attempts = deactivate task.attempts })

  -- The `match` of `prepare_existing_mutation`. A submission never reaches it: where the source
  -- has `unreachable!()` the model refuses the transition.
  unfoldable pub apply_existing :
      RegistryMutation r → DurableTaskRecord r → Result (DurableTaskRecord r)
  apply_existing (submit task') task = err invalid_transition
  apply_existing (assign id attempt) task = apply_assign attempt task
  apply_existing (running id attempt) task = apply_running attempt task
  apply_existing (stage_output id output) task = apply_stage output task
  apply_existing (conflict_output id output) task =
      ok (record task { conflicts = task.conflicts ++ output ∷ [] })
  apply_existing (commit_output id content) task = apply_commit content task
  apply_existing (set_failure id state reason) task = apply_failure state reason task
  apply_existing (cancel id) task = apply_cancel task

  unfoldable pub prepare_existing_mutation :
      Map GlobalTaskId (DurableTaskRecord r) → RegistryMutation r → Result (DurableTaskRecord r)
  prepare_existing_mutation records mutation = do
    task ← or_fail (get (task_id mutation) records) task_unknown
    apply_existing mutation task

  unfoldable pub prepare_submit :
      Map GlobalTaskId (DurableTaskRecord r)
      → ℕ
      → DurableTaskRecord r
      → Result (DurableTaskRecord r)
  prepare_submit records max_tasks task =
      let known = contains task.spec.global_task_id records in
      let full = leb max_tasks (length records) in
      if full
        || known
        || not (state_is task.state (accepted_state task.acceptance))
        || not (is_empty task.attempts)
        || is_some task.staged_output
        || is_some task.committed_output
      then err (if known then conflict else if full then capacity_exceeded else invalid_transition)
      else ok task

  unfoldable pub prepare_mutation :
      Map GlobalTaskId (DurableTaskRecord r) → RegistryMutation r → ℕ → Result (DurableTaskRecord r)
  prepare_mutation records (submit task) max_tasks = prepare_submit records max_tasks task
  prepare_mutation records mutation max_tasks = prepare_existing_mutation records mutation
