-- ===== src/Registry/Lifecycle.antt =====
-- The life of a task record under the mutations of persistent_registry.rs.
use mutsuki_distributed_host.Base.{
  ℕ, ◌≡◌, refl, true, false, List, [], ◌∷◌, ◌++◌, none, Text, arith, inl, inr, Option-cases, All,
  subst,
}
use mutsuki_distributed_host.Base.Outcome.{ok, refuse_if-ok}
use mutsuki_distributed_host.Base.Map.{Map, get, text_key, All-get}
use mutsuki_distributed_host.Contracts.{
  RuntimeContracts, GlobalTaskId, GlobalTaskState, submitted, persisted, assigned, output_staged,
  committed, failed, cancelled, recovery_required, is_terminal, DurableAttempt, StagedOutput,
  ConflictOutput, DurableTaskRecord, active_attempt, AcceptanceMode, fast, durable, critical,
}
use mutsuki_distributed_host.Registry.Mutation.{
  RegistryMutation, submit, assign, running, stage_output, conflict_output, commit_output,
  set_failure, cancel, task_id, accepted_state, is_failure, deactivate, active_is, apply_assign,
  apply_running, apply_stage, apply_commit, apply_failure, apply_cancel, apply_existing,
  prepare_existing_mutation, prepare_submit, prepare_mutation,
}
use mutsuki_distributed_host.Registry.WellFormed.{
  IsWellFormed, IsIssued, Rising, Settled, Shape, executing-open, deactivate-Rising,
  deactivate-Settled, find_last-deactivate, find_last-append, append-Rising, append-Settled,
}

module _ {r : RuntimeContracts} where
  -- Where nothing is committed, nothing stands as the committed output.
  uncommitted :
      (s : GlobalTaskState) (t : DurableTaskRecord r)
      → Shape s t
      → is_terminal s ≡ false
      → t.committed_output ≡ none
  unfolding is_terminal
  uncommitted submitted t h n = h.1
  uncommitted persisted t h n = h.1
  uncommitted assigned t h n = h.1
  uncommitted GlobalTaskState.running t h n = h.1
  uncommitted output_staged t h n = h.1
  uncommitted committed t h n = cc
  uncommitted failed t h n = h.1
  uncommitted cancelled t h n = h.1
  uncommitted recovery_required t h n = h.1

  -- The record after its attempts are closed.
  closed :
      (t u : DurableTaskRecord r)
      → IsWellFormed t
      → u.attempts ≡ deactivate t.attempts
      → (active_attempt u ≡ none → Shape u.state u)
      → IsWellFormed u
  unfolding active_attempt
  closed t u w e f = record {
    rising = rw e (deactivate-Rising t.attempts w.rising);
    settled = rw e (deactivate-Settled t.attempts);
    shape = f (rw e (find_last-deactivate t.attempts));
  }

  apply_assign-IsWellFormed :
      (a : DurableAttempt r) (t u : DurableTaskRecord r)
      → a.active ≡ true
      → IsWellFormed t
      → apply_assign a t ≡ ok u
      → IsWellFormed u
  unfolding apply_assign active_attempt
  apply_assign-IsWellFormed a t u on w h =
      let (open_, e) = refuse_if-ok _ _ h in
      subst IsWellFormed e (record {
        rising = append-Rising t.attempts a w.rising (ground arith);
        settled = append-Settled t.attempts a;
        shape = (
          (a, find_last-append (deactivate t.attempts) a on),
          uncommitted t.state t w.shape (ground arith),
        );
      })

  apply_running-IsWellFormed :
      (n : ℕ) (t u : DurableTaskRecord r)
      → IsWellFormed t
      → apply_running n t ≡ ok u
      → IsWellFormed u
  unfolding apply_running active_is active_attempt
  apply_running-IsWellFormed n t u w h =
      let (open_, e) = refuse_if-ok _ _ h in
      let s : t.state ≡ assigned = ground arith in
      subst IsWellFormed e (record {
        rising = w.rising;
        settled = w.settled;
        shape = subst (λ x. Shape x t) s w.shape;
      })

  apply_stage-IsWellFormed :
      (o : StagedOutput r) (t u : DurableTaskRecord r)
      → IsWellFormed t
      → apply_stage o t ≡ ok u
      → IsWellFormed u
  unfolding apply_stage
  apply_stage-IsWellFormed o t u w h = elim (Option-cases (active_attempt t)) [
    | inl n ↦ absurd (ground arith)
    | inr (a, f) ↦
        let (open_, e) = refuse_if-ok _ _ (rw f at h) in
        subst IsWellFormed e (record {
          rising = w.rising;
          settled = w.settled;
          shape = (
            (a, o, unfold active_attempt in f, refl, ground arith, ground arith),
            uncommitted t.state t w.shape (executing-open t.state (ground arith)),
          );
        })
  ]

  apply_commit-IsWellFormed :
      (content : r.ContentId) (t u : DurableTaskRecord r)
      → IsWellFormed t
      → apply_commit content t ≡ ok u
      → IsWellFormed u
  unfolding apply_commit
  apply_commit-IsWellFormed content t u w h =
      let (open_, e) = refuse_if-ok _ _ h in
      let s : t.state ≡ output_staged = ground arith in
      let ((a, o, f, g, i, j), n) = subst (λ x. Shape x t) s w.shape in
      subst IsWellFormed e (closed t _ w refl (λ none_active. ((o, g, ground arith), none_active)))

  apply_failure-IsWellFormed :
      (state : GlobalTaskState) (reason : Text) (t u : DurableTaskRecord r)
      → IsWellFormed t
      → apply_failure state reason t ≡ ok u
      → IsWellFormed u
  unfolding apply_failure is_failure
  apply_failure-IsWellFormed failed reason t u w h =
      let (open_, e) = refuse_if-ok _ _ h in
      subst IsWellFormed e
        (closed t _ w refl (λ n. (n, uncommitted t.state t w.shape (ground arith))))
  apply_failure-IsWellFormed recovery_required reason t u w h =
      let (open_, e) = refuse_if-ok _ _ h in
      subst IsWellFormed e
        (closed t _ w refl (λ n. (n, uncommitted t.state t w.shape (ground arith))))
  apply_failure-IsWellFormed _ reason t u w h = absurd (ground arith)

  apply_cancel-IsWellFormed :
      (t u : DurableTaskRecord r) → IsWellFormed t → apply_cancel t ≡ ok u → IsWellFormed u
  unfolding apply_cancel
  apply_cancel-IsWellFormed t u w h =
      let (open_, e) = refuse_if-ok _ _ h in
      subst IsWellFormed e (closed t _ w refl (λ n. (n, uncommitted t.state t w.shape open_)))

  -- A conflicting output is noted and changes nothing else.
  conflict-IsWellFormed :
      (s : GlobalTaskState) (t : DurableTaskRecord r) (cs : List (ConflictOutput r))
      → Shape s t
      → Shape s (record t { conflicts = cs })
  unfolding active_attempt
  conflict-IsWellFormed submitted t cs h = h
  conflict-IsWellFormed persisted t cs h = h
  conflict-IsWellFormed assigned t cs h = h
  conflict-IsWellFormed GlobalTaskState.running t cs h = h
  conflict-IsWellFormed output_staged t cs h = h
  conflict-IsWellFormed committed t cs h = h
  conflict-IsWellFormed failed t cs h = h
  conflict-IsWellFormed cancelled t cs h = h
  conflict-IsWellFormed recovery_required t cs h = h

  pub apply_existing-IsWellFormed :
      (m : RegistryMutation r) (t u : DurableTaskRecord r)
      → IsIssued m
      → IsWellFormed t
      → apply_existing m t ≡ ok u
      → IsWellFormed u
  unfolding apply_existing
  apply_existing-IsWellFormed (submit task) t u i w h = absurd (cc)
  apply_existing-IsWellFormed (assign id a) t u i w h = apply_assign-IsWellFormed a t u i w h
  apply_existing-IsWellFormed (running id n) t u i w h = apply_running-IsWellFormed n t u w h
  apply_existing-IsWellFormed (stage_output id o) t u i w h = apply_stage-IsWellFormed o t u w h
  apply_existing-IsWellFormed (conflict_output id o) t u i w h = subst IsWellFormed (cc) (record {
    rising = w.rising;
    settled = w.settled;
    shape = conflict-IsWellFormed t.state t (t.conflicts ++ o ∷ []) w.shape;
  })
  apply_existing-IsWellFormed (commit_output id c) t u i w h = apply_commit-IsWellFormed c t u w h
  apply_existing-IsWellFormed (set_failure id s reason) t u i w h =
      apply_failure-IsWellFormed s reason t u w h
  apply_existing-IsWellFormed (cancel id) t u i w h = apply_cancel-IsWellFormed t u w h

  accepted-Shape :
      (mode : AcceptanceMode) (t : DurableTaskRecord r)
      → t.attempts ≡ []
      → t.committed_output ≡ none
      → Shape (accepted_state mode) t
  unfolding accepted_state
  accepted-Shape fast t a c = (a, c)
  accepted-Shape durable t a c = (a, c)
  accepted-Shape (critical n) t a c = (a, c)

  no-attempts : (xs : List (DurableAttempt r)) → xs ≡ [] → Rising xs × Settled xs
  no-attempts [] e = (tt, tt)
  no-attempts (x ∷ xs) e = cc

  prepare_submit-IsWellFormed :
      (records : Map GlobalTaskId (DurableTaskRecord r)) (max_tasks : ℕ) (t u : DurableTaskRecord r)
      → prepare_submit records max_tasks t ≡ ok u
      → IsWellFormed u
  unfolding prepare_submit
  prepare_submit-IsWellFormed records max_tasks t u h =
      let same : t ≡ u = ground arith in
      let empty : t.attempts ≡ [] = ground arith in
      let state : accepted_state t.acceptance ≡ t.state = ground arith in
      subst IsWellFormed same (record {
        rising = (no-attempts t.attempts empty).0;
        settled = (no-attempts t.attempts empty).1;
        shape = subst (λ s. Shape s t) state (accepted-Shape t.acceptance t empty (ground arith));
      })

  prepare_existing-IsWellFormed :
      (records : Map GlobalTaskId (DurableTaskRecord r)) (m : RegistryMutation r)
      (u : DurableTaskRecord r)
      → IsIssued m
      → All (λ e. IsWellFormed e.1) records
      → prepare_existing_mutation records m ≡ ok u
      → IsWellFormed u
  unfolding prepare_existing_mutation
  prepare_existing-IsWellFormed records m u i w h = elim (Option-cases (get (task_id m) records)) [
    | inl n ↦ absurd (ground arith)
    | inr (t, e) ↦
        apply_existing-IsWellFormed m t u i
          (All-get (λ x. IsWellFormed x.1) (task_id m) records w e) (rw e at h)
  ]

  -- Over well-formed records, every mutation that the registry accepts results in a well-formed
  -- record, an assignment being of an active attempt, as the registry issues it: attempt numbers
  -- rise, only the newest attempt may be active, a task that executes or has staged output has an
  -- active attempt, the staged output is that attempt's, a finished task has none, and an output
  -- is committed in the state Committed alone, where it is the staged one.
  pub prepare_mutation-IsWellFormed :
      (records : Map GlobalTaskId (DurableTaskRecord r)) (m : RegistryMutation r) (max_tasks : ℕ)
      (u : DurableTaskRecord r)
      → IsIssued m
      → All (λ e. IsWellFormed e.1) records
      → prepare_mutation records m max_tasks ≡ ok u
      → IsWellFormed u
  unfolding prepare_mutation
  prepare_mutation-IsWellFormed records (submit t) max_tasks u i w h =
      prepare_submit-IsWellFormed records max_tasks t u h
  prepare_mutation-IsWellFormed records m max_tasks u i w h =
      prepare_existing-IsWellFormed records m u i w h
