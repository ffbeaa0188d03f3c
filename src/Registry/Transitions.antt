-- ===== src/Registry/Transitions.antt =====
-- What the mutations of persistent_registry.rs can never do: change a finished task, lose a
-- committed output, or stage the output of an attempt that was replaced.
use mutsuki_distributed_host.Base.{
  ℕ, ◌≤◌, ◌≡◌, refl, ◌∙◌, true, List, [], ◌∷◌, some, arith, inl, inr, Option-cases, All, find_last,
  if_neg, if_pos, text_discrete,
}
use mutsuki_distributed_host.Base.Outcome.{ok, err, Result-cases}
use mutsuki_distributed_host.Base.Map.{Map, get, insert, text_key, get-insert}
use mutsuki_distributed_host.Contracts.{
  RuntimeContracts, GlobalTaskId, is_terminal, DurableAttempt, StagedOutput, DurableTaskRecord,
  active_attempt,
}
use mutsuki_distributed_host.Registry.Mutation.{
  RegistryMutation, submit, assign, running, stage_output, conflict_output, commit_output,
  set_failure, cancel, task_id, apply_assign, apply_running, apply_stage, apply_commit,
  apply_failure, apply_cancel, apply_existing, prepare_existing_mutation, prepare_submit,
  prepare_mutation, is_executing,
}
use mutsuki_distributed_host.Registry.WellFormed.{IsWellFormed, Rising, Settled}

module _ {r : RuntimeContracts} where
  newest :
      (xs : List (DurableAttempt r)) (a : DurableAttempt r)
      → Rising xs
      → Settled xs
      → find_last (λ x. x.active) xs ≡ some a
      → All (λ b. b.attempt ≤ a.attempt) xs
  newest [] a i s h = tt
  newest (x ∷ []) a i s h = (ground arith, tt)
  newest (x ∷ y ∷ ys) a i s h = elim (Option-cases (find_last (λ x. x.active) (y ∷ ys))) [
    | inl n ↦ absurd (ground arith)
    | inr (b, e) ↦
        let rest = newest (y ∷ ys) a i.1 s.1 (ground arith) in (omega (arith, i.0.0, rest.0), rest)
  ]

  -- Fencing: in a well-formed record, staged output is accepted only from the newest attempt, so
  -- no attempt that was replaced by a later one can stage its output.
  pub apply_stage-newest :
      (o : StagedOutput r) (t u : DurableTaskRecord r)
      → IsWellFormed t
      → apply_stage o t ≡ ok u
      → All (λ b. b.attempt ≤ o.attempt) t.attempts
  unfolding apply_stage active_attempt
  apply_stage-newest o t u w h = elim (Option-cases (find_last (λ x. x.active) t.attempts)) [
    | inl n ↦ absurd (ground arith)
    | inr (a, f) ↦
        let same : a.attempt ≡ o.attempt = ground arith in
        rw (← same) (newest t.attempts a w.rising w.settled f)
  ]

  -- An accepted mutation of a finished record.
  terminal-kept :
      (m : RegistryMutation r) (t u : DurableTaskRecord r)
      → is_terminal t.state ≡ true
      → apply_existing m t ≡ ok u
      → (u.state ≡ t.state)
        × (u.committed_output ≡ t.committed_output)
        × (u.attempts ≡ t.attempts)
        × (u.staged_output ≡ t.staged_output)
  unfolding apply_existing apply_assign apply_running apply_stage apply_commit apply_failure
      apply_cancel is_executing is_terminal
  terminal-kept (submit task) t u f h = absurd (cc)
  terminal-kept (assign id a) t u f h = absurd (ground arith)
  terminal-kept (running id n) t u f h = absurd (ground arith)
  terminal-kept (stage_output id o) t u f h = absurd (ground arith)
  terminal-kept (conflict_output id o) t u f h = (cc, cc, cc, cc)
  terminal-kept (commit_output id c) t u f h = absurd (ground arith)
  terminal-kept (set_failure id s reason) t u f h = absurd (ground arith)
  terminal-kept (cancel id) t u f h = absurd (ground arith)

  -- The records after a mutation: stored where it is accepted, untouched where it is refused.
  pub store :
      ℕ
      → Map GlobalTaskId (DurableTaskRecord r)
      → RegistryMutation r
      → Map GlobalTaskId (DurableTaskRecord r)
  store max_tasks records m = elim (prepare_mutation records m max_tasks) [
    | ok task ↦ insert (task_id m) task records
    | err e ↦ records
  ]

  pub store_all :
      ℕ
      → Map GlobalTaskId (DurableTaskRecord r)
      → List (RegistryMutation r)
      → Map GlobalTaskId (DurableTaskRecord r)
  store_all max_tasks records [] = records
  store_all max_tasks records (m ∷ ms) = store_all max_tasks (store max_tasks records m) ms

  -- The task is finished, with this state and output.
  abbrev pub Finished : DurableTaskRecord r → DurableTaskRecord r → Type 0
  Finished t u =
      (u.state ≡ t.state)
      × (u.committed_output ≡ t.committed_output)
      × (u.attempts ≡ t.attempts)
      × (u.staged_output ≡ t.staged_output)

  prepared-kept :
      (max_tasks : ℕ) (records : Map GlobalTaskId (DurableTaskRecord r)) (m : RegistryMutation r)
      (t u : DurableTaskRecord r)
      → get (task_id m) records ≡ some t
      → is_terminal t.state ≡ true
      → prepare_mutation records m max_tasks ≡ ok u
      → Finished t u
  unfolding prepare_mutation prepare_existing_mutation prepare_submit task_id
  prepared-kept max_tasks records (submit task) t u e f h = absurd (ground arith)
  prepared-kept max_tasks records m t u e f h = terminal-kept m t u f (rw e at h)

  store-kept :
      (max_tasks : ℕ) (records : Map GlobalTaskId (DurableTaskRecord r)) (m : RegistryMutation r)
      (id : GlobalTaskId) (t : DurableTaskRecord r)
      → get id records ≡ some t
      → is_terminal t.state ≡ true
      → (u : DurableTaskRecord r) × (get id (store max_tasks records m) ≡ some u) × Finished t u
  unfolding store
  store-kept max_tasks records m id t e f =
      elim (Result-cases (prepare_mutation records m max_tasks)) [
        | inr (kind, p) ↦ rw (p, store) (t, e, (refl, refl, refl, refl))
        | inl (u, p) ↦
            rw (p, store)
              (elim (text_discrete (task_id m) id) [
                | yes same ↦ (
                  u,
                  get-insert (task_id m) id u records
                      ∙ if_pos (text_discrete (task_id m) id) same _ _,
                  prepared-kept max_tasks records m t u (rw same e) f p,
                )
                | no other ↦ (
                  t,
                  get-insert (task_id m) id u records
                      ∙ if_neg (text_discrete (task_id m) id) other _ _
                      ∙ e,
                  (refl, refl, refl, refl),
                )
              ])
      ]

  -- Whatever mutations follow, of any tasks and in any order: a task that was committed, failed or
  -- cancelled keeps its state, its committed and staged outputs and its attempts.
  pub store_all-kept :
      (max_tasks : ℕ) (records : Map GlobalTaskId (DurableTaskRecord r))
      (ms : List (RegistryMutation r)) (id : GlobalTaskId) (t : DurableTaskRecord r)
      → get id records ≡ some t
      → is_terminal t.state ≡ true
      → (u : DurableTaskRecord r) × (get id (store_all max_tasks records ms) ≡ some u)
        × Finished t u
  unfolding store_all
  store_all-kept max_tasks records [] id t e f = (t, e, (refl, refl, refl, refl))
  store_all-kept max_tasks records (m ∷ ms) id t e f =
      let (u, g, k) = store-kept max_tasks records m id t e f in
      let (v, h, l) = store_all-kept max_tasks (store max_tasks records m) ms id u g (rw k.0 f) in
      (v, h, (l.0 ∙ k.0, l.1 ∙ k.1, l.2 ∙ k.2, l.3 ∙ k.3))
