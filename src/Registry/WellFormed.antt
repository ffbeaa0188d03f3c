-- ===== src/Registry/WellFormed.antt =====
-- The well-formed task records of persistent_registry.rs: their attempts, and what stands in each
-- state.
use mutsuki_distributed_host.Base.{
  ℕ, ◌<◌, ◌≡◌, refl, true, false, List, [], ◌∷◌, ◌++◌, none, some, arith, All, find_last, any, leb,
}
use mutsuki_distributed_host.Base.Map.{text_key}
use mutsuki_distributed_host.Contracts.{
  RuntimeContracts, GlobalTaskState, submitted, persisted, assigned, output_staged, committed,
  failed, cancelled, recovery_required, is_terminal, DurableAttempt, StagedOutput,
  DurableTaskRecord, active_attempt,
}
use mutsuki_distributed_host.Registry.Mutation.{RegistryMutation, assign, is_executing, deactivate}

pub executing-open : (s : GlobalTaskState) → is_executing s ≡ true → is_terminal s ≡ false
unfolding is_executing is_terminal
executing-open assigned h = refl
executing-open GlobalTaskState.running h = refl
executing-open _ h = cc

module _ {r : RuntimeContracts} where
  -- Each attempt has a higher number than those before it.
  abbrev pub Rising : List (DurableAttempt r) → Type 0
  Rising [] = Unit {0}
  Rising (a ∷ rest) = All (λ b. a.attempt < b.attempt) rest × Rising rest

  -- Only the newest attempt may be active.
  abbrev pub Settled : List (DurableAttempt r) → Type 0
  Settled [] = Unit {0}
  Settled (a ∷ []) = Unit {0}
  Settled (a ∷ b ∷ rest) = (a.active ≡ false) × Settled (b ∷ rest)

  -- What the record holds in each state.
  abbrev pub Shape : GlobalTaskState → DurableTaskRecord r → Type 0
  Shape submitted t = (t.attempts ≡ []) × (t.committed_output ≡ none)
  Shape persisted t = (t.attempts ≡ []) × (t.committed_output ≡ none)
  Shape assigned t =
      ((a : DurableAttempt r) × (active_attempt t ≡ some a)) × (t.committed_output ≡ none)
  Shape GlobalTaskState.running t =
      ((a : DurableAttempt r) × (active_attempt t ≡ some a)) × (t.committed_output ≡ none)
  Shape output_staged t =
      ((a : DurableAttempt r) × (s : StagedOutput r) × (active_attempt t ≡ some a)
        × (t.staged_output ≡ some s)
        × (a.attempt ≡ s.attempt)
        × (a.node_id ≡ s.worker_node))
      × (t.committed_output ≡ none)
  Shape committed t =
      ((s : StagedOutput r) × (t.staged_output ≡ some s) × (t.committed_output ≡ some s.content_id))
      × (active_attempt t ≡ none)
  Shape failed t = (active_attempt t ≡ none) × (t.committed_output ≡ none)
  Shape cancelled t = (active_attempt t ≡ none) × (t.committed_output ≡ none)
  Shape recovery_required t = (active_attempt t ≡ none) × (t.committed_output ≡ none)

  pub record IsWellFormed (t : DurableTaskRecord r) : Type 0 where
    pub rising : Rising t.attempts
    pub settled : Settled t.attempts
    pub shape : Shape t.state t

  -- The registry's own operations assign attempts as active.
  abbrev pub IsIssued : RegistryMutation r → Type 0
  IsIssued (assign id attempt) = attempt.active ≡ true
  IsIssued _ = Unit {0}

  pub All-deactivate :
      (n : ℕ) (xs : List (DurableAttempt r))
      → All (λ b. n < b.attempt) xs
      → All (λ b. n < b.attempt) (deactivate xs)
  unfolding deactivate
  All-deactivate n [] h = tt
  All-deactivate n (x ∷ xs) h = (h.0, All-deactivate n xs h.1)

  pub deactivate-Rising : (xs : List (DurableAttempt r)) → Rising xs → Rising (deactivate xs)
  unfolding deactivate
  deactivate-Rising [] h = tt
  deactivate-Rising (x ∷ xs) h = (All-deactivate x.attempt xs h.0, deactivate-Rising xs h.1)

  pub deactivate-Settled : (xs : List (DurableAttempt r)) → Settled (deactivate xs)
  unfolding deactivate
  deactivate-Settled [] = tt
  deactivate-Settled (x ∷ []) = tt
  deactivate-Settled (x ∷ y ∷ xs) = (refl, deactivate-Settled (y ∷ xs))

  pub find_last-deactivate :
      (xs : List (DurableAttempt r)) → find_last (λ a. a.active) (deactivate xs) ≡ none
  unfolding deactivate
  find_last-deactivate [] = refl
  find_last-deactivate (x ∷ xs) = rw (find_last-deactivate xs)

  pub find_last-append :
      (xs : List (DurableAttempt r)) (x : DurableAttempt r)
      → x.active ≡ true
      → find_last (λ a. a.active) (xs ++ x ∷ []) ≡ some x
  find_last-append [] x h = rw h
  find_last-append (y ∷ xs) x h = rw (find_last-append xs x h)

  pub append-Rising :
      (xs : List (DurableAttempt r)) (x : DurableAttempt r)
      → Rising xs
      → any (λ current. leb x.attempt current.attempt) xs ≡ false
      → Rising (deactivate xs ++ x ∷ [])
  unfolding deactivate
  append-Rising [] x h f = (tt, tt)
  append-Rising (y ∷ xs) x h f =
      (above xs (ground arith) h.0, append-Rising xs x h.1 (ground arith))
    where
      above :
          (zs : List (DurableAttempt r))
          → y.attempt < x.attempt
          → All (λ b. y.attempt < b.attempt) zs
          → All (λ b. y.attempt < b.attempt) (deactivate zs ++ x ∷ [])
      above [] l a = (l, tt)
      above (z ∷ zs) l a = (a.0, above zs l a.1)

  pub append-Settled :
      (xs : List (DurableAttempt r)) (x : DurableAttempt r) → Settled (deactivate xs ++ x ∷ [])
  unfolding deactivate
  append-Settled [] x = tt
  append-Settled (y ∷ []) x = (refl, tt)
  append-Settled (y ∷ z ∷ xs) x = (refl, append-Settled (z ∷ xs) x)
