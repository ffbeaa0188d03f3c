-- ===== src/Registry/Gathered.antt =====
-- The proofs that a pending transaction of persistent_registry.rs has gathered: of different
-- replicas that answered Ok, whatever transactions are tried.
use mutsuki_distributed_host.Base.{
  [], arith, ℕ, ◌-◌, ◌≡◌, refl, sym, ap, subst, Text, Bool, not, ◌||◌, ◌==◌, Option, none, some,
  Bytes, holds, ltb, length, inl, inr, Option-cases, if-either,
}
use mutsuki_distributed_host.Base.Outcome.{Result, ok, err, Result-cases}
use mutsuki_distributed_host.Base.Map.{Map, text_key}
use mutsuki_distributed_host.Contracts.{RuntimeContracts, DurableTaskRecord, MetadataCommitProof}
use mutsuki_distributed_host.Registry.Mutation.{RegistryMutation, task_id, prepare_mutation}
use mutsuki_distributed_host.Registry.Store.{
  RegistryOptions, Codec, MetadataReplica, PendingTransaction, CommitProof, RegistryState,
  append_local, version_of,
}
use mutsuki_distributed_host.Registry.Replicate.{replicate_transaction}
use mutsuki_distributed_host.Registry.Vouched.{
  IsGathered, replicate_transaction-IsUnique, replicate_transaction-Attested,
  replicate_transaction-metadata,
}
use mutsuki_distributed_host.Registry.Log.{
  new_transaction, begin_transaction, finish_commit, finish_transaction, continue_transaction,
  prepare_pending_transaction, transact_locked,
}

-- The proofs that a pending transaction has gathered; none without one.
abbrev pub gathered :
    {r : RuntimeContracts} → Option (PendingTransaction r) → Map Text MetadataCommitProof
gathered none = []
gathered (some p) = p.proofs

-- A pending transaction has the proofs of replicas that answered Ok.
abbrev pub IsPending :
    {r : RuntimeContracts} → MetadataReplica → Option (PendingTransaction r) → Type 0
IsPending m none = Unit
IsPending m (some p) = IsGathered m p

module _ {r : RuntimeContracts} {m : MetadataReplica} (c : Codec r)
    (options : RegistryOptions) where
  -- A transaction that was begun has the proofs gathered so far, before the replicas of the state.
  abbrev pub Begins : RegistryState r m → RegistryState r m × Result (PendingTransaction r) → Type 0
  Begins s (t, begun) =
      (t.replicas ≡ s.replicas)
      × ((p : PendingTransaction r) → begun ≡ ok p → p.proofs ≡ gathered s.pending)

  new_transaction-proofs :
      (s : RegistryState r m) (mutation : RegistryMutation r) (bytes : Bytes)
      (resulting : DurableTaskRecord r) (version : ℕ) (p : PendingTransaction r)
      → new_transaction c options s mutation bytes resulting version ≡ ok p
      → p.proofs ≡ []
  unfolding new_transaction
  new_transaction-proofs s mutation bytes resulting version p h = ground arith

  begin_transaction-Begins :
      (s : RegistryState r m) (mutation : RegistryMutation r) (bytes : Bytes)
      (resulting : DurableTaskRecord r) (version : ℕ)
      → s.pending ≡ none
      → Begins s (begin_transaction c options s mutation bytes resulting version)
  unfolding begin_transaction append_local
  begin_transaction-Begins s mutation bytes resulting version idle =
      elim (Result-cases (new_transaction c options s mutation bytes resulting version)) [
        | inr (e, h) ↦ rw (begin_transaction, h) (refl, λ p k. absurd cc)
        | inl (p, h) ↦
            rw (begin_transaction, h)
              (
                refl,
                λ q k.
                    let same : p ≡ q = ground arith in
                    rw idle (
                      subst (λ (x : PendingTransaction r). x.proofs ≡ []) same
                        (new_transaction-proofs s mutation bytes resulting version p h)),
              )
      ]

  pub prepare_pending-Begins :
      (pending : Option (PendingTransaction r)) (s : RegistryState r m)
      (mutation : RegistryMutation r) (bytes : Bytes) (resulting : DurableTaskRecord r)
      (version : ℕ)
      → s.pending ≡ pending
      → Begins s (prepare_pending_transaction c options pending s mutation bytes resulting version)
  unfolding prepare_pending_transaction
  prepare_pending-Begins none s mutation bytes resulting version h =
      begin_transaction-Begins s mutation bytes resulting version h
  prepare_pending-Begins (some existing) s mutation bytes resulting version h =
      if-either (λ (x : RegistryState r m × Result (PendingTransaction r)). Begins s x)
        (not (holds (c.mutation_discrete existing.prepared.mutation mutation))
          || not (existing.prepared.previous_version == version))
        (refl, λ p k. absurd cc)
        (
          refl,
          λ p k.
              let same : existing ≡ p = ground arith in
              rw h (ap (λ (x : PendingTransaction r). x.proofs) (sym same)),
        )

  -- The proofs that a step leaves behind.
  abbrev Keeps : {A : Type 0} → RegistryState r m × Result A → Type 0
  Keeps x = IsPending m x.0.pending

  finish_commit-Keeps :
      (acks : ℕ) (p : PendingTransaction r) (appended : RegistryState r m × Result (Unit {0}))
      → IsGathered m p
      → Keeps (finish_commit c options acks p appended)
  unfolding finish_commit
  finish_commit-Keeps acks p (s, err e) unique = unique
  finish_commit-Keeps acks p (s, ok done) unique = tt

  finish_transaction-Keeps :
      (acks : ℕ) (p : PendingTransaction r) (s : RegistryState r m)
      → IsGathered m p
      → Keeps (finish_transaction c options acks p s)
  unfolding finish_transaction
  finish_transaction-Keeps acks p s unique =
      if-either (λ (x : RegistryState r m × Result CommitProof). Keeps x)
        (ltb (length p.proofs) acks) unique
        (finish_commit-Keeps acks p (append_local p.metadata.commit_frame s) unique)

  -- What a transaction that begins hands on, and leaves behind where it does not.
  abbrev pub Hands : RegistryState r m × Result (PendingTransaction r) → Type 0
  Hands (t, err e) = IsPending m t.pending
  Hands (t, ok p) = IsGathered m p

  begin_transaction-Hands :
      (s : RegistryState r m) (mutation : RegistryMutation r) (bytes : Bytes)
      (resulting : DurableTaskRecord r) (version : ℕ)
      → s.pending ≡ none
      → Hands (begin_transaction c options s mutation bytes resulting version)
  unfolding begin_transaction append_local
  begin_transaction-Hands s mutation bytes resulting version idle =
      elim (Result-cases (new_transaction c options s mutation bytes resulting version)) [
        | inr (e, h) ↦ rw (begin_transaction, h, idle) tt
        | inl (p, h) ↦
            let fresh = new_transaction-proofs s mutation bytes resulting version p h in
            elim (Result-cases (append_local p.metadata.prepare_frame s).1) [
              | inl (done, a) ↦ rw (begin_transaction, h, a, fresh) (tt, tt)
              | inr (e, a) ↦ rw (begin_transaction, h, a, idle) tt
            ]
      ]

  pub prepare_pending-Hands :
      (pending : Option (PendingTransaction r)) (s : RegistryState r m)
      (mutation : RegistryMutation r) (bytes : Bytes) (resulting : DurableTaskRecord r)
      (version : ℕ)
      → s.pending ≡ pending
      → IsPending m pending
      → Hands (prepare_pending_transaction c options pending s mutation bytes resulting version)
  unfolding prepare_pending_transaction
  prepare_pending-Hands none s mutation bytes resulting version h unique =
      begin_transaction-Hands s mutation bytes resulting version h
  prepare_pending-Hands (some existing) s mutation bytes resulting version h unique =
      if-either (λ (x : RegistryState r m × Result (PendingTransaction r)). Hands x)
        (not (holds (c.mutation_discrete existing.prepared.mutation mutation))
          || not (existing.prepared.previous_version == version))
        (rw h unique) unique

  continue_transaction-Keeps :
      (acks : ℕ) (sync : Bool) (begun : RegistryState r m × Result (PendingTransaction r))
      → Hands begun
      → Keeps (continue_transaction c options acks sync begun)
  unfolding continue_transaction
  continue_transaction-Keeps acks sync (t, err e) h = h
  continue_transaction-Keeps acks sync (t, ok p) h =
      let answered = replicate_transaction m acks sync t.replicas p in
      finish_transaction-Keeps acks answered.1 (record t { replicas = answered.0 })
        (
          replicate_transaction-IsUnique m acks sync t.replicas p h.0,
          rw (replicate_transaction-metadata m acks sync t.replicas p)
              (replicate_transaction-Attested m acks sync t.replicas p h),
        )

  -- Every transaction keeps the gathered proofs so.
  transact_locked-IsPending :
      (mutation : RegistryMutation r) (required_copies : ℕ) (sync : Bool) (s : RegistryState r m)
      → IsPending m s.pending
      → IsPending m (transact_locked c options mutation required_copies sync s).0.pending
  unfolding transact_locked
  transact_locked-IsPending mutation required_copies sync s unique =
      elim (Result-cases (prepare_mutation s.records mutation options.max_tasks)) [
        | inr (e, p) ↦ rw (p, transact_locked) unique
        | inl (resulting, p) ↦ elim (Option-cases (c.mutation_json mutation)) [
          | inl j ↦ rw (p, j, transact_locked) unique
          | inr (bytes, j) ↦
              let version = version_of (task_id mutation) s.versions in
              rw (p, j, transact_locked)
                (if-either (λ (x : RegistryState r m × Result CommitProof). Keeps x)
                  (ltb options.max_record_bytes (length bytes)) unique
                  (continue_transaction-Keeps (required_copies - 1) sync
                    (prepare_pending_transaction c options s.pending s mutation bytes resulting
                      version)
                    (prepare_pending-Hands s.pending s mutation bytes resulting version refl
                      unique)))
        ]
      ]
