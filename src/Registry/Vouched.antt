-- ===== src/Registry/Vouched.antt =====
-- The proofs that `replicate_transaction` of persistent_registry.rs gathers: each stands for a
-- replica that acknowledged the transaction.
use mutsuki_distributed_host.Base.{
  ℕ, ◌≡◌, refl, ◌∙◌, inl, inr, ◌⊎◌, Bool, ◌&&◌, ◌||◌, ◌==◌, List, [], ◌∷◌, some, Text, All,
  All-mono, arith, leb, length, if-cases, if-either,
}
use mathlib.Core.List.{Mem, mem-cons_self, mem-cons_of_mem}
use mutsuki_distributed_host.Base.Outcome.{Result, ok, err}
use mutsuki_distributed_host.Base.Map.{
  Map, get, contains, text_key, ◌is◌, All-insert, IsUnique, insert-IsUnique, All-found, All-get,
}
use mutsuki_distributed_host.Contracts.{RuntimeContracts, MetadataCommitProof}
use mutsuki_distributed_host.Registry.Store.{
  MetadataTransaction, ReplicaCommitAck, MetadataReplica, PendingTransaction,
}
use mutsuki_distributed_host.Registry.Replicate.{note_answer, replicate_one, replicate_transaction}

-- The acknowledgement that a proof records.
abbrev pub ack_of_proof : MetadataCommitProof → ReplicaCommitAck
ack_of_proof proof = record {
  replica_id = proof.replica_id;
  transaction_id = proof.transaction_id;
  log_index = proof.log_index;
}

-- An acknowledgement of the transaction by the replica of that id.
abbrev pub IsAckOf : Text → MetadataTransaction → ReplicaCommitAck → Type 0
IsAckOf id metadata ack =
    (ack.replica_id ≡ id)
    × (ack.transaction_id ≡ metadata.transaction_id)
    × (ack.log_index ≡ metadata.log_index)

-- A replica of that id answered Ok to the transaction, with the acknowledgement of the proof.
abbrev pub Attested :
    (m : MetadataReplica) → MetadataTransaction → Text × MetadataCommitProof → Type 0
Attested m metadata (id, proof) =
    (replica : m.Replica) × (sync : Bool) × (m.replica_id replica ≡ id)
    × ((m.commit metadata sync replica).1 ≡ ok (ack_of_proof proof))
    × IsAckOf id metadata (ack_of_proof proof)

module _ (m : MetadataReplica) (sync : Bool) (metadata : MetadataTransaction)
    (replicas : List m.Replica) where
  -- One of the replicas answered Ok to the transaction, with the acknowledgement of the proof.
  abbrev pub Acked : Text × MetadataCommitProof → Type 0
  Acked (id, proof) =
      (replica : m.Replica) × Mem replica replicas
      × (m.replica_id replica ≡ id)
      × ((m.commit metadata sync replica).1 ≡ ok (ack_of_proof proof))
      × IsAckOf id metadata (ack_of_proof proof)

  -- A proof that was there before, or a replica that acknowledges now.
  abbrev pub Vouched : Map Text MetadataCommitProof → Text × MetadataCommitProof → Type 0
  Vouched earlier e = (get e.0 earlier ≡ some e.1) ⊎ Acked e

-- The proofs of a pending transaction: of different replicas, each of which answered Ok.
abbrev pub IsGathered : {r : RuntimeContracts} → MetadataReplica → PendingTransaction r → Type 0
IsGathered m p = IsUnique p.proofs × All (Attested m p.metadata) p.proofs

module _ {r : RuntimeContracts} where
  -- What a replica's answer does to the proofs.
  note_answer-All :
      (P : Text × MetadataCommitProof → Type 0) (id : Text) (answer : Result ReplicaCommitAck)
      (p : PendingTransaction r)
      → ((proof : MetadataCommitProof)
          → answer ≡ ok (ack_of_proof proof)
          → IsAckOf id p.metadata (ack_of_proof proof)
          → P (id, proof))
      → All P p.proofs
      → All P (note_answer id answer p).proofs
  unfolding note_answer
  note_answer-All P id (err e) p given h = h
  note_answer-All P id (ok ack) p given h =
      let proof : MetadataCommitProof = record {
        replica_id = ack.replica_id;
        transaction_id = ack.transaction_id;
        log_index = ack.log_index;
      } in
      if-cases (λ (q : PendingTransaction r). All P q.proofs)
        ((ack.replica_id is id)
          && (ack.transaction_id is p.metadata.transaction_id)
          && (ack.log_index == p.metadata.log_index))
        (λ right. All-insert P id proof p.proofs (given proof refl (ground (arith, right))) h)
        (λ wrong. h)

  note_answer-IsUnique :
      (id : Text) (answer : Result ReplicaCommitAck) (p : PendingTransaction r)
      → IsUnique p.proofs
      → IsUnique (note_answer id answer p).proofs
  unfolding note_answer
  note_answer-IsUnique id (err e) p h = h
  note_answer-IsUnique id (ok ack) p h =
      if-either (λ (q : PendingTransaction r). IsUnique q.proofs) _
        (insert-IsUnique id _ p.proofs h) h

  note_answer-metadata :
      (id : Text) (answer : Result ReplicaCommitAck) (p : PendingTransaction r)
      → (note_answer id answer p).metadata ≡ p.metadata
  unfolding note_answer
  note_answer-metadata id (err e) p = refl
  note_answer-metadata id (ok ack) p =
      if-either (λ (q : PendingTransaction r). q.metadata ≡ p.metadata) _ refl refl

module _ {r : RuntimeContracts} (m : MetadataReplica) (acks : ℕ) (sync : Bool) where
  replicate_one-metadata :
      (replica : m.Replica) (p : PendingTransaction r)
      → (replicate_one m acks sync replica p).1.metadata ≡ p.metadata
  unfolding replicate_one
  replicate_one-metadata replica p =
      if-either (λ (x : m.Replica × PendingTransaction r). x.1.metadata ≡ p.metadata)
        (leb acks (length p.proofs) || contains (m.replica_id replica) p.proofs) refl
        (note_answer-metadata (m.replica_id replica) (m.commit p.metadata sync replica).1 p)

  replicate_one-IsUnique :
      (replica : m.Replica) (p : PendingTransaction r)
      → IsUnique p.proofs
      → IsUnique (replicate_one m acks sync replica p).1.proofs
  unfolding replicate_one
  replicate_one-IsUnique replica p h =
      if-either (λ (x : m.Replica × PendingTransaction r). IsUnique x.1.proofs)
        (leb acks (length p.proofs) || contains (m.replica_id replica) p.proofs) h
        (note_answer-IsUnique (m.replica_id replica) (m.commit p.metadata sync replica).1 p h)

  -- What holds of the acknowledgements of a replica is kept by its round.
  replicate_one-All :
      (P : Text × MetadataCommitProof → Type 0) (replica : m.Replica) (p : PendingTransaction r)
      → ((proof : MetadataCommitProof)
          → (m.commit p.metadata sync replica).1 ≡ ok (ack_of_proof proof)
          → IsAckOf (m.replica_id replica) p.metadata (ack_of_proof proof)
          → P (m.replica_id replica, proof))
      → All P p.proofs
      → All P (replicate_one m acks sync replica p).1.proofs
  unfolding replicate_one
  replicate_one-All P replica p given h =
      if-either (λ (x : m.Replica × PendingTransaction r). All P x.1.proofs)
        (leb acks (length p.proofs) || contains (m.replica_id replica) p.proofs) h
        (note_answer-All P (m.replica_id replica) (m.commit p.metadata sync replica).1 p given h)

  pub replicate_transaction-IsUnique :
      (replicas : List m.Replica) (p : PendingTransaction r)
      → IsUnique p.proofs
      → IsUnique (replicate_transaction m acks sync replicas p).1.proofs
  unfolding replicate_transaction
  replicate_transaction-IsUnique [] p h = h
  replicate_transaction-IsUnique (replica ∷ rest) p h =
      replicate_transaction-IsUnique rest (replicate_one m acks sync replica p).1
        (replicate_one-IsUnique replica p h)

  pub replicate_transaction-metadata :
      (replicas : List m.Replica) (p : PendingTransaction r)
      → (replicate_transaction m acks sync replicas p).1.metadata ≡ p.metadata
  unfolding replicate_transaction
  replicate_transaction-metadata [] p = refl
  replicate_transaction-metadata (replica ∷ rest) p =
      replicate_transaction-metadata rest (replicate_one m acks sync replica p).1
      ∙ replicate_one-metadata replica p

  -- The loop, over replicas that are all among some others.
  replicate_transaction-All :
      (metadata : MetadataTransaction) (P : Text × MetadataCommitProof → Type 0)
      (all replicas : List m.Replica) (p : PendingTransaction r)
      → ((e : Text × MetadataCommitProof) → Acked m sync metadata all e → P e)
      → ((replica : m.Replica) → Mem replica replicas → Mem replica all)
      → p.metadata ≡ metadata
      → All P p.proofs
      → All P (replicate_transaction m acks sync replicas p).1.proofs
  unfolding replicate_transaction
  replicate_transaction-All metadata P all [] p given inside same h = h
  replicate_transaction-All metadata P all (replica ∷ rest) p given inside same h =
      replicate_transaction-All metadata P all rest (replicate_one m acks sync replica p).1 given
        (λ other among. inside other (mem-cons_of_mem replica among))
        (replicate_one-metadata replica p ∙ same)
        (replicate_one-All P replica p
          (λ proof answer right.
            given (m.replica_id replica, proof)
              (replica, inside replica mem-cons_self, refl, rw (← same) answer, rw (← same) right))
          h)

  -- Every proof afterwards was there before, or a replica acknowledged with it.
  pub replicate_transaction-Vouched :
      (replicas : List m.Replica) (p : PendingTransaction r)
      → IsUnique p.proofs
      → All
          (Vouched m sync p.metadata replicas p.proofs)
          (replicate_transaction m acks sync replicas p).1.proofs
  replicate_transaction-Vouched replicas p unique =
      replicate_transaction-All p.metadata (Vouched m sync p.metadata replicas p.proofs) replicas
        replicas p (λ e acked. inr acked) (λ replica among. among) refl
        (All-mono (λ e. get e.0 p.proofs ≡ some e.1) (Vouched m sync p.metadata replicas p.proofs)
          p.proofs (λ e found. inl found) (All-found p.proofs unique))

  Vouched-Attested :
      (replicas : List m.Replica) (p : PendingTransaction r) (e : Text × MetadataCommitProof)
      → IsGathered m p
      → Vouched m sync p.metadata replicas p.proofs e
      → Attested m p.metadata e
  Vouched-Attested replicas p (id, proof) g (inl found) =
      All-get (Attested m p.metadata) id p.proofs g.1 found
  Vouched-Attested replicas p (id, proof) g (inr (replica, among, same, answer, right)) =
      (replica, sync, same, answer, right)

  -- The loop keeps them so.
  pub replicate_transaction-Attested :
      (replicas : List m.Replica) (p : PendingTransaction r)
      → IsGathered m p
      → All (Attested m p.metadata) (replicate_transaction m acks sync replicas p).1.proofs
  replicate_transaction-Attested replicas p g =
      All-mono (Vouched m sync p.metadata replicas p.proofs) (Attested m p.metadata)
        (replicate_transaction m acks sync replicas p).1.proofs
        (λ e vouched. Vouched-Attested replicas p e g vouched)
        (replicate_transaction-Vouched replicas p g.0)
