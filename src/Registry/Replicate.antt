-- ===== src/Registry/Replicate.antt =====
-- Replication of a transaction: `replicate_transaction` of persistent_registry.rs.
use mutsuki_distributed_host.Base.{
  ℕ, Bool, ◌&&◌, ◌||◌, List, [], ◌∷◌, Text, leb, ◌==◌, if◌then◌else◌, length,
}
use mutsuki_distributed_host.Base.Outcome.{Result, ok, err, corrupt}
use mutsuki_distributed_host.Base.Map.{contains, insert, text_key, ◌is◌}
use mutsuki_distributed_host.Contracts.{RuntimeContracts, MetadataCommitProof}
use mutsuki_distributed_host.Registry.Store.{
  ReplicaCommitAck, MetadataReplica, committed, failed, PendingTransaction,
}

module _ {r : RuntimeContracts} where
  -- The answer of one replica, noted in the transaction.
  unfoldable pub note_answer :
      Text → Result ReplicaCommitAck → PendingTransaction r → PendingTransaction r
  note_answer id (err e) p = record p { attempts = insert id (failed e) p.attempts }
  note_answer id (ok ack) p =
      let proof : MetadataCommitProof = record {
        replica_id = ack.replica_id;
        transaction_id = ack.transaction_id;
        log_index = ack.log_index;
      } in
      if (ack.replica_id is id)
        && (ack.transaction_id is p.metadata.transaction_id)
        && (ack.log_index == p.metadata.log_index)
      then record p {
        attempts = insert id (committed proof) p.attempts;
        proofs = insert id proof p.proofs;
      }
      else record p { attempts = insert id (failed corrupt) p.attempts }

module _ {r : RuntimeContracts} (m : MetadataReplica) where
  unfoldable pub replicate_one :
      ℕ → Bool → m.Replica → PendingTransaction r → m.Replica × PendingTransaction r
  unfolding note_answer
  replicate_one acks sync replica p =
      if leb acks (length p.proofs) || contains (m.replica_id replica) p.proofs
      then (replica, p)
      else let answer = m.commit p.metadata sync replica in
        (answer.0, note_answer (m.replica_id replica) answer.1 p)

  -- The loop over the replicas. Its `break` leaves the later ones alone, as each of its
  -- remaining rounds does here.
  unfoldable pub replicate_transaction :
      ℕ → Bool → List m.Replica → PendingTransaction r → List m.Replica × PendingTransaction r
  unfolding replicate_one
  replicate_transaction acks sync [] p = ([], p)
  replicate_transaction acks sync (replica ∷ rest) p =
      let one = replicate_one acks sync replica p in
      let others = replicate_transaction acks sync rest one.1 in (one.0 ∷ others.0, others.1)
