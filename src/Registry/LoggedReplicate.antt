-- ===== src/Registry/LoggedReplicate.antt =====
-- Replication in persistent_registry.rs does not touch what the log says of a transaction.
use mutsuki_distributed_host.Base.{ℕ, ◌≡◌, refl, ap, ◌∙◌, Text, Bool, List, [], ◌∷◌, some, arith}
use mutsuki_distributed_host.Base.Outcome.{Result, ok, err}
use mutsuki_distributed_host.Base.Map.{text_key}
use mutsuki_distributed_host.Contracts.{RuntimeContracts}
use mutsuki_distributed_host.Registry.Store.{
  RegistryOptions, Codec, MetadataReplica, ReplicaCommitAck, PendingTransaction, RegistryState,
}
use mutsuki_distributed_host.Registry.Replicate.{note_answer, replicate_one, replicate_transaction}
use mutsuki_distributed_host.Registry.LoggedCompact.{FilesAgree}

module _ {r : RuntimeContracts} where
  -- What replication leaves of a transaction as it was.
  abbrev pub with_answers : PendingTransaction r → PendingTransaction r → PendingTransaction r
  with_answers p q = record p { proofs = q.proofs; attempts = q.attempts }

  note_answer-same :
      (id : Text) (answer : Result ReplicaCommitAck) (p : PendingTransaction r)
      → note_answer id answer p ≡ with_answers p (note_answer id answer p)
  unfolding note_answer
  note_answer-same id (err e) p = refl
  note_answer-same id (ok ack) p = ground arith

  module _ (m : MetadataReplica) where
    replicate_one-same :
        (acks : ℕ) (sync : Bool) (replica : m.Replica) (p : PendingTransaction r)
        → (replicate_one m acks sync replica p).1
          ≡ with_answers p (replicate_one m acks sync replica p).1
    unfolding replicate_one
    replicate_one-same acks sync replica p =
        ground
          (arith, note_answer-same (m.replica_id replica) (m.commit p.metadata sync replica).1 p)

    pub replicate_transaction-same :
        (acks : ℕ) (sync : Bool) (replicas : List m.Replica) (p : PendingTransaction r)
        → (replicate_transaction m acks sync replicas p).1
          ≡ with_answers p (replicate_transaction m acks sync replicas p).1
    unfolding replicate_transaction
    replicate_transaction-same acks sync [] p = refl
    replicate_transaction-same acks sync (replica ∷ rest) p =
        let one = (replicate_one m acks sync replica p).1 in
        replicate_transaction-same acks sync rest one
        ∙ ap (λ o. with_answers o (replicate_transaction m acks sync rest one).1)
            (replicate_one-same acks sync replica p)

module _ {r : RuntimeContracts} {m : MetadataReplica} (c : Codec r)
    (options : RegistryOptions) where
  -- Answers of replicas do not touch what the log says of a transaction.
  pub IsLogged-answers :
      (s : RegistryState r m) (p q : PendingTransaction r)
      → FilesAgree c options s (some p)
      → FilesAgree c options s (some (with_answers p q))
  IsLogged-answers s p q l =
      let t = l.same_prepared.1 in
      record {
        snap = l.snap;
        loaded = l.loaded;
        version = l.version;
        start_fits = l.start_fits;
        start_index = l.start_index;
        entries = l.entries;
        log = l.log;
        below = l.below;
        state = l.state;
        replayed = l.replayed;
        same_records = l.same_records;
        same_versions = l.same_versions;
        same_index = l.same_index;
        same_id = l.same_id;
        same_prepared = (
          l.same_prepared.0,
          record {
            same_id = t.same_id;
            same_index = t.same_index;
            same_version = t.same_version;
            task = t.task;
            next_index = t.next_index;
            index_fits = t.index_fits;
            chained = t.chained;
            hashed = t.hashed;
            accepted = t.accepted;
            encoded = t.encoded;
            payload_fits = t.payload_fits;
            prepare_written = t.prepare_written;
            commit_written = t.commit_written;
            text = t.text;
            id_fits = t.id_fits;
          },
        );
        tables_fit = l.tables_fit;
        index_fits = l.index_fits;
      }
