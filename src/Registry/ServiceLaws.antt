-- ===== src/Registry/ServiceLaws.antt =====
-- What the operations of `PersistentRegistry` promise their callers.
use mutsuki_distributed_host.Base.{ℕ, ◌+◌, ◌≤◌, ◌≡◌, Bool, not, Text, length, List, All}
use mutsuki_distributed_host.Base.Map.{Map, text_key, values, IsUnique}
use mutsuki_distributed_host.Contracts.{
  RuntimeContracts, MetadataCommitProof, DurableTaskSpec, AcceptanceReceipt,
  minimum_metadata_copies, is_fast,
}
use mutsuki_distributed_host.Registry.Store.{
  RegistryOptions, Codec, MetadataReplica, PendingTransaction, CommitProof, RegistryState,
  MetadataTransaction,
}
use mutsuki_distributed_host.Registry.Gathered.{gathered}
use mutsuki_distributed_host.Registry.Vouched.{Attested, Vouched}

-- As many copies as required: the local one, and one for each of the proofs, which are of
-- different replicas that answered Ok to the transaction; each was gathered before, or one of the
-- replicas gives it now.
abbrev pub AreCopies :
    (m : MetadataReplica)
    → List m.Replica
    → Bool
    → Map Text MetadataCommitProof
    → ℕ
    → CommitProof
    → Type 0
AreCopies m replicas sync earlier required_copies proof =
    (metadata : MetadataTransaction) × (proofs : Map Text MetadataCommitProof)
    × (proof.transaction_id ≡ metadata.transaction_id)
    × (proof.log_index ≡ metadata.log_index)
    × (proof.replica_commits ≡ values proofs)
    × (required_copies ≤ length proofs + 1)
    × IsUnique proofs
    × All (Attested m metadata) proofs
    × All (Vouched m sync metadata replicas earlier) proofs

-- What a commit proof says of the transaction that was committed.
abbrev IsProofOf : {r : RuntimeContracts} → ℕ → PendingTransaction r → CommitProof → Type 0
IsProofOf acks p proof =
    (proof.transaction_id ≡ p.metadata.transaction_id)
    × (proof.log_index ≡ p.metadata.log_index)
    × (proof.replica_commits ≡ values p.proofs)
    × (acks ≤ length p.proofs)

module _ {r : RuntimeContracts} {m : MetadataReplica} (c : Codec r)
    (options : RegistryOptions) where
  -- The receipt of an accepted task tells the mode that was asked for, and the proofs of the
  -- copies that this mode promises.
  abbrev pub IsReceiptOf : DurableTaskSpec r → RegistryState r m → AcceptanceReceipt → Type 0
  IsReceiptOf spec s receipt =
      (minimum_metadata_copies receipt.requested ≤ receipt.metadata_copies)
      × (receipt.requested ≡ spec.requested_acceptance)
      × (receipt.global_task_id ≡ spec.global_task_id)
      × (receipt.metadata_copies ≡ length receipt.replica_commits + 1)
      × AreCopies m s.replicas (not (is_fast spec.requested_acceptance)) (gathered s.pending)
          (minimum_metadata_copies spec.requested_acceptance)
          (record {
            transaction_id = receipt.transaction_id;
            log_index = receipt.log_index;
            replica_commits = receipt.replica_commits;
          })
