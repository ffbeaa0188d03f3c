-- ===== src/Registry/FileReplicaLaws.antt =====
-- One transaction for each index: what a `FileMetadataReplica` acknowledged it keeps.
use mutsuki_distributed_host.Base.{
  ℕ, ◌≡◌, ◌≢◌, ◌∙◌, Bool, List, [], ◌∷◌, ◌++◌, some, arith, Text, Option-cases, inl, inr,
  ℕ_discrete, if_neg, if-either, if◌then◌else◌,
}
use mutsuki_distributed_host.Base.Outcome.{Result, ok, err, conflict}
use mutsuki_distributed_host.Base.Map.{get, ℕ_key, text_key, get-insert, ◌is◌}
use mutsuki_distributed_host.Registry.Store.{
  MetadataTransaction, ReplicaCommitAck, append_bytes, next_outcome, later_outcomes,
}
use mutsuki_distributed_host.Registry.FileReplica.{
  FileReplica, ack_of, note_commit, commit_transaction,
}

-- The replica after the commits of some transactions, whatever they answered.
pub commit_all : List MetadataTransaction → Bool → FileReplica → FileReplica
commit_all [] sync s = s
commit_all (t ∷ ts) sync s = commit_all ts sync (commit_transaction t sync s).0

note_commit-get :
    (t : MetadataTransaction) (s : FileReplica) (done : Result (Unit {0})) (index : ℕ) (id : Text)
    → t.log_index ≢ index
    → get index s.committed ≡ some id
    → get index (note_commit t s done).0.committed ≡ some id
unfolding note_commit
note_commit-get t s (err e) index id n h = h
note_commit-get t s (ok done) index id n h =
    get-insert t.log_index index t.transaction_id s.committed
    ∙ if_neg (ℕ_discrete t.log_index index) n _ _
    ∙ h

commit_transaction-get :
    (t : MetadataTransaction) (sync : Bool) (s : FileReplica) (index : ℕ) (id : Text)
    → get index s.committed ≡ some id
    → get index (commit_transaction t sync s).0.committed ≡ some id
unfolding commit_transaction
commit_transaction-get t sync s index id h = elim (Option-cases (get t.log_index s.committed)) [
  | inr (existing, e) ↦
      rw (e, commit_transaction)
        (if-either
          (λ (done : FileReplica × Result ReplicaCommitAck). get index done.0.committed ≡ some id)
          (existing is t.transaction_id) {x = (s, ok (ack_of s t))} {y = (s, err conflict)} h h)
  | inl e ↦
      let appended = append_bytes (next_outcome s.disk) s.wal (t.prepare_frame ++ t.commit_frame) in
      rw (e, commit_transaction)
        (note_commit-get t (record s { wal = appended.0; disk = later_outcomes s.disk }) appended.1
          index id (λ q. cc) h)
]

-- A transaction that was acknowledged stands at its index.
acknowledged-get :
    (t : MetadataTransaction) (sync : Bool) (s : FileReplica) (ack : ReplicaCommitAck)
    → (commit_transaction t sync s).1 ≡ ok ack
    → get t.log_index (commit_transaction t sync s).0.committed ≡ some t.transaction_id
unfolding commit_transaction note_commit
acknowledged-get t sync s ack h = elim (Option-cases (get t.log_index s.committed)) [
  | inr (existing, e) ↦ ground (arith, e)
  | inl e ↦
      let appended = append_bytes (next_outcome s.disk) s.wal (t.prepare_frame ++ t.commit_frame) in
      ground (arith, e, get-insert t.log_index t.log_index t.transaction_id s.committed)
]

commit_all-get :
    (ts : List MetadataTransaction) (sync : Bool) (s : FileReplica) (index : ℕ) (id : Text)
    → get index s.committed ≡ some id
    → get index (commit_all ts sync s).committed ≡ some id
unfolding commit_all
commit_all-get [] sync s index id h = h
commit_all-get (t ∷ ts) sync s index id h =
    commit_all-get ts sync (commit_transaction t sync s).0 index id
      (commit_transaction-get t sync s index id h)

-- After a transaction was acknowledged, and whatever was committed since: committing at its index
-- changes nothing, and it is acknowledged again for the same transaction and refused as a conflict
-- for every other.
pub commit_transaction-again :
    (t u : MetadataTransaction) (sync : Bool) (s : FileReplica) (ack : ReplicaCommitAck)
    (ts : List MetadataTransaction)
    → (commit_transaction t sync s).1 ≡ ok ack
    → u.log_index ≡ t.log_index
    → let later = commit_all ts sync (commit_transaction t sync s).0 in
      commit_transaction u sync later
      ≡ (later, if t.transaction_id is u.transaction_id then ok (ack_of later u) else err conflict)
unfolding commit_transaction
commit_transaction-again t u sync s ack ts h e =
    let later = commit_all ts sync (commit_transaction t sync s).0 in
    let known =
      commit_all-get ts sync (commit_transaction t sync s).0 t.log_index t.transaction_id
        (acknowledged-get t sync s ack h) in
    rw (e, known, commit_transaction) (ground arith)
