-- ===== src/Registry/FileReplica.antt =====
-- `FileMetadataReplica` of persistent_registry.rs: a replica that keeps the frames of each
-- transaction in a log of its own, with the id of the transaction at each index.
use mutsuki_distributed_host.Base.{
  ℕ, zero, suc, Bool, not, List, [], ◌∷◌, ◌++◌, Option, none, some, Text, Bytes, leb, ltb, ◌==◌,
  if◌then◌else◌, length, min, map,
}
use mutsuki_distributed_host.Base.Outcome.{
  Result, ok, err, ◌>>=◌, ◌>>◌, refuse_if, or_fail, next_round, corrupt, conflict,
}
use mutsuki_distributed_host.Base.Map.{
  Map, get, contains, insert, remove, values, ℕ_key, text_key, ◌is◌,
}
use mutsuki_distributed_host.Base.Encoding.{from_utf8}
use mutsuki_distributed_host.Contracts.{RuntimeContracts}
use mutsuki_distributed_host.Registry.Frame.{
  FrameKind, prepare, commit, snapshot, decode_frame_at, incomplete, decoded, corrupt_frame,
  panicked,
}
use mutsuki_distributed_host.Registry.Store.{
  Codec, MetadataTransaction, ReplicaCommitAck, MetadataReplica, DiskOutcome, next_outcome,
  later_outcomes, append_bytes,
}
use mutsuki_distributed_host.Registry.Replay.{is_legacy, returned}
use mutsuki_distributed_host.Registry.Open.{cut_tail, after_cut}

-- `DEFAULT_MAX_REGISTRY_RECORD_BYTES`.
abbrev pub default_max_record_bytes : ℕ
default_max_record_bytes = 65536

pub record FileReplica : Type 0 where
  pub id : Text
  pub wal : Bytes
  pub disk : List DiskOutcome
  pub committed : Map ℕ Text

abbrev pub ack_of : FileReplica → MetadataTransaction → ReplicaCommitAck
ack_of s t = record {
  replica_id = s.id;
  transaction_id = t.transaction_id;
  log_index = t.log_index;
}

-- The transaction after its frames were written, or not.
unfoldable pub note_commit :
    MetadataTransaction → FileReplica → Result (Unit {0}) → FileReplica × Result ReplicaCommitAck
note_commit t s (err e) = (s, err e)
note_commit t s (ok done) =
    (record s { committed = insert t.log_index t.transaction_id s.committed }, ok (ack_of s t))

unfoldable pub commit_transaction :
    MetadataTransaction → Bool → FileReplica → FileReplica × Result ReplicaCommitAck
unfolding note_commit append_bytes
commit_transaction t sync s = elim (get t.log_index s.committed) [
  | some existing ↦ if existing is t.transaction_id then (s, ok (ack_of s t)) else (s, err conflict)
  | none ↦
      let appended = append_bytes (next_outcome s.disk) s.wal (t.prepare_frame ++ t.commit_frame) in
      note_commit t (record s { wal = appended.0; disk = later_outcomes s.disk }) appended.1
]

-- A file replica among the replicas of a registry.
abbrev pub file_replica : MetadataReplica
file_replica = record { Replica = FileReplica; replica_id = λ s. s.id; commit = commit_transaction }

-- What `scan_transaction_ids` gathers: the committed ids, and the ids and offsets of the
-- transactions that are prepared only.
pub record ScanState : Type 0 where
  pub scanned : Map ℕ Text
  pub prepared : Map ℕ (Text × ℕ)

-- The smallest of the offsets, or the given one where there is none.
unfoldable pub first_offset : ℕ → List ℕ → ℕ
first_offset end [] = end
first_offset end (offset ∷ []) = offset
first_offset end (offset ∷ next ∷ rest) = min offset (first_offset end (next ∷ rest))

module _ {r : RuntimeContracts} (c : Codec r) where
  unfoldable pub scan_prepare : ℕ → ℕ → Bytes → ScanState → Result ScanState
  scan_prepare offset log_index payload s = do
    p ← or_fail (c.read_prepared payload) corrupt
    refuse_if (not (p.log_index == log_index)) corrupt
    ok (
        if contains log_index s.prepared
        then s
        else record s { prepared = insert log_index (p.transaction_id, offset) s.prepared })

  -- A commit that is repeated is passed over.
  unfoldable pub scan_commit : ℕ → Bytes → ScanState → Result ScanState
  scan_commit log_index payload s = do
    id ← or_fail (from_utf8 payload) corrupt
    let next : Result ScanState = do
      p ← or_fail (get log_index s.prepared) corrupt
      refuse_if (not (p.0 is id)) corrupt
      ok (record {
        scanned = insert log_index id s.scanned;
        prepared = remove log_index s.prepared;
      })
    elim (get log_index s.scanned) [
      | none ↦ next
      | some existing ↦ if existing is id then ok s else next
    ]

  unfoldable pub scan_frame : FrameKind → ℕ → ℕ → Bytes → ScanState → Result ScanState
  unfolding scan_prepare scan_commit
  scan_frame prepare offset log_index payload s = scan_prepare offset log_index payload s
  scan_frame commit offset log_index payload s = scan_commit log_index payload s
  scan_frame snapshot offset log_index payload s = err corrupt

  -- The loop, on fuel, with the offset at which it stops, or `none` out of fuel.
  unfoldable pub scan_loop : ℕ → Bytes → ℕ → ScanState → Option (Result (ScanState × ℕ))
  unfolding scan_frame
  scan_loop zero bytes offset s = none
  scan_loop (suc fuel) bytes offset s =
      if leb (length bytes) offset
      then some (ok (s, offset))
      else elim (decode_frame_at c.sha bytes offset default_max_record_bytes) [
        | incomplete ↦ some (ok (s, offset))
        | corrupt_frame ↦ some (err corrupt)
        | panicked ↦ some (err corrupt)
        | decoded frame ↦
            next_round (scan_frame frame.kind offset frame.log_index frame.payload s)
              (λ next. scan_loop fuel bytes frame.end next)
      ]

  unfoldable pub scan_transaction_ids : Bytes → Result (Map ℕ Text × Option ℕ)
  unfolding scan_loop first_offset
  scan_transaction_ids bytes = do
    refuse_if (is_legacy bytes) corrupt
    (s, offset) ←
        returned (scan_loop (suc (length bytes)) bytes 0 (record { scanned = []; prepared = [] }))
    let cut = first_offset offset (map (λ p. p.1) (values s.prepared))
    ok (s.scanned, if ltb cut (length bytes) then some cut else none)

  unfoldable pub open_replica : Text → List DiskOutcome → Bytes → Result FileReplica
  unfolding scan_transaction_ids
  open_replica id disk wal = do
    (committed, truncate_at) ← scan_transaction_ids wal
    kept ← cut_tail (next_outcome disk) truncate_at wal
    ok (record { id = id; wal = kept; disk = after_cut truncate_at disk; committed = committed })
