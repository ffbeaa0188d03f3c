-- ===== src/Registry/Replay.antt =====
-- Reading the registry back: `replay_wal`, `recover_pending_transaction` and `load_snapshot` of
-- persistent_registry.rs. A panic of the decoder ends the replay in the error `corrupt` here; that
-- a frame can make it panic is stated in FrameFault.
use mutsuki_distributed_host.Base.{
  ℕ, zero, suc, ◌-◌, Bool, false, not, ◌&&◌, ◌||◌, [], ◌∷◌, Option, none, some, Text, Bytes, ltb,
  leb, ◌==◌, if◌then◌else◌, length, sat_add, max,
}
use mutsuki_distributed_host.Base.Outcome.{
  Result, ok, err, ◌>>=◌, ◌>>◌, refuse_if, or_fail, corrupt, is_ok, next_round,
}
use mutsuki_distributed_host.Base.Map.{Map, get, insert, remove, text_key, ℕ_key, ◌is◌}
use mutsuki_distributed_host.Base.Encoding.{from_utf8}
use mutsuki_distributed_host.Contracts.{RuntimeContracts, GlobalTaskId, DurableTaskRecord}
use mutsuki_distributed_host.Registry.Frame.{
  FrameKind, prepare, commit, snapshot, wal_version, encode_frame, Decoded, incomplete, decoded,
  corrupt_frame, panicked, decode_frame_at,
}
use mutsuki_distributed_host.Registry.Mutation.{prepare_mutation}
use mutsuki_distributed_host.Registry.Store.{
  RegistryOptions, PreparedPayload, RegistrySnapshot, Codec, PendingTransaction, version_of,
  transaction_id_for_prepared,
}

-- The tables that the loop of `replay_wal` builds, with the prepared transactions by log index.
pub record ReplayState (r : RuntimeContracts) : Type 0 where
  pub records : Map GlobalTaskId (DurableTaskRecord r)
  pub versions : Map GlobalTaskId ℕ
  pub last_log_index : ℕ
  pub last_transaction_id : Text
  pub prepared : Map ℕ (PreparedPayload r)
  pub wal_transactions : ℕ

pub record RecoveredRegistry (r : RuntimeContracts) : Type 0 where
  pub records : Map GlobalTaskId (DurableTaskRecord r)
  pub versions : Map GlobalTaskId ℕ
  pub last_log_index : ℕ
  pub last_transaction_id : Text
  pub wal_transactions : ℕ
  pub pending : Option (PendingTransaction r)
  pub truncate_at : Option ℕ
  pub recovered_tail_bytes : ℕ

-- What a loop on fuel answered. Its callers give one round more than there are bytes, with which it
-- always answers.
abbrev pub returned {ℓ} : {A : Type ℓ} → Option (Result A) → Result A
returned none = err corrupt
returned (some answer) = answer

-- `bytes.starts_with(b"{\"")`: the older log of JSON lines.
abbrev pub is_legacy : Bytes → Bool
is_legacy [] = false
is_legacy (a ∷ []) = false
is_legacy (a ∷ b ∷ rest) = a == 123 && b == 34

module _ {r : RuntimeContracts} where
  -- Without a snapshot the registry starts empty.
  unfoldable pub start_of : Option (RegistrySnapshot r) → RegistrySnapshot r
  start_of (some s) = s
  start_of none = record {
    format_version = wal_version;
    last_included_log_index = 0;
    last_transaction_id = [];
    records = [];
    versions = [];
  }

  unfoldable pub replay_start : RegistrySnapshot r → ReplayState r
  replay_start s = record {
    records = s.records;
    versions = s.versions;
    last_log_index = s.last_included_log_index;
    last_transaction_id = s.last_transaction_id;
    prepared = [];
    wal_transactions = 0;
  }

  -- A prepared transaction that does not continue the tables.
  abbrev pub breaks_chain : PreparedPayload r → Map GlobalTaskId ℕ → ℕ → Text → Bool
  breaks_chain p versions last_log_index last_transaction_id =
      not (p.previous_transaction_id is last_transaction_id)
      || not (p.log_index == sat_add last_log_index 1)
      || not (p.previous_version == version_of p.global_task_id versions)
      || not (p.new_version == sat_add p.previous_version 1)

  module _ (c : Codec r) (options : RegistryOptions) where
    -- `FrameKind::Prepare`.
    unfoldable pub replay_prepare : ℕ → Bytes → ReplayState r → Result (ReplayState r)
    replay_prepare log_index payload s = do
      p ← or_fail (c.read_prepared payload) corrupt
      refuse_if (not (p.log_index == log_index)) corrupt
      elim (get log_index s.prepared) [
        | none ↦ ok (record s { prepared = insert log_index p s.prepared })
        | some existing ↦ if existing.transaction_id is p.transaction_id then ok s else err corrupt
      ]

    -- `FrameKind::Commit`. Any error of the mutation becomes a corruption.
    unfoldable pub replay_commit : ℕ → Bytes → ReplayState r → Result (ReplayState r)
    replay_commit log_index payload s = do
      id ← or_fail (from_utf8 payload) corrupt
      p ← or_fail (get log_index s.prepared) corrupt
      refuse_if
          (not (p.transaction_id is id)
            || breaks_chain p s.versions s.last_log_index s.last_transaction_id)
          corrupt
      expected ← transaction_id_for_prepared c p
      refuse_if (not (expected is p.transaction_id)) corrupt
      elim (prepare_mutation s.records p.mutation options.max_tasks) [
        | err e ↦ err corrupt
        | ok resulting ↦ ok (record {
          records = insert p.global_task_id resulting s.records;
          versions = insert p.global_task_id p.new_version s.versions;
          last_log_index = p.log_index;
          last_transaction_id = p.transaction_id;
          prepared = remove log_index s.prepared;
          wal_transactions = sat_add s.wal_transactions 1;
        })
      ]

    unfoldable pub replay_kind : FrameKind → ℕ → Bytes → ReplayState r → Result (ReplayState r)
    unfolding replay_prepare replay_commit
    replay_kind prepare log_index payload s = replay_prepare log_index payload s
    replay_kind commit log_index payload s = replay_commit log_index payload s
    replay_kind snapshot log_index payload s = err corrupt

    -- One round of the loop. Frames that the snapshot includes are passed over.
    unfoldable pub replay_frame : ℕ → FrameKind → ℕ → Bytes → ReplayState r → Result (ReplayState r)
    unfolding replay_kind
    replay_frame included snapshot log_index payload s = err corrupt
    replay_frame included kind log_index payload s =
        if leb log_index included then ok s else replay_kind kind log_index payload s

    -- The loop, on fuel: the tables and the offset at which it stops, or `none` out of fuel.
    unfoldable pub replay_loop :
        ℕ → ℕ → Bytes → ℕ → ReplayState r → Option (Result (ReplayState r × ℕ))
    replay_loop zero included bytes offset s = none
    replay_loop (suc fuel) included bytes offset s =
        if leb (length bytes) offset
        then some (ok (s, offset))
        else elim (decode_frame_at c.sha bytes offset options.max_record_bytes) [
          | incomplete ↦ some (ok (s, offset))
          | corrupt_frame ↦ some (err corrupt)
          | panicked ↦ some (err corrupt)
          | decoded frame ↦
              next_round (replay_frame included frame.kind frame.log_index frame.payload s)
                (λ next. replay_loop fuel included bytes frame.end next)
        ]

    -- `validate_prepared_tail`.
    unfoldable pub validate_prepared_tail : PreparedPayload r → ReplayState r → Result (Unit {0})
    validate_prepared_tail p s =
        if breaks_chain p s.versions s.last_log_index s.last_transaction_id then err corrupt else do
          expected ← transaction_id_for_prepared c p
          refuse_if
              (not (expected is p.transaction_id)
                || not (is_ok (prepare_mutation s.records p.mutation options.max_tasks)))
              corrupt

    -- A single transaction may be left prepared; it is rebuilt as pending.
    unfoldable pub recover_prepared :
        PreparedPayload r → ReplayState r → Result (PendingTransaction r)
    unfolding validate_prepared_tail
    recover_prepared p s = do
      validate_prepared_tail p s
      payload ← or_fail (c.prepared_json p) corrupt
      prepare_frame ← encode_frame c.sha prepare p.log_index payload
      commit_frame ← encode_frame c.sha commit p.log_index p.transaction_id
      elim (prepare_mutation s.records p.mutation options.max_tasks) [
        | err e ↦ err corrupt
        | ok resulting ↦ ok (record {
          metadata = record {
            transaction_id = p.transaction_id;
            log_index = p.log_index;
            previous_version = p.previous_version;
            prepare_payload = payload;
            prepare_frame = prepare_frame;
            commit_frame = commit_frame;
          };
          prepared = p;
          resulting_record = resulting;
          proofs = [];
          attempts = [];
        })
      ]

    unfoldable pub recover_pending_transaction :
        Map ℕ (PreparedPayload r) → ReplayState r → Result (Option (PendingTransaction r))
    unfolding recover_prepared
    recover_pending_transaction [] s = ok none
    recover_pending_transaction ((index, p) ∷ []) s = do
      pending ← recover_prepared p s
      ok (some pending)
    recover_pending_transaction (first ∷ second ∷ rest) s = err corrupt

    unfoldable pub replay_wal : Bytes → Option (RegistrySnapshot r) → Result (RecoveredRegistry r)
    unfolding replay_loop recover_pending_transaction start_of replay_start
    replay_wal bytes snap = do
      refuse_if (is_legacy bytes) corrupt
      let start = start_of snap
      refuse_if
          (not (start.format_version == wal_version)
            || ltb options.max_tasks (length start.records))
          corrupt
      (s, offset) ← returned (
          replay_loop (suc (length bytes)) start.last_included_log_index bytes 0
            (replay_start start))
      pending ← recover_pending_transaction s.prepared s
      ok (record {
        records = s.records;
        versions = s.versions;
        last_log_index = s.last_log_index;
        last_transaction_id = s.last_transaction_id;
        wal_transactions = s.wal_transactions;
        pending = pending;
        truncate_at = if ltb offset (length bytes) then some offset else none;
        recovered_tail_bytes = length bytes - offset;
      })

    -- The snapshot frame of a decoded file.
    unfoldable pub read_snapshot_frame : Bytes → Decoded → Result (RegistrySnapshot r)
    read_snapshot_frame bytes (decoded frame) =
        if not (frame.end == length bytes) then err corrupt else elim frame.kind [
          | prepare ↦ err corrupt
          | commit ↦ err corrupt
          | snapshot ↦ do
            s ← or_fail (c.read_snapshot frame.payload) corrupt
            refuse_if (not (s.last_included_log_index == frame.log_index)) corrupt
            ok s
        ]
    read_snapshot_frame bytes other = err corrupt

    unfoldable pub load_snapshot : Option Bytes → Result (Option (RegistrySnapshot r))
    unfolding read_snapshot_frame
    load_snapshot none = ok none
    load_snapshot (some bytes) = do
      s ←
          read_snapshot_frame bytes
            (decode_frame_at c.sha bytes 0 (max (length bytes) options.max_record_bytes))
      ok (some s)
