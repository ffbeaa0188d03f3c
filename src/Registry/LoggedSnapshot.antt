-- ===== src/Registry/LoggedSnapshot.antt =====
-- The snapshot of persistent_registry.rs: once it is written, the log may be cut or may keep the
-- frames that the snapshot includes.
use mutsuki_distributed_host.Base.{
  ℕ, ◌+◌, ◌≤◌, ◌≡◌, refl, List, [], Option, none, some, Text, Bytes, arith, length, max, subst, inl,
  inr, Option-cases, All, u64_max,
}
use mathlib.Core.List.{append-nil}
use mutsuki_distributed_host.Base.Outcome.{ok}
use mutsuki_distributed_host.Base.Map.{Map, text_key}
use mutsuki_distributed_host.Base.Encoding.{range_of}
use mutsuki_distributed_host.Contracts.{RuntimeContracts, GlobalTaskId, DurableTaskRecord}
use mutsuki_distributed_host.Registry.Frame.{
  snapshot, encode_frame, wal_version, decode_frame_at, decoded,
}
use mutsuki_distributed_host.Registry.FrameLaws.{decode-encode_frame, length-encode_frame}
use mutsuki_distributed_host.Registry.Store.{
  RegistryOptions, RegistrySnapshot, Codec, snapshot_frame,
}
use mutsuki_distributed_host.Registry.Replay.{
  start_of, replay_start, load_snapshot, read_snapshot_frame,
}
use mutsuki_distributed_host.Registry.ReplayLaws.{Entry, IsLog, replay_entries-included}
use mutsuki_distributed_host.Registry.Logged.{IsLogged}

module _ {r : RuntimeContracts} (c : Codec r) where
  -- What a snapshot frame is made of.
  snapshot_frame-eq :
      (max_record_bytes : ℕ) (s : RegistrySnapshot r) {frame : Bytes}
      → snapshot_frame c max_record_bytes s ≡ ok frame
      → (payload : Bytes) × (c.snapshot_json s ≡ some payload)
        × (encode_frame c.sha snapshot s.last_included_log_index payload ≡ ok frame)
  unfolding snapshot_frame
  snapshot_frame-eq max_record_bytes s h = elim (Option-cases (c.snapshot_json s)) [
    | inl e ↦ absurd (ground arith)
    | inr (payload, e) ↦ (payload, e, ground arith)
  ]

  -- A snapshot that was written is loaded again.
  pub load-snapshot_frame :
      (options : RegistryOptions) (s : RegistrySnapshot r) {frame : Bytes}
      → s.last_included_log_index ≤ u64_max
      → snapshot_frame c options.max_record_bytes s ≡ ok frame
      → load_snapshot c options (some frame) ≡ ok (some s)
  unfolding load_snapshot read_snapshot_frame range_of
  load-snapshot_frame options s {frame} low h =
      let (payload, js, en) = snapshot_frame-eq options.max_record_bytes s h in
      let size = length-encode_frame c.sha snapshot s.last_included_log_index payload en in
      let decode =
        decode-encode_frame c.sha [] [] (max (length frame) options.max_record_bytes) snapshot
          s.last_included_log_index payload (omega arith) (omega arith) en in
      let whole =
        subst
          (λ bytes.
            decode_frame_at c.sha bytes 0 (max (length frame) options.max_record_bytes)
            ≡ decoded (record {
              kind = snapshot;
              log_index = s.last_included_log_index;
              payload = payload;
              end = 0 + length frame;
            }))
          (append-nil frame) decode in
      ground (arith, whole, c.read-snapshot_json s payload js)

-- The tables as `compact_locked` writes them.
abbrev pub tables :
    {r : RuntimeContracts}
    → Map GlobalTaskId (DurableTaskRecord r)
    → Map GlobalTaskId ℕ
    → ℕ
    → Text
    → RegistrySnapshot r
tables records versions index id = record {
  format_version = wal_version;
  last_included_log_index = index;
  last_transaction_id = id;
  records = records;
  versions = versions;
}

module _ {r : RuntimeContracts} (c : Codec r) (options : RegistryOptions) {wal : Bytes}
    {file : Option Bytes} {records : Map GlobalTaskId (DurableTaskRecord r)}
    {versions : Map GlobalTaskId ℕ} {index : ℕ} {id : Text} {frame : Bytes} where
  -- A log whose entries the snapshot includes.
  included_log :
      (bytes : Bytes) (entries : List Entry)
      → IsLog c options entries bytes
      → All (λ e. e.log_index ≤ index) entries
      → snapshot_frame c options.max_record_bytes (tables records versions index id) ≡ ok frame
      → IsLogged c options wal file records versions index id none
      → IsLogged c options bytes (some frame) records versions index id none
  unfolding start_of replay_start
  included_log bytes entries log below h l = record {
    snap = some (tables records versions index id);
    loaded = load-snapshot_frame c options (tables records versions index id) l.index_fits h;
    version = refl;
    start_fits = l.tables_fit;
    start_index = omega arith;
    entries = entries;
    log = log;
    below = below;
    state = replay_start (tables records versions index id);
    replayed =
        replay_entries-included c options index entries
          (replay_start (tables records versions index id)) below;
    same_records = refl;
    same_versions = refl;
    same_index = refl;
    same_id = refl;
    same_prepared = refl;
    tables_fit = l.tables_fit;
    index_fits = l.index_fits;
  }

  -- The snapshot is in place and the log is still whole.
  pub IsLogged-snapshot :
      snapshot_frame c options.max_record_bytes (tables records versions index id) ≡ ok frame
      → IsLogged c options wal file records versions index id none
      → IsLogged c options wal (some frame) records versions index id none
  IsLogged-snapshot h l = included_log wal l.entries l.log l.below h l

  -- The snapshot is in place and the log is cut.
  pub IsLogged-truncated :
      snapshot_frame c options.max_record_bytes (tables records versions index id) ≡ ok frame
      → IsLogged c options wal file records versions index id none
      → IsLogged c options [] (some frame) records versions index id none
  IsLogged-truncated h l = included_log [] [] refl tt h l
