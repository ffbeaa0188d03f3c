-- ===== src/Registry/LegacyFault.antt =====
-- A log that the registry of persistent_registry.rs writes and does not open again: the first
-- bytes of its first frame are those of the older format.
use mutsuki_distributed_host.Base.{
  ℕ, ◌+◌, ◌≤◌, ◌<◌, ◌≡◌, [], ◌++◌, Option, Bytes, arith, length, refl,
}
use mutsuki_distributed_host.Base.Outcome.{ok, err, corrupt}
use mutsuki_distributed_host.Base.Encoding.{le_bytes, range_of}
use mutsuki_distributed_host.Contracts.{RuntimeContracts}
use mutsuki_distributed_host.Registry.Frame.{
  FrameKind, protected_bytes, encode_frame, decode_frame_at, decoded,
}
use mutsuki_distributed_host.Registry.FrameLaws.{
  encode_frame-eq, length-protected, decode-encode_frame,
}
use mutsuki_distributed_host.Registry.Store.{RegistryOptions, RegistrySnapshot, Codec}
use mutsuki_distributed_host.Registry.Replay.{replay_wal}

module _ {r : RuntimeContracts} (c : Codec r) (options : RegistryOptions) where
  -- A log whose first frame was encoded from a payload of 8775 bytes, within the limit of a record
  -- and at an index that is a u64, is refused as corrupt, although that frame is decoded: its
  -- length field begins with the bytes that mark the older format.
  pub replay_wal-legacy :
      (kind : FrameKind) (log_index : ℕ) (payload rest frame : Bytes)
      (snap : Option (RegistrySnapshot r))
      → length payload ≡ 8775
      → 8775 ≤ options.max_record_bytes
      → log_index < range_of 8
      → encode_frame c.sha kind log_index payload ≡ ok frame
      → (decode_frame_at c.sha (frame ++ rest) 0 options.max_record_bytes
          ≡ decoded (record {
            kind = kind;
            log_index = log_index;
            payload = payload;
            end = 0 + length frame;
          }))
        × (replay_wal c options (frame ++ rest) snap ≡ err corrupt)
  unfolding replay_wal le_bytes
  replay_wal-legacy kind log_index payload rest frame snap long fits low e =
      let (same, l) = encode_frame-eq c.sha kind log_index payload e in
      let size : length (protected_bytes kind log_index payload) + 32 ≡ 8827 =
        omega (arith, length-protected kind log_index payload) in
      (
        decode-encode_frame c.sha [] rest options.max_record_bytes kind log_index payload low
            (omega arith) e,
        rw (← same, size) refl,
      )
