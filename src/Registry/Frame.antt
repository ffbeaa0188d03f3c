-- ===== src/Registry/Frame.antt =====
-- The frames of the write-ahead log: `encode_frame` and `decode_frame_at` of
-- persistent_registry.rs. A frame is its length, then a protected part and its SHA-256.
use mutsuki_distributed_host.Base.{
  ℕ, zero, suc, ◌+◌, ◌-◌, ◌≡◌, not, ◌||◌, [], ◌∷◌, ◌++◌, Option, none, some, Bytes, ltb, ◌==◌,
  if◌then◌else◌, length, take, drop, u32_max,
}
use mutsuki_distributed_host.Base.Outcome.{Result, ok, ◌>>◌, refuse_if, capacity_exceeded}
use mutsuki_distributed_host.Base.Map.{text_key, ◌is◌}
use mutsuki_distributed_host.Base.Encoding.{le_bytes, from_le}

-- The crate sha2: a digest of 32 bytes.
pub record Sha256 : Type 0 where
  pub digest : Bytes → Bytes
  pub digest_length : (bytes : Bytes) → length (digest bytes) ≡ 32

pub data FrameKind : Type 0 where
  prepare commit snapshot : FrameKind

-- `WAL_MAGIC`, "MRW1".
abbrev pub wal_magic : Bytes
wal_magic = 77 ∷ 82 ∷ 87 ∷ 49 ∷ []

abbrev pub wal_version : ℕ
wal_version = 1

-- `FRAME_FIXED_BYTES`.
abbrev pub frame_fixed_bytes : ℕ
frame_fixed_bytes = 52

unfoldable pub kind_byte : FrameKind → ℕ
kind_byte prepare = 1
kind_byte commit = 2
kind_byte snapshot = 3

-- `FrameKind::try_from`.
unfoldable pub kind_of_byte : ℕ → Option FrameKind
kind_of_byte b =
    if b == 1
    then some prepare
    else if b == 2
    then some commit
    else if b == 3
    then some snapshot
    else none

unfoldable pub protected_bytes : FrameKind → ℕ → Bytes → Bytes
unfolding kind_byte le_bytes
protected_bytes kind log_index payload =
    wal_magic
    ++ (le_bytes 2 wal_version
        ++ (kind_byte kind
            ∷ 0
            ∷ (le_bytes 8 log_index ++ (le_bytes 4 (length payload) ++ payload))))

pub record DecodedFrame : Type 0 where
  pub kind : FrameKind
  pub log_index : ℕ
  pub payload : Bytes
  pub end : ℕ

-- What decoding at an offset answers: `Ok(None)`, a frame, `Err(Corrupt)`, or a panic on a slice
-- that is out of range.
pub data Decoded : Type 0 where
  incomplete : Decoded
  decoded : DecodedFrame → Decoded
  corrupt_frame : Decoded
  panicked : Decoded

abbrev pub nth : ℕ → Bytes → ℕ
nth i [] = 0
nth zero (b ∷ bs) = b
nth (suc i) (b ∷ bs) = nth i bs

-- From the kind on. The protected part has 16 bytes at least, so the slices up to 16 are in range.
unfoldable pub decode_kind : ℕ → ℕ → Bytes → Option FrameKind → Decoded
unfolding from_le
decode_kind max_payload_bytes end protected none = corrupt_frame
decode_kind max_payload_bytes end protected (some kind) =
    if not (nth 7 protected == 0)
    then corrupt_frame
    else if ltb (length protected) 20
    then panicked
    else let payload_len = from_le (take 4 (drop 16 protected)) in
      if ltb max_payload_bytes payload_len || not (length protected == 20 + payload_len)
      then corrupt_frame
      else decoded (record {
        kind = kind;
        log_index = from_le (take 8 (drop 8 protected));
        payload = drop 20 protected;
        end = end;
      })

unfoldable pub decode_protected : ℕ → ℕ → Bytes → Decoded
unfolding decode_kind kind_of_byte le_bytes
decode_protected max_payload_bytes end protected =
    if not (take 4 protected is wal_magic)
      || not (take 2 (drop 4 protected) is le_bytes 2 wal_version)
    then corrupt_frame
    else decode_kind max_payload_bytes end protected (kind_of_byte (nth 6 protected))

module _ (sha : Sha256) where
  unfoldable pub encode_frame : FrameKind → ℕ → Bytes → Result Bytes
  unfolding protected_bytes
  encode_frame kind log_index payload = do
    refuse_if (ltb u32_max (length payload)) capacity_exceeded
    let protected = protected_bytes kind log_index payload
    let checksum = sha.digest protected
    let body_len = length protected + length checksum
    refuse_if (ltb u32_max body_len) capacity_exceeded
    ok (le_bytes 4 body_len ++ (protected ++ checksum))

  unfoldable pub decode_body : ℕ → ℕ → ℕ → Bytes → Decoded
  unfolding decode_protected
  decode_body max_payload_bytes end body_len body =
      let protected = take (body_len - 32) body in
      if not (sha.digest protected is drop (body_len - 32) body)
      then corrupt_frame
      else decode_protected max_payload_bytes end protected

  -- The slice `bytes[offset..]`.
  unfoldable pub decode_remaining : Bytes → ℕ → ℕ → Decoded
  unfolding decode_body from_le
  decode_remaining remaining offset max_payload_bytes =
      if ltb (length remaining) 4
      then incomplete
      else let body_len = from_le (take 4 remaining) in
        if ltb (length remaining) (4 + body_len)
        then incomplete
        else if ltb body_len (frame_fixed_bytes - 4)
        then corrupt_frame
        else decode_body max_payload_bytes (offset + 4 + body_len) body_len
            (take body_len (drop 4 remaining))

  unfoldable pub decode_frame_at : Bytes → ℕ → ℕ → Decoded
  unfolding decode_remaining
  decode_frame_at bytes offset max_payload_bytes =
      decode_remaining (drop offset bytes) offset max_payload_bytes
