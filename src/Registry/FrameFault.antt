-- ===== src/Registry/FrameFault.antt =====
-- A frame that decode_frame_at of persistent_registry.rs does not reject and cannot slice.
use mutsuki_distributed_host.Base.{
  ℕ, ◌+◌, ◌-◌, ◌≤◌, ◌<◌, ◌≡◌, ◌∙◌, ◌∷◌, ◌++◌, Bytes, arith, length, length-append, take-append,
  drop-append, text_discrete, ℕ_discrete,
}
use mutsuki_distributed_host.Base.Map.{is_self, text_key}
use mutsuki_distributed_host.Base.Encoding.{le_bytes, range_of}
use mutsuki_distributed_host.Registry.Frame.{
  Sha256, FrameKind, prepare, commit, snapshot, kind_byte, wal_magic, panicked, decode_protected,
  decode_body, decode_frame_at,
}
use mutsuki_distributed_host.Registry.FrameLaws.{decode_remaining-body}

-- Magic, version, kind and the reserved byte, and then fewer bytes than an index and a length.
abbrev pub short_protected : FrameKind → Bytes → Bytes
short_protected kind tail = wal_magic ++ (1 ∷ 0 ∷ kind_byte kind ∷ 0 ∷ tail)

short_kind :
    (max_payload end : ℕ) (kind : FrameKind) (tail : Bytes)
    → length tail < 12
    → decode_protected max_payload end (short_protected kind tail) ≡ panicked
unfolding decode_protected text_discrete ℕ_discrete kind_byte
short_kind max_payload end prepare tail h = ground arith
short_kind max_payload end commit tail h = ground arith
short_kind max_payload end snapshot tail h = ground arith

module _ (sha : Sha256) where
  short_body :
      (max_payload end : ℕ) (kind : FrameKind) (tail : Bytes)
      → length tail < 12
      → let protected = short_protected kind tail in
        decode_body sha max_payload end (length protected + 32) (protected ++ sha.digest protected)
        ≡ panicked
  unfolding decode_body
  short_body max_payload end kind tail h =
      let protected = short_protected kind tail in
      let same : length protected + 32 - 32 ≡ length protected = omega arith in
      rw
        (
          same,
          take-append protected (sha.digest protected),
          drop-append protected (sha.digest protected),
          is_self (sha.digest protected),
        )
        (short_kind max_payload end kind tail h)

  -- A log frame with a valid length, checksum, magic, version and kind, whose protected part has
  -- between 16 and 19 bytes, makes the decoder panic on its length field: the bound that should
  -- reject it as corrupt is four bytes too low.
  pub decode_frame_at-panics :
      (before rest tail : Bytes) (max_payload : ℕ) (kind : FrameKind)
      → 8 ≤ length tail
      → length tail < 12
      → let protected = short_protected kind tail in
        decode_frame_at sha
          (before
            ++ ((le_bytes 4 (length protected + 32) ++ (protected ++ sha.digest protected))
                ++ rest))
          (length before)
          max_payload
        ≡ panicked
  unfolding decode_frame_at
  decode_frame_at-panics before rest tail max_payload kind low high =
      let protected = short_protected kind tail in
      let frame = le_bytes 4 (length protected + 32) ++ (protected ++ sha.digest protected) in
      rw (drop-append before (frame ++ rest)) (
        decode_remaining-body sha (protected ++ sha.digest protected) rest (length protected + 32)
          (length before) max_payload
          (omega
            (arith, length-append protected (sha.digest protected), sha.digest_length protected))
          (omega arith) (unfold range_of in omega arith)
        ∙ short_body max_payload _ kind tail high)
