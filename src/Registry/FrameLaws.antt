-- ===== src/Registry/FrameLaws.antt =====
-- Decoding what was encoded, for the frames of the write-ahead log of persistent_registry.rs.
use mutsuki_distributed_host.Base.{
  ℕ, ◌+◌, ◌-◌, ◌≤◌, ◌<◌, ◌≡◌, refl, ◌∙◌, subst, ◌++◌, some, Bytes, arith, length, length-append,
  take, take-append, drop-append, text_discrete, ℕ_discrete,
}
use mutsuki_distributed_host.Base.Outcome.{ok}
use mutsuki_distributed_host.Base.Map.{is_self, text_key}
use mutsuki_distributed_host.Base.Encoding.{le_bytes, range_of, from_le-le_bytes, length-le_bytes}
use mutsuki_distributed_host.Registry.Frame.{
  Sha256, FrameKind, prepare, commit, snapshot, kind_byte, kind_of_byte, protected_bytes, decoded,
  decode_kind, decode_protected, encode_frame, decode_body, decode_remaining, decode_frame_at,
}

kind_of-kind_byte : (kind : FrameKind) → kind_of_byte (kind_byte kind) ≡ some kind
unfolding kind_of_byte kind_byte
kind_of-kind_byte prepare = refl
kind_of-kind_byte commit = refl
kind_of-kind_byte snapshot = refl

pub length-protected :
    (kind : FrameKind) (log_index : ℕ) (payload : Bytes)
    → length (protected_bytes kind log_index payload) ≡ 20 + length payload
unfolding protected_bytes
length-protected kind log_index payload = omega arith

decode_kind-bytes :
    (max_payload end : ℕ) (kind : FrameKind) (log_index : ℕ) (payload : Bytes)
    → log_index < range_of 8
    → length payload < range_of 4
    → length payload ≤ max_payload
    → decode_kind max_payload end (protected_bytes kind log_index payload) (some kind)
      ≡ decoded (record { kind = kind; log_index = log_index; payload = payload; end = end })
unfolding decode_kind protected_bytes
decode_kind-bytes max_payload end kind log_index payload h l m =
    ground (arith, from_le-le_bytes 4 (length payload) l, from_le-le_bytes 8 log_index h)

decode_protected-bytes :
    (max_payload end : ℕ) (kind : FrameKind) (log_index : ℕ) (payload : Bytes)
    → log_index < range_of 8
    → length payload < range_of 4
    → length payload ≤ max_payload
    → decode_protected max_payload end (protected_bytes kind log_index payload)
      ≡ decoded (record { kind = kind; log_index = log_index; payload = payload; end = end })
unfolding decode_protected protected_bytes text_discrete ℕ_discrete
decode_protected-bytes max_payload end prepare log_index payload h l m =
    decode_kind-bytes max_payload end prepare log_index payload h l m
decode_protected-bytes max_payload end commit log_index payload h l m =
    decode_kind-bytes max_payload end commit log_index payload h l m
decode_protected-bytes max_payload end snapshot log_index payload h l m =
    decode_kind-bytes max_payload end snapshot log_index payload h l m

module _ (sha : Sha256) where
  decode_body-bytes :
      (max_payload end : ℕ) (kind : FrameKind) (log_index : ℕ) (payload : Bytes)
      → log_index < range_of 8
      → length payload < range_of 4
      → length payload ≤ max_payload
      → let protected = protected_bytes kind log_index payload in
        decode_body sha max_payload end (length protected + 32) (protected ++ sha.digest protected)
        ≡ decoded (record { kind = kind; log_index = log_index; payload = payload; end = end })
  unfolding decode_body
  decode_body-bytes max_payload end kind log_index payload h l m =
      let protected = protected_bytes kind log_index payload in
      let same : length protected + 32 - 32 ≡ length protected = omega arith in
      rw
        (
          same,
          take-append protected (sha.digest protected),
          drop-append protected (sha.digest protected),
          is_self (sha.digest protected),
        )
        (decode_protected-bytes max_payload end kind log_index payload h l m)

  -- What a successful encoding says.
  pub encode_frame-eq :
      (kind : FrameKind) (log_index : ℕ) (payload : Bytes) {frame : Bytes}
      → encode_frame sha kind log_index payload ≡ ok frame
      → let protected = protected_bytes kind log_index payload in
        (le_bytes 4 (length protected + 32) ++ (protected ++ sha.digest protected) ≡ frame)
        × (length protected + 32 < range_of 4)
  unfolding encode_frame range_of
  encode_frame-eq kind log_index payload h =
      ground (arith, sha.digest_length (protected_bytes kind log_index payload))

  -- A payload that leaves room for the fixed fields is encoded.
  pub encode_frame-ok :
      (kind : FrameKind) (log_index : ℕ) (payload : Bytes)
      → length payload + 52 < range_of 4
      → let protected = protected_bytes kind log_index payload in
        encode_frame sha kind log_index payload
        ≡ ok (le_bytes 4 (length protected + 32) ++ (protected ++ sha.digest protected))
  unfolding encode_frame range_of
  encode_frame-ok kind log_index payload h =
      let protected = protected_bytes kind log_index payload in
      rw (sha.digest_length protected, length-protected kind log_index payload) (ground arith)

  -- The body of a frame that stands whole at the front.
  pub decode_remaining-body :
      (body rest : Bytes) (n offset max_payload : ℕ)
      → length body ≡ n
      → 48 ≤ n
      → n < range_of 4
      → decode_remaining sha ((le_bytes 4 n ++ body) ++ rest) offset max_payload
        ≡ decode_body sha max_payload (offset + 4 + n) n body
  unfolding decode_remaining
  decode_remaining-body body rest n offset max_payload e low l =
      let cut : take n (body ++ rest) ≡ body =
        subst (λ k. take k (body ++ rest) ≡ body) e (take-append body rest) in
      ground (arith, from_le-le_bytes 4 n l, length-append body rest, cut)

  decode_remaining-frame :
      (rest : Bytes) (offset max_payload : ℕ) (kind : FrameKind) (log_index : ℕ) (payload : Bytes)
      → log_index < range_of 8
      → length payload ≤ max_payload
      → length (protected_bytes kind log_index payload) + 32 < range_of 4
      → let protected = protected_bytes kind log_index payload in
        decode_remaining sha
          ((le_bytes 4 (length protected + 32) ++ (protected ++ sha.digest protected)) ++ rest)
          offset
          max_payload
        ≡ decoded (record {
          kind = kind;
          log_index = log_index;
          payload = payload;
          end = offset + 4 + (length protected + 32);
        })
  decode_remaining-frame rest offset max_payload kind log_index payload h m l =
      let protected = protected_bytes kind log_index payload in
      let size = length-protected kind log_index payload in
      decode_remaining-body (protected ++ sha.digest protected) rest (length protected + 32) offset
        max_payload
        (omega (arith, length-append protected (sha.digest protected), sha.digest_length protected))
        (omega arith) l
      ∙ decode_body-bytes max_payload _ kind log_index payload h (omega arith) m

  pub length-encode_frame :
      (kind : FrameKind) (log_index : ℕ) (payload : Bytes) {frame : Bytes}
      → encode_frame sha kind log_index payload ≡ ok frame
      → length frame ≡ 56 + length payload
  length-encode_frame kind log_index payload e =
      let protected = protected_bytes kind log_index payload in
      let (same, l) = encode_frame-eq kind log_index payload e in
      subst (λ f. length f ≡ 56 + length payload) same
        (omega (
          arith,
          length-append protected (sha.digest protected),
          sha.digest_length protected,
          length-protected kind log_index payload,
          length-append (le_bytes 4 (length protected + 32)) (protected ++ sha.digest protected),
          length-le_bytes 4 (length protected + 32),
        ))

  -- A frame that was encoded is decoded again wherever it stands in a log: with its kind, its
  -- index and its payload, and its end behind it. The index is a u64 and the payload within the
  -- limit of the reader.
  pub decode-encode_frame :
      (before rest : Bytes) (max_payload : ℕ) (kind : FrameKind) (log_index : ℕ) (payload : Bytes)
      {frame : Bytes}
      → log_index < range_of 8
      → length payload ≤ max_payload
      → encode_frame sha kind log_index payload ≡ ok frame
      → decode_frame_at sha (before ++ (frame ++ rest)) (length before) max_payload
        ≡ decoded (record {
          kind = kind;
          log_index = log_index;
          payload = payload;
          end = length before + length frame;
        })
  unfolding decode_frame_at
  decode-encode_frame before rest max_payload kind log_index payload {frame} h m e =
      let protected = protected_bytes kind log_index payload in
      let (same, l) = encode_frame-eq kind log_index payload e in
      let size = length-encode_frame kind log_index payload e in
      let protected_size = length-protected kind log_index payload in
      let ends : length before + 4 + (length protected + 32) ≡ length before + length frame =
        omega arith in
      rw (drop-append before (frame ++ rest), ← ends, ← same)
        (decode_remaining-frame rest (length before) max_payload kind log_index payload h m l)
