-- ===== src/Registry/Rounds.antt =====
-- The loops of persistent_registry.rs that read frames end: each frame moves the offset on.
use mutsuki_distributed_host.Base.{
  ℕ, zero, suc, ◌+◌, ◌-◌, ◌<◌, inl, inr, ◌⊎◌, Bool-cases, ◌≡◌, refl, Bytes, arith, length, Option,
  none, some, leb, drop, take,
}
use mutsuki_distributed_host.Base.Outcome.{Result, Result-cases}
use mutsuki_distributed_host.Base.Encoding.{from_le}
use mutsuki_distributed_host.Contracts.{RuntimeContracts}
use mutsuki_distributed_host.Registry.Frame.{
  Sha256, FrameKind, Decoded, DecodedFrame, incomplete, decoded, corrupt_frame, panicked,
  decode_kind, kind_of_byte, nth, decode_protected, decode_body, decode_remaining, decode_frame_at,
}
use mutsuki_distributed_host.Registry.Store.{RegistryOptions, Codec}
use mutsuki_distributed_host.Registry.Replay.{ReplayState, replay_frame, replay_loop}
use mutsuki_distributed_host.Registry.FileReplica.{
  default_max_record_bytes, ScanState, scan_frame, scan_loop,
}

decode_kind-end :
    (max_payload end : ℕ) (protected : Bytes) (kind : Option FrameKind) (frame : DecodedFrame)
    → decode_kind max_payload end protected kind ≡ decoded frame
    → frame.end ≡ end
unfolding decode_kind
decode_kind-end max_payload end protected none frame e = absurd (cc e)
decode_kind-end max_payload end protected (some kind) frame e = ground arith

decode_frame_at-end :
    (sha : Sha256) (bytes : Bytes) (offset max_payload : ℕ) (frame : DecodedFrame)
    → decode_frame_at sha bytes offset max_payload ≡ decoded frame
    → offset < frame.end
unfolding decode_frame_at decode_remaining decode_body decode_protected
decode_frame_at-end sha bytes offset max_payload frame e =
    let rest = drop offset bytes in
    let body_len = from_le (take 4 rest) in
    let protected = take (body_len - 32) (take body_len (drop 4 rest)) in
    ground (
      arith,
      e,
      decode_kind-end max_payload (offset + 4 + body_len) protected (kind_of_byte (nth 6 protected))
          frame,
    )

Decoded-cases :
    (d : Decoded)
    → ((frame : DecodedFrame) × (d ≡ decoded frame))
      ⊎ ((d ≡ incomplete) ⊎ ((d ≡ corrupt_frame) ⊎ (d ≡ panicked)))
Decoded-cases incomplete = inr (inl refl)
Decoded-cases (decoded frame) = inl (frame, refl)
Decoded-cases corrupt_frame = inr (inr (inl refl))
Decoded-cases panicked = inr (inr (inr refl))

-- Two runs of a loop come to an answer, and to the same one.
abbrev Answers {ℓ} : {A : Type ℓ} → Option A → Option A → Type ℓ
Answers a b = (answer : _) × (a ≡ some answer) × (b ≡ some answer)

module _ {r : RuntimeContracts} (c : Codec r) where
  replay_loop-Answers :
      (options : RegistryOptions) (f g included : ℕ) (bytes : Bytes) (offset : ℕ)
      (s : ReplayState r)
      → length bytes - offset < f
      → length bytes - offset < g
      → Answers
          (replay_loop c options f included bytes offset s)
          (replay_loop c options g included bytes offset s)
  unfolding replay_loop
  replay_loop-Answers options zero g included bytes offset s hf hg = absurd (omega arith)
  replay_loop-Answers options (suc f) zero included bytes offset s hf hg = absurd (omega arith)
  replay_loop-Answers options (suc f) (suc g) included bytes offset s hf hg =
      let limit = options.max_record_bytes in
      elim (Bool-cases (leb (length bytes) offset)) [
        | inl over ↦ rw over (_, refl, refl)
        | inr more ↦ rw more (elim (Decoded-cases (decode_frame_at c.sha bytes offset limit)) [
          | inl (frame, e) ↦
              let behind = decode_frame_at-end c.sha bytes offset limit frame e in
              let round =
                replay_frame c options included frame.kind frame.log_index frame.payload s in
              rw e (elim (Result-cases round) [
                | inl (next, done) ↦ rw done (
                    replay_loop-Answers options f g included bytes frame.end next (ground arith)
                      (ground arith))
                | inr (kind, failed) ↦ rw failed (_, refl, refl)
              ])
          | inr (inl e) ↦ rw e (_, refl, refl)
          | inr (inr (inl e)) ↦ rw e (_, refl, refl)
          | inr (inr (inr e)) ↦ rw e (_, refl, refl)
        ])
      ]

  scan_loop-Answers :
      (f g : ℕ) (bytes : Bytes) (offset : ℕ) (s : ScanState)
      → length bytes - offset < f
      → length bytes - offset < g
      → Answers (scan_loop c f bytes offset s) (scan_loop c g bytes offset s)
  unfolding scan_loop
  scan_loop-Answers zero g bytes offset s hf hg = absurd (omega arith)
  scan_loop-Answers (suc f) zero bytes offset s hf hg = absurd (omega arith)
  scan_loop-Answers (suc f) (suc g) bytes offset s hf hg =
      let limit = default_max_record_bytes in
      elim (Bool-cases (leb (length bytes) offset)) [
        | inl over ↦ rw over (_, refl, refl)
        | inr more ↦ rw more (elim (Decoded-cases (decode_frame_at c.sha bytes offset limit)) [
          | inl (frame, e) ↦
              let behind = decode_frame_at-end c.sha bytes offset limit frame e in
              let round = scan_frame c frame.kind offset frame.log_index frame.payload s in
              rw e (elim (Result-cases round) [
                | inl (next, done) ↦
                    rw done
                      (scan_loop-Answers f g bytes frame.end next (ground arith) (ground arith))
                | inr (kind, failed) ↦ rw failed (_, refl, refl)
              ])
          | inr (inl e) ↦ rw e (_, refl, refl)
          | inr (inr (inl e)) ↦ rw e (_, refl, refl)
          | inr (inr (inr e)) ↦ rw e (_, refl, refl)
        ])
      ]

  -- Whatever the bytes are, with more rounds than bytes the replay of the log and the scan of a
  -- replica come to an answer, the one that the callers get with one round more than there are
  -- bytes.
  pub replay_loop-scan_loop-rounds :
      (options : RegistryOptions) (rounds included : ℕ) (bytes : Bytes) (s : ReplayState r)
      (t : ScanState)
      → length bytes < rounds
      → ((answer : Result (ReplayState r × ℕ)) × (replay_loop c options rounds included bytes 0 s
            ≡ some answer)
          × (replay_loop c options (suc (length bytes)) included bytes 0 s ≡ some answer))
        × ((answer : Result (ScanState × ℕ)) × (scan_loop c rounds bytes 0 t ≡ some answer)
            × (scan_loop c (suc (length bytes)) bytes 0 t ≡ some answer))
  replay_loop-scan_loop-rounds options rounds included bytes s t h =
      let enough = suc (length bytes) in
      (
        replay_loop-Answers options rounds enough included bytes 0 s (omega arith) (omega arith),
        scan_loop-Answers rounds enough bytes 0 t (omega arith) (omega arith),
      )
