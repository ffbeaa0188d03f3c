-- ===== src/Registry/ReplayLaws.antt =====
-- The replay loop of persistent_registry.rs over a log that is a row of whole frames.
use mutsuki_distributed_host.Base.{
  ℕ, zero, suc, ◌+◌, ◌≤◌, ◌<◌, ◌≡◌, refl, sym, ap, ◌∙◌, Bool, some, true, false, List, [], ◌∷◌,
  ◌++◌, Bytes, arith, length, length-append, All,
}
use mathlib.Core.List.{append_assoc, append-nil}
use mutsuki_distributed_host.Base.Outcome.{Result, ok, err, ◌>>=◌, next_round}
use mutsuki_distributed_host.Base.Encoding.{range_of}
use mutsuki_distributed_host.Contracts.{RuntimeContracts}
use mutsuki_distributed_host.Registry.Frame.{
  FrameKind, prepare, commit, encode_frame, DecodedFrame, decode_frame_at, decoded,
}
use mutsuki_distributed_host.Registry.FrameLaws.{decode-encode_frame, length-encode_frame}
use mutsuki_distributed_host.Registry.Store.{RegistryOptions, Codec}
use mutsuki_distributed_host.Registry.Replay.{ReplayState, replay_frame, replay_loop}

-- A frame of the log: a prepared transaction or a commit.
pub record Entry : Type 0 where
  pub is_commit : Bool
  pub log_index : ℕ
  pub payload : Bytes

abbrev pub kind_of : Bool → FrameKind
kind_of true = commit
kind_of false = prepare

module _ {r : RuntimeContracts} (c : Codec r) (options : RegistryOptions) where
  -- The bytes are the frames of the entries, one behind the other.
  abbrev pub IsLog : List Entry → Bytes → Type 0
  IsLog [] bytes = bytes ≡ []
  IsLog (e ∷ es) bytes =
      (frame : Bytes) × (tail : Bytes) × (encode_frame c.sha (kind_of e.is_commit) e.log_index
          e.payload
        ≡ ok frame)
      × (e.log_index < range_of 8)
      × (length e.payload ≤ options.max_record_bytes)
      × (bytes ≡ frame ++ tail)
      × IsLog es tail

  abbrev pub replay_entries : ℕ → List Entry → ReplayState r → Result (ReplayState r)
  replay_entries included [] s = ok s
  replay_entries included (e ∷ es) s =
      replay_frame c options included (kind_of e.is_commit) e.log_index e.payload s
      >>= replay_entries included es

  replay_loop-step :
      (fuel included : ℕ) (before rest : Bytes) (s : ReplayState r) (frame : DecodedFrame)
      → length before < length (before ++ rest)
      → decode_frame_at c.sha (before ++ rest) (length before) options.max_record_bytes
        ≡ decoded frame
      → replay_loop c options (suc fuel) included (before ++ rest) (length before) s
        ≡ next_round
            (replay_frame c options included frame.kind frame.log_index frame.payload s)
            (replay_loop c options fuel included (before ++ rest) frame.end)
  unfolding replay_loop
  replay_loop-step fuel included before rest s frame h e = ground arith

  -- From the end of a frame on, whatever that frame did.
  replay_loop-rest :
      (fuel included : ℕ) (es : List Entry) (before frame tail : Bytes)
      (done : Result (ReplayState r))
      → ((t : ReplayState r)
          → replay_loop c options fuel included
              ((before ++ frame) ++ tail)
              (length (before ++ frame))
              t
            ≡ some
                (replay_entries included es t >>= λ u. ok (u, length ((before ++ frame) ++ tail))))
      → next_round done (
          replay_loop c options fuel included
            (before ++ (frame ++ tail))
            (length before + length frame))
        ≡ some (
            (done >>= replay_entries included es) >>= λ u.
            ok (u, length (before ++ (frame ++ tail))))
  replay_loop-rest fuel included es before frame tail (err kind) h = refl
  replay_loop-rest fuel included es before frame tail (ok t) h =
      rw (← append_assoc before frame tail, ← length-append before frame) (h t)

  -- Over whole frames the loop is the fold over their entries, and it reads to the end.
  pub replay_loop-entries :
      (fuel included : ℕ) (es : List Entry) (before bytes : Bytes) (s : ReplayState r)
      → length bytes < fuel
      → IsLog es bytes
      → replay_loop c options fuel included (before ++ bytes) (length before) s
        ≡ some (replay_entries included es s >>= λ t. ok (t, length (before ++ bytes)))
  replay_loop-entries zero included es before bytes s h log = elim h [ ]
  replay_loop-entries (suc fuel) included [] before bytes s h log =
      rw (log, append-nil before) (unfold replay_loop in ground arith)
  replay_loop-entries (suc fuel) included (e ∷ es) before bytes s h
        (frame, tail, en, low, fit, cut, log) =
      let size = length-encode_frame c.sha (kind_of e.is_commit) e.log_index e.payload en in
      let long = length-append frame tail in
      let whole = ap length cut in
      let decode =
        decode-encode_frame c.sha before tail options.max_record_bytes (kind_of e.is_commit)
          e.log_index e.payload low fit en in
      rw cut (
        replay_loop-step fuel included before (frame ++ tail) s _
          (omega (arith, length-append before (frame ++ tail))) decode
        ∙ replay_loop-rest fuel included es before frame tail _
            (λ t. replay_loop-entries fuel included es (before ++ frame) tail t (omega arith) log))

  -- One more frame at the end of the log.
  pub IsLog-append :
      (es : List Entry) (bytes : Bytes) (e : Entry) (frame : Bytes)
      → IsLog es bytes
      → encode_frame c.sha (kind_of e.is_commit) e.log_index e.payload ≡ ok frame
      → e.log_index < range_of 8
      → length e.payload ≤ options.max_record_bytes
      → IsLog (es ++ e ∷ []) (bytes ++ frame)
  IsLog-append [] bytes e frame log en low fit =
      (frame, [], en, low, fit, rw log (sym (append-nil frame)), refl)
  IsLog-append (x ∷ es) bytes e frame (first, tail, en', low', fit', cut, log) en low fit = (
    first,
    tail ++ frame,
    en',
    low',
    fit',
    rw cut (append_assoc first tail frame),
    IsLog-append es tail e frame log en low fit,
  )

  pub replay_entries-append :
      (included : ℕ) (es : List Entry) (e : Entry) (s : ReplayState r)
      → replay_entries included (es ++ e ∷ []) s ≡ (
          replay_entries included es s
          >>= replay_frame c options included (kind_of e.is_commit) e.log_index e.payload)
  replay_entries-append included [] e s =
      go (replay_frame c options included (kind_of e.is_commit) e.log_index e.payload s)
    where
      go : (m : Result (ReplayState r)) → (m >>= replay_entries included []) ≡ m
      go (ok t) = refl
      go (err kind) = refl
  replay_entries-append included (x ∷ es) e s =
      go (replay_frame c options included (kind_of x.is_commit) x.log_index x.payload s)
        (λ t. replay_entries-append included es e t)
    where
      go :
          (m : Result (ReplayState r))
          → ((t : ReplayState r)
              → replay_entries included (es ++ e ∷ []) t ≡ (
                  replay_entries included es t
                  >>= replay_frame c options included (kind_of e.is_commit) e.log_index e.payload))
          → (m >>= replay_entries included (es ++ e ∷ [])) ≡ (
              (m >>= replay_entries included es)
              >>= replay_frame c options included (kind_of e.is_commit) e.log_index e.payload)
      go (ok t) h = h t
      go (err kind) h = refl

  -- Frames that the snapshot includes change nothing.
  pub replay_entries-included :
      (included : ℕ) (es : List Entry) (s : ReplayState r)
      → All (λ e. e.log_index ≤ included) es
      → replay_entries included es s ≡ ok s
  replay_entries-included included [] s h = refl
  replay_entries-included included (e ∷ es) s h =
      let skipped : replay_frame c options included (kind_of e.is_commit) e.log_index e.payload s
          ≡ ok s =
        skip e.is_commit in
      rw skipped (replay_entries-included included es s h.1)
    where
      skip : (b : Bool) → replay_frame c options included (kind_of b) e.log_index e.payload s ≡ ok s
      skip true = unfold replay_frame in ground (arith, h.0)
      skip false = unfold replay_frame in ground (arith, h.0)
