-- ===== src/Audit/Torn.antt =====
-- A write of `append` of trust_audit.rs that leaves a part of its line behind.
use mathlib.Core.List.{append_assoc}
use mutsuki_distributed_host.Base.{
  ℕ, zero, suc, ◌≤◌, ◌<◌, ◌≡◌, length-append, ◌≢◌, ◌⊎◌, refl, ap, ◌∙◌, false, List, [], ◌∷◌, ◌++◌,
  none, some, Bytes, length, take, last?, All, arith, All-append, All-take,
}
use mutsuki_distributed_host.Base.Outcome.{ok, err, corrupt, storage}
use mutsuki_distributed_host.Base.Encoding.{from_utf8}
use mutsuki_distributed_host.Base.Lines.{lines, is_blank-brace}
use mutsuki_distributed_host.Registry.Store.{torn, append_bytes}
use mutsuki_distributed_host.Audit.Log.{
  AuditEvent, AuditCodec, PersistentAuditLog, push_line, read_line, read_lines, open_log,
  prepare_event, note_event, write_event,
}
use mutsuki_distributed_host.Audit.Chain.{IsStored, prepare_event-ok, lines_of, read_lines-append}
use mutsuki_distributed_host.Audit.Reopen.{is_unset}

last-after : (xs ys : Bytes) (b : ℕ) → last? ys ≡ some b → last? (xs ++ ys) ≡ some b
last-after [] ys b h = h
last-after (x ∷ []) [] b h = absurd cc
last-after (x ∷ []) (y ∷ ys) b h = h
last-after (x ∷ x' ∷ xs) ys b h = last-after (x' ∷ xs) ys b h

take-within : (n : ℕ) (xs ys : Bytes) → n ≤ length xs → take n (xs ++ ys) ≡ take n xs
take-within zero xs ys h = refl
take-within (suc n) [] ys h = absurd (omega arith)
take-within (suc n) (x ∷ xs) ys h = ap (◌∷◌ x) (take-within n xs ys (omega arith))

module _ (c : AuditCodec) where
  -- A line that is not an event stops `open`.
  bad_line :
      (file line : Bytes) (events : List AuditEvent)
      → read_lines c [] (lines file) ≡ ok events
      → (file ≡ []) ⊎ (last? file ≡ some 10)
      → All (λ b. b ≢ 10) line
      → last? line ≡ some 125
      → from_utf8 line ≡ some line
      → c.read_event line ≡ none
      → read_lines c [] (lines (file ++ (line ++ 10 ∷ []))) ≡ err corrupt
  unfolding read_lines read_line push_line
  bad_line file line events read ended one brace utf8 none_read =
      rw
        (
          lines_of c file line ended one brace,
          read_lines-append c [] (lines file) (line ∷ []),
          read,
          utf8,
          is_blank-brace line brace,
          none_read,
        )
        refl

  torn_line :
      (file fragment bytes : Bytes) (events : List AuditEvent) (event : AuditEvent)
      → read_lines c [] (lines file) ≡ ok events
      → (file ≡ []) ⊎ (last? file ≡ some 10)
      → All (λ b. b ≢ 10) fragment
      → c.event_json event ≡ some bytes
      → from_utf8 (fragment ++ bytes) ≡ some (fragment ++ bytes)
      → c.read_event (fragment ++ bytes) ≡ none
      → read_lines c [] (lines ((file ++ fragment) ++ (bytes ++ 10 ∷ []))) ≡ err corrupt
  torn_line file fragment bytes events event read ended one hj utf8 none_read =
      rw (append_assoc file fragment (bytes ++ 10 ∷ []), ← append_assoc fragment bytes (10 ∷ []))
        (bad_line file (fragment ++ bytes) events read ended
          (All-append _ fragment bytes one (c.event_json-one_line event bytes hj))
          (last-after fragment bytes 125 (c.event_json-object event bytes hj)) utf8 none_read)

  -- A write of `append` that fails and leaves a part of its line behind, though not the newline,
  -- hides the next event: the next `append` returns Ok, and where the bytes left behind with its
  -- object after them are UTF-8 but not one object of JSON, the file is refused as corrupt when the
  -- log is opened again.
  pub write_event-torn :
      (log : PersistentAuditLog) (event event' signed signed' : AuditEvent) (encoded bytes : Bytes)
      (n : ℕ)
      → IsStored c log
      → is_unset log.budget ≡ false
      → prepare_event c log event ≡ ok (signed, encoded)
      → n < length encoded
      → prepare_event c
          (write_event (record log { disk = torn n ∷ [] }) (ok (signed, encoded))).0
          event'
        ≡ ok (signed', bytes ++ 10 ∷ [])
      → c.event_json signed' ≡ some bytes
      → from_utf8 (take n encoded ++ bytes) ≡ some (take n encoded ++ bytes)
      → c.read_event (take n encoded ++ bytes) ≡ none
      → let failed = write_event (record log { disk = torn n ∷ [] }) (ok (signed, encoded)) in
        let later = write_event failed.0 (prepare_event c failed.0 event') in
        (failed.1 ≡ err storage)
        × (later.1 ≡ ok signed')
        × (open_log c later.0.file [] log.budget ≡ err corrupt)
  unfolding write_event note_event append_bytes open_log
  write_event-torn log event event' signed signed' encoded bytes n (read, ended) set h short h' hj
        utf8 none_read =
      let (hash, bytes0, he, made, hj0, line, room, bound) =
        prepare_event-ok c log event signed encoded h in
      let part : take n encoded ≡ take n bytes0 =
        ap (take n) line
        ∙ take-within n bytes0 (10 ∷ [])
            (omega (arith, ap length line, length-append bytes0 (10 ∷ []))) in
      let clean : All (λ b. b ≢ 10) (take n encoded) =
        rw part (All-take _ n bytes0 (c.event_json-one_line signed bytes0 hj0)) in
      let corrupted =
        torn_line log.file (take n encoded) bytes log.events signed' read ended clean hj utf8
          none_read in
      rw h' (refl, refl, rw (set, corrupted) refl)
