-- ===== src/Audit/Chain.antt =====
-- The hash chain of trust_audit.rs: what `append` writes is the next link, and `open` accepts
-- exactly chains.
use mathlib.Core.List.{append_assoc}
use mutsuki_distributed_host.Base.{
  ℕ, ◌≤◌, ◌<◌, ◌≡◌, ◌⊎◌, refl, ap, ◌∙◌, inl, inr, true, List, [], ◌∷◌, ◌++◌, Option, some, Text,
  Bytes, length, last?, sat_add, arith, All, ◌≢◌, Option-cases,
}
use mutsuki_distributed_host.Base.Outcome.{ok, ◌>>=◌, Result-cases}
use mutsuki_distributed_host.Base.Map.{◌is◌, text_key, is_self}
use mutsuki_distributed_host.Base.Lines.{lines, is_blank-brace, lines-append, lines-line, no_line}
use mutsuki_distributed_host.Audit.Log.{
  AuditEvent, AuditCodec, PersistentAuditLog, bounded_event_capacity, push_line, read_line,
  read_lines, next_sequence, hash_event, hash_before, validate_next_event, prepare_event,
}

module _ (c : AuditCodec) where
  -- Each event is the next one after those before it.
  abbrev pub IsChain : Option AuditEvent → List AuditEvent → Type 0
  IsChain previous [] = Unit
  IsChain previous (event ∷ rest) =
      (validate_next_event c previous event ≡ ok tt) × IsChain (some event) rest

  pub validate-signed :
      (previous : Option AuditEvent) (event : AuditEvent) (hash : Text)
      → event.sequence ≡ next_sequence previous
      → event.previous_hash ≡ hash_before c previous
      → hash_event c event ≡ ok hash
      → validate_next_event c previous (record event { event_hash = hash }) ≡ ok tt
  unfolding validate_next_event hash_event
  validate-signed previous event hash hs hp hh =
      let e : (hash is hash) ≡ true = is_self hash in
      let e' : (event.previous_hash is hash_before c previous) ≡ true =
        rw hp (is_self (hash_before c previous)) in
      ground (arith, e, e')

  -- What the guards of `append` leave to write.
  abbrev pub IsPrepared : PersistentAuditLog → AuditEvent → AuditEvent → Bytes → Type 0
  IsPrepared log event signed encoded =
      (hash : Text) × (bytes : Bytes) × (hash_event c event ≡ ok hash)
      × (signed ≡ record event { event_hash = hash })
      × (c.event_json signed ≡ some bytes)
      × (encoded ≡ bytes ++ 10 ∷ [])
      × (length log.events < bounded_event_capacity log.budget)
      × (sat_add log.bytes_this_tick (length encoded) ≤ log.budget.max_audit_bytes_per_tick)

  pub prepare_event-ok :
      (log : PersistentAuditLog) (event : AuditEvent) (signed : AuditEvent) (encoded : Bytes)
      → prepare_event c log event ≡ ok (signed, encoded)
      → IsPrepared log event signed encoded
  unfolding prepare_event
  prepare_event-ok log event signed encoded h = elim (Result-cases (hash_event c event)) [
    | inr (e, he) ↦ absurd (ground (arith, he))
    | inl (hash, he) ↦ elim (Option-cases (c.event_json (record event { event_hash = hash }))) [
      | inl hb ↦ absurd (ground (arith, he, hb))
      | inr (bytes, hb) ↦
          let made : signed ≡ record event { event_hash = hash } = ground (arith, he, hb) in
          let line : encoded ≡ bytes ++ 10 ∷ [] = ground (arith, he, hb) in
          (
            hash,
            bytes,
            he,
            made,
            ap c.event_json made ∙ hb,
            line,
            ground (arith, he, hb),
            ground (arith, he, hb),
          )
    ]
  ]

  pub read_lines-append :
      (events : List AuditEvent) (xs ys : List Bytes)
      → read_lines c events (xs ++ ys) ≡ (read_lines c events xs >>= λ read. read_lines c read ys)
  unfolding read_lines
  read_lines-append events [] ys = refl
  read_lines-append events (line ∷ rest) ys = elim (Result-cases (read_line c events line)) [
    | inr (e, he) ↦ rw he refl
    | inl (read, he) ↦ rw he (read_lines-append read rest ys)
  ]

  -- A line that holds the next event is read.
  pub read_lines-event :
      (events : List AuditEvent) (event : AuditEvent) (bytes : Bytes)
      → c.event_json event ≡ some bytes
      → validate_next_event c (last? events) event ≡ ok tt
      → read_lines c events (bytes ∷ []) ≡ ok (events ++ event ∷ [])
  unfolding read_lines read_line push_line
  read_lines-event events event bytes hj hv =
      rw
        (
          c.event_json-utf8 event bytes hj,
          is_blank-brace bytes (c.event_json-object event bytes hj),
          c.read-event_json event bytes hj,
          hv,
        )
        refl

  -- The file of a log: it is read back, and its last line is ended.
  abbrev pub IsStored : PersistentAuditLog → Type 0
  IsStored log =
      (read_lines c [] (lines log.file) ≡ ok log.events)
      × ((log.file ≡ []) ⊎ (last? log.file ≡ some 10))

  -- The lines of a file to which a whole line is added.
  pub lines_of :
      (file bytes : Bytes)
      → (file ≡ []) ⊎ (last? file ≡ some 10)
      → All (λ b. b ≢ 10) bytes
      → last? bytes ≡ some 125
      → lines (file ++ (bytes ++ 10 ∷ [])) ≡ lines file ++ bytes ∷ []
  lines_of file bytes (inl e) one object = rw (e, no_line) (lines-line [] bytes one object)
  lines_of file bytes (inr e) one object =
      lines-append [] file (bytes ++ 10 ∷ []) e
      ∙ ap (◌++◌ (lines file)) (lines-line [] bytes one object)

  last-append : (xs : Bytes) (b : ℕ) → last? (xs ++ b ∷ []) ≡ some b
  last-append [] b = refl
  last-append (x ∷ []) b = refl
  last-append (x ∷ y ∷ xs) b = last-append (y ∷ xs) b

  -- A line with the next event extends a stored file.
  pub stored_line :
      (file bytes : Bytes) (events : List AuditEvent) (event : AuditEvent)
      → read_lines c [] (lines file) ≡ ok events
      → (file ≡ []) ⊎ (last? file ≡ some 10)
      → c.event_json event ≡ some bytes
      → validate_next_event c (last? events) event ≡ ok tt
      → (read_lines c [] (lines (file ++ (bytes ++ 10 ∷ []))) ≡ ok (events ++ event ∷ []))
        × (last? (file ++ (bytes ++ 10 ∷ [])) ≡ some 10)
  stored_line file bytes events event read ended hj hv = (
    rw
        (
          lines_of file bytes ended (c.event_json-one_line event bytes hj)
              (c.event_json-object event bytes hj),
          read_lines-append [] (lines file) (bytes ∷ []),
          read,
        )
        (read_lines-event events event bytes hj hv),
    rw (← append_assoc file bytes (10 ∷ [])) (last-append (file ++ bytes) 10),
  )
