-- ===== src/Audit/Tamper.antt =====
-- What the last hash of an audit log of trust_audit.rs says about all its events.
use mutsuki_distributed_host.Base.{
  ◌≡◌, ◌⊎◌, refl, ap, subst, sym, ◌∙◌, inl, inr, List, [], ◌∷◌, ◌++◌, Option, none, some, Text,
  Bytes, length, last?, arith, Bool-cases, Option-cases, text_discrete,
}
use mutsuki_distributed_host.Base.Outcome.{ok, Result-cases}
use mutsuki_distributed_host.Base.Map.{text_key}
use mutsuki_distributed_host.Base.Lines.{lines, is_blank}
use mutsuki_distributed_host.Base.Encoding.{from_utf8}
use mutsuki_distributed_host.Registry.Store.{DiskOutcome}
use mutsuki_distributed_host.Audit.Merkle.{digest_hex}
use mutsuki_distributed_host.Audit.Log.{
  AuditEvent, AuditCodec, TrustPlaneBudget, PersistentAuditLog, hash_event, hash_before,
  validate_next_event, push_line, read_line, read_lines, open_log,
}
use mutsuki_distributed_host.Audit.Chain.{IsChain}
use mutsuki_distributed_host.Audit.Binding.{Collision, accepted}

last-snoc : (events : List AuditEvent) (e : AuditEvent) → last? (events ++ e ∷ []) ≡ some e
last-snoc [] e = refl
last-snoc (x ∷ []) e = refl
last-snoc (x ∷ y ∷ xs) e = last-snoc (y ∷ xs) e

-- The last event, or one from before.
abbrev last_or : Option AuditEvent → List AuditEvent → Option AuditEvent
last_or previous [] = previous
last_or previous (e ∷ rest) = last_or (some e) rest

abbrev with_hash : Text → AuditEvent → AuditEvent
with_hash hash event = record event { event_hash = hash }

module _ (c : AuditCodec) where
  IsChain-snoc :
      (previous : Option AuditEvent) (events : List AuditEvent) (e : AuditEvent)
      → IsChain c previous events
      → validate_next_event c (last_or previous events) e ≡ ok tt
      → IsChain c previous (events ++ e ∷ [])
  IsChain-snoc previous [] e chain h = (h, tt)
  IsChain-snoc previous (x ∷ rest) e chain h = (chain.0, IsChain-snoc (some x) rest e chain.1 h)

  last_or-last : (events : List AuditEvent) → last_or none events ≡ last? events
  last_or-last [] = refl
  last_or-last (x ∷ rest) = last_or-some x rest
    where
      last_or-some :
          (x : AuditEvent) (rest : List AuditEvent) → last_or (some x) rest ≡ last? (x ∷ rest)
      last_or-some x [] = refl
      last_or-some x (y ∷ rest) = last_or-some y rest

  push_line-IsChain :
      (events : List AuditEvent) (text : Text) (read : List AuditEvent)
      → IsChain c none events
      → push_line c events text ≡ ok read
      → IsChain c none read
  unfolding push_line
  push_line-IsChain events text read chain h = elim (Bool-cases (is_blank text)) [
    | inl blank ↦ let e : events ≡ read = ground arith in subst (IsChain c none) e chain
    | inr full ↦ elim (Option-cases (c.read_event text)) [
      | inl none_read ↦ absurd (ground arith)
      | inr (event, found) ↦ elim (Result-cases (validate_next_event c (last? events) event)) [
        | inr (e, bad) ↦ absurd (ground arith)
        | inl (done, good) ↦
            let e : events ++ event ∷ [] ≡ read = ground arith in
            subst (IsChain c none) e
              (IsChain-snoc none events event chain (rw (last_or-last events) good))
      ]
    ]
  ]

  read_lines-IsChain :
      (events : List AuditEvent) (text : List Bytes) (read : List AuditEvent)
      → IsChain c none events
      → read_lines c events text ≡ ok read
      → IsChain c none read
  unfolding read_lines read_line
  read_lines-IsChain events [] read chain h =
      let e : events ≡ read = cc in subst (IsChain c none) e chain
  read_lines-IsChain events (line ∷ rest) read chain h = elim (Option-cases (from_utf8 line)) [
    | inl bad ↦ absurd (ground arith)
    | inr (text, good) ↦ elim (Result-cases (push_line c events text)) [
      | inr (e, bad) ↦ absurd (ground arith)
      | inl (before, pushed) ↦
          read_lines-IsChain before rest read (push_line-IsChain events text before chain pushed)
            (ground arith)
    ]
  ]

  -- What opens is a chain from the genesis hash.
  pub open_log-IsChain :
      (file : Bytes) (disk : List DiskOutcome) (budget : TrustPlaneBudget)
      (log : PersistentAuditLog)
      → open_log c file disk budget ≡ ok log
      → IsChain c none log.events
  unfolding open_log
  open_log-IsChain file disk budget log h = elim (Result-cases (read_lines c [] (lines file))) [
    | inr (e, bad) ↦ absurd (ground arith)
    | inl (events, good) ↦
        let e : events ≡ log.events = ground arith in
        subst (IsChain c none) e (read_lines-IsChain [] (lines file) events tt good)
  ]

  -- The fields of a valid event.
  validate-facts :
      (previous : Option AuditEvent) (e : AuditEvent)
      → validate_next_event c previous e ≡ ok tt
      → (bytes : Bytes) × (e.previous_hash ≡ hash_before c previous)
        × (c.event_json (record e { event_hash = [] }) ≡ some bytes)
        × (e.event_hash ≡ digest_hex c.sha bytes)
  unfolding validate_next_event hash_event
  validate-facts previous e h = elim (Option-cases (c.event_json (record e { event_hash = [] }))) [
    | inl bad ↦ absurd (ground arith)
    | inr (bytes, good) ↦ (
      bytes,
      accepted e.previous_hash (hash_before c previous) (ground arith),
      good,
      accepted e.event_hash (digest_hex c.sha bytes) (ground arith),
    )
  ]

  -- Two valid events with one hash.
  event-binds :
      (p q : Option AuditEvent) (x y : AuditEvent)
      → validate_next_event c p x ≡ ok tt
      → validate_next_event c q y ≡ ok tt
      → x.event_hash ≡ y.event_hash
      → ((hash_before c p ≡ hash_before c q) × (x ≡ y)) ⊎ Collision c.sha
  event-binds p q x y hx hy h =
      let (bx, px, jx, ex) = validate-facts p x hx in
      let (bz, py, jy, ey) = validate-facts q y hy in
      elim (text_discrete bx bz) [
        | no other ↦ inr (bx, bz, other, sym ex ∙ (h ∙ ey))
        | yes same ↦
            let bare : (record x { event_hash = [] }) ≡ record y { event_hash = [] } = cc (
              c.read-event_json (record x { event_hash = [] }) bx jx,
              c.read-event_json (record y { event_hash = [] }) bz jy,
              same,
            ) in
            let e : x ≡ y = ap (with_hash x.event_hash) bare ∙ ap (λ t. with_hash t y) h in
            inl (sym px ∙ (ap (λ u. u.previous_hash) e ∙ py), e)
      ]

  chain-binds :
      (p q : Option AuditEvent) (xs ys : List AuditEvent)
      → length xs ≡ length ys
      → IsChain c p xs
      → IsChain c q ys
      → hash_before c (last_or p xs) ≡ hash_before c (last_or q ys)
      → ((hash_before c p ≡ hash_before c q) × (xs ≡ ys)) ⊎ Collision c.sha
  unfolding hash_before
  chain-binds p q [] [] n hx hy h = inl (h, refl)
  chain-binds p q [] (y ∷ ys) n hx hy h = absurd (omega arith)
  chain-binds p q (x ∷ xs) [] n hx hy h = absurd (omega arith)
  chain-binds p q (x ∷ xs) (y ∷ ys) n hx hy h =
      elim (chain-binds (some x) (some y) xs ys (omega arith) hx.1 hy.1 h) [
        | inr collision ↦ inr collision
        | inl later ↦ elim (event-binds p q x y hx.0 hy.0 later.0) [
          | inr collision ↦ inr collision
          | inl here ↦ inl (here.0, cc (here.1, later.1))
        ]
      ]

  -- Two audit files that open, with the same number of events and the same hash of the last event,
  -- hold the same events, or they give two inputs with one digest.
  pub open_log-binds :
      (file file' : Bytes) (disk disk' : List DiskOutcome) (budget budget' : TrustPlaneBudget)
      (log log' : PersistentAuditLog)
      → open_log c file disk budget ≡ ok log
      → open_log c file' disk' budget' ≡ ok log'
      → length log.events ≡ length log'.events
      → hash_before c (last? log.events) ≡ hash_before c (last? log'.events)
      → (log.events ≡ log'.events) ⊎ Collision c.sha
  open_log-binds file file' disk disk' budget budget' log log' h h' n last =
      elim (chain-binds none none log.events log'.events n (open_log-IsChain file disk budget log h)
        (open_log-IsChain file' disk' budget' log' h')
        (rw (last_or-last log.events, last_or-last log'.events) last)) [
          | inl same ↦ inl same.1
          | inr collision ↦ inr collision
        ]
