-- ===== src/Audit/Segment.antt =====
-- The segments of an audit log of trust_audit.rs: each has proofs for its events, and consecutive
-- segments fit together.
use mutsuki_distributed_host.Base.{
  ℕ, zero, suc, ◌+◌, ◌≤◌, ◌<◌, ◌≡◌, refl, ap, subst, sym, ◌∙◌, inl, inr, true, false, List, [], ◌∷◌,
  Option, none, some, Text, Bytes, map, ltb, leb, length, filter, take, last?, sat_add, u64_max,
  arith, Bool-cases, Option-cases,
}
use mutsuki_distributed_host.Base.Outcome.{ok, Result-cases}
use mutsuki_distributed_host.Base.Map.{text_key, is_self}
use mutsuki_distributed_host.Base.Lines.{lines}
use mutsuki_distributed_host.Registry.Frame.{Sha256}
use mutsuki_distributed_host.Registry.Store.{DiskOutcome}
use mutsuki_distributed_host.Audit.Merkle.{AuditSegment, merkle_root}
use mutsuki_distributed_host.Audit.Inclusion.{IsProved, inclusion_proof-verifies}
use mutsuki_distributed_host.Audit.Log.{
  AuditEvent, AuditCodec, TrustPlaneBudget, PersistentAuditLog, bounded_event_capacity,
  next_sequence, validate_next_event, read_lines, open_log, first?, segment_of, build_segment,
  verify_segment_consistency,
}
use mutsuki_distributed_host.Audit.Chain.{IsChain}
use mutsuki_distributed_host.Audit.Tamper.{open_log-IsChain}

-- Consecutive sequence numbers.
abbrev IsNumbered : ℕ → List AuditEvent → Type 0
IsNumbered n [] = Unit
IsNumbered n (event ∷ rest) = (event.sequence ≡ n) × IsNumbered (suc n) rest

-- The events from a number on begin with it.
filter-first :
    (start n : ℕ) (events : List AuditEvent) (event : AuditEvent)
    → n ≤ start
    → IsNumbered n events
    → first? (filter (λ e. leb start e.sequence) events) ≡ some event
    → event.sequence ≡ start
filter-first start n [] event h numbered found = absurd cc
filter-first start n (e ∷ rest) event h numbered found = elim (Bool-cases (leb start e.sequence)) [
  | inl here ↦
      let same : e ≡ event = ground arith in
      ap (λ u. u.sequence) (sym same) ∙ ground (arith, numbered.0)
  | inr later ↦
      filter-first start (suc n) rest event (ground (arith, numbered.0)) numbered.1 (ground arith)
]

first-take :
    (n : ℕ) (events : List AuditEvent) (event : AuditEvent)
    → first? (take n events) ≡ some event
    → first? events ≡ some event
first-take zero events event h = absurd cc
first-take (suc n) [] event h = absurd cc
first-take (suc n) (e ∷ rest) event h = h

module _ (c : AuditCodec) where
  validate-sequence :
      (previous : Option AuditEvent) (e : AuditEvent)
      → validate_next_event c previous e ≡ ok tt
      → e.sequence ≡ next_sequence previous
  unfolding validate_next_event
  validate-sequence previous e h = ground arith

  chain-IsNumbered :
      (previous : Option AuditEvent) (events : List AuditEvent) (n : ℕ)
      → next_sequence previous ≡ n
      → n + length events ≤ suc u64_max
      → IsChain c previous events
      → IsNumbered n events
  chain-IsNumbered previous [] n h bound chain = tt
  chain-IsNumbered previous (e ∷ []) n h bound chain =
      (validate-sequence previous e chain.0 ∙ h, tt)
  chain-IsNumbered previous (e ∷ next ∷ rest) n h bound chain =
      let number : e.sequence ≡ n = validate-sequence previous e chain.0 ∙ h in
      (
        number,
        chain-IsNumbered (some e) (next ∷ rest) (suc n) (omega (arith, number)) (omega arith)
            chain.1,
      )

abbrev segment_from :
    ℕ → Option Text → List AuditEvent → Text → AuditEvent → AuditEvent → AuditSegment
segment_from id previous chosen root first last = record {
  segment_id = id;
  first_sequence = first.sequence;
  last_sequence = last.sequence;
  previous_segment_root = previous;
  merkle_root = root;
  leaf_hashes = map (λ event. event.event_hash) chosen;
}

abbrev chosen_from : ℕ → PersistentAuditLog → List AuditEvent
chosen_from start log =
    take log.budget.max_audit_events_per_segment
      (filter (λ event. leb start event.sequence) log.events)

module _ (sha : Sha256) where
  -- What a segment that was built says of the events it was built from.
  abbrev IsBuilt : ℕ → Option Text → List AuditEvent → AuditSegment → Type 0
  IsBuilt id previous chosen segment =
      (first : AuditEvent) × (first? chosen ≡ some first)
      × (segment.segment_id ≡ id)
      × (segment.first_sequence ≡ first.sequence)
      × (segment.previous_segment_root ≡ previous)
      × (segment.leaf_hashes ≡ map (λ event. event.event_hash) chosen)
      × (merkle_root sha segment.leaf_hashes ≡ some segment.merkle_root)

  segment_of-IsBuilt :
      (id : ℕ) (previous : Option Text) (chosen : List AuditEvent) (root : Option Text)
      (segment : AuditSegment)
      → merkle_root sha (map (λ event. event.event_hash) chosen) ≡ root
      → segment_of id previous chosen root ≡ some (ok segment)
      → IsBuilt id previous chosen segment
  unfolding segment_of
  segment_of-IsBuilt id previous chosen none segment e h = absurd cc
  segment_of-IsBuilt id previous chosen (some root) segment e h =
      elim (Option-cases (first? chosen)) [
        | inl empty ↦ absurd (ground arith)
        | inr (first, hf) ↦ elim (Option-cases (last? chosen)) [
          | inl empty ↦ absurd (ground arith)
          | inr (last, hl) ↦
              let made : segment_from id previous chosen root first last ≡ segment = ground arith in
              subst (IsBuilt id previous chosen) made (first, hf, refl, refl, refl, refl, e)
        ]
      ]

  build_segment-IsBuilt :
      (id start : ℕ) (previous : Option Text) (log : PersistentAuditLog) (segment : AuditSegment)
      → build_segment sha id start previous log ≡ some (ok segment)
      → IsBuilt id previous (chosen_from start log) segment
  unfolding build_segment
  build_segment-IsBuilt id start previous log segment h =
      segment_of-IsBuilt id previous (chosen_from start log)
        (merkle_root sha (map (λ event. event.event_hash) (chosen_from start log))) segment refl h

  -- Every leaf of a segment that was built gets, by its index, a proof that is accepted and carries
  -- the root of the segment.
  pub build_segment-proves :
      (id start i : ℕ) (previous : Option Text) (log : PersistentAuditLog) (segment : AuditSegment)
      → build_segment sha id start previous log ≡ some (ok segment)
      → i < length segment.leaf_hashes
      → IsProved sha segment i
  build_segment-proves id start i previous log segment h inside =
      let (first, hf, hid, hs, hp, hl, root) =
        build_segment-IsBuilt id start previous log segment h in
      inclusion_proof-verifies sha segment i root inside

module _ (c : AuditCodec) where
  open_log-fits :
      (file : Bytes) (disk : List DiskOutcome) (budget : TrustPlaneBudget)
      (log : PersistentAuditLog)
      → open_log c file disk budget ≡ ok log
      → length log.events ≤ u64_max
  unfolding open_log
  open_log-fits file disk budget log h = elim (Result-cases (read_lines c [] (lines file))) [
    | inr (e, bad) ↦ absurd (ground arith)
    | inl (events, good) ↦
        let e : events ≡ log.events = ground arith in
        let few : ltb (bounded_event_capacity budget) (length events) ≡ false = ground arith in
        let bound : length events ≤ bounded_event_capacity budget = ground (arith, few) in
        omega (arith, ap length e, bound)
  ]

  -- The events of a log that opened are numbered from 1.
  open_log-IsNumbered :
      (file : Bytes) (disk : List DiskOutcome) (budget : TrustPlaneBudget)
      (log : PersistentAuditLog)
      → open_log c file disk budget ≡ ok log
      → IsNumbered 1 log.events
  open_log-IsNumbered file disk budget log h =
      let fits : length log.events ≤ u64_max = open_log-fits file disk budget log h in
      chain-IsNumbered c none log.events 1 refl (omega arith)
        (open_log-IsChain c file disk budget log h)

  -- Over a log that opened, the segment built from the number after the last one of another, with
  -- the next id and the root of the other, is consistent with it.
  pub build_segment-consistent :
      (file : Bytes) (disk : List DiskOutcome) (budget : TrustPlaneBudget)
      (log : PersistentAuditLog) (one two : AuditSegment)
      → open_log c file disk budget ≡ ok log
      → build_segment c.sha
          (sat_add one.segment_id 1)
          (sat_add one.last_sequence 1)
          (some one.merkle_root)
          log
        ≡ some (ok two)
      → verify_segment_consistency one two ≡ true
  unfolding verify_segment_consistency
  build_segment-consistent file disk budget log one two opened built =
      let (first, hf, hid, hs, hp, hl, root) =
        build_segment-IsBuilt c.sha (sat_add one.segment_id 1) (sat_add one.last_sequence 1)
          (some one.merkle_root) log two built in
      let number : first.sequence ≡ sat_add one.last_sequence 1 =
        filter-first (sat_add one.last_sequence 1) 1 log.events first (omega arith)
          (open_log-IsNumbered file disk budget log opened)
          (first-take log.budget.max_audit_events_per_segment _ first hf) in
      rw (hp, is_self one.merkle_root) (ground (arith, hid, hs, number))
