-- ===== src/Audit/Reopen.antt =====
-- An audit log of trust_audit.rs over any calls and restarts.
use mutsuki_distributed_host.Base.{
  ℕ, ◌≤◌, ◌≡◌, ◌⊎◌, refl, inl, inr, Bool, false, ◌||◌, List, [], ◌∷◌, Option, Text, Bytes, ltb,
  ◌==◌, length, last?, arith, All, length-append,
}
use mutsuki_distributed_host.Base.Outcome.{Result, ok, err}
use mutsuki_distributed_host.Base.Map.{Map}
use mutsuki_distributed_host.Base.Lines.{no_line}
use mutsuki_distributed_host.Contracts.{GlobalTaskId, NodeId}
use mutsuki_distributed_host.Registry.Store.{
  DiskOutcome, written, rolled_back, torn, next_outcome, later_outcomes, append_bytes,
}
use mutsuki_distributed_host.Audit.Log.{
  AuditEvent, AuditEventKind, AuditCodec, TrustPlaneBudget, PersistentAuditLog,
  bounded_event_capacity, next_sequence, hash_before, validate_next_event, read_lines, open_log,
  unsigned_event, prepare_event, note_event, write_event, append, next_tick,
}
use mutsuki_distributed_host.Audit.Chain.{
  IsPrepared, prepare_event-ok, validate-signed, IsStored, stored_line,
}

-- Writes that leave nothing of a refused line behind.
abbrev pub IsWhole : DiskOutcome → Type 0
IsWhole written = Unit
IsWhole rolled_back = Unit
IsWhole (torn n) = ⊥

abbrev pub is_unset : TrustPlaneBudget → Bool
is_unset budget =
    budget.max_audit_events_per_segment == 0
    || budget.max_audit_metadata_entries == 0
    || budget.max_audit_bytes_per_tick == 0

-- A caller of the log: an event with its tick, kind, task, attempt, node and metadata; the next
-- tick; or a restart, from which the log goes on if it opens.
pub data AuditCall : Type 0 where
  append_call :
      ℕ
      → AuditEventKind
      → Option GlobalTaskId
      → Option ℕ
      → Option NodeId
      → Map Text Text
      → AuditCall
  tick_call restart : AuditCall

abbrev pub empty_log : List DiskOutcome → TrustPlaneBudget → PersistentAuditLog
empty_log disk budget = record {
  file = [];
  disk = disk;
  budget = budget;
  events = [];
  bytes_this_tick = 0;
}

abbrev after_restart : PersistentAuditLog → Result PersistentAuditLog → PersistentAuditLog
after_restart log (err e) = log
after_restart log (ok opened) = opened

module _ (c : AuditCodec) where
  unfoldable pub serve : AuditCall → PersistentAuditLog → PersistentAuditLog
  unfolding append next_tick open_log
  serve (append_call tick kind task attempt node metadata) log =
      (append c tick kind task attempt node metadata log).0
  serve tick_call log = next_tick log
  serve restart log = after_restart log (open_log c log.file log.disk log.budget)

  unfoldable pub serve_all : List AuditCall → PersistentAuditLog → PersistentAuditLog
  serve_all [] log = log
  serve_all (call ∷ calls) log = serve_all calls (serve call log)

  -- What holds of a log between calls: its file is read back, its bounds are kept, and no write to
  -- come tears a line.
  abbrev pub IsKept : PersistentAuditLog → Type 0
  IsKept log =
      IsStored c log
      × (length log.events ≤ bounded_event_capacity log.budget)
      × (log.bytes_this_tick ≤ log.budget.max_audit_bytes_per_tick)
      × (is_unset log.budget ≡ false)
      × All IsWhole log.disk

  open_log-kept :
      (log : PersistentAuditLog)
      → IsKept log
      → open_log c log.file log.disk log.budget ≡ ok (record log { bytes_this_tick = 0 })
  unfolding open_log
  open_log-kept log ((read, ended), fits, bound, set, whole) =
      let within : ltb (bounded_event_capacity log.budget) (length log.events) ≡ false =
        ground (arith, fits) in
      rw (set, read, within) refl

  later-IsWhole : (disk : List DiskOutcome) → All IsWhole disk → All IsWhole (later_outcomes disk)
  later-IsWhole [] a = tt
  later-IsWhole (o ∷ rest) a = a.1

  next-IsWhole :
      (disk : List DiskOutcome)
      → All IsWhole disk
      → (next_outcome disk ≡ written) ⊎ (next_outcome disk ≡ rolled_back)
  next-IsWhole [] a = inl refl
  next-IsWhole (written ∷ rest) a = inl refl
  next-IsWhole (rolled_back ∷ rest) a = inr refl
  next-IsWhole (torn n ∷ rest) a = absurd a.0

  write-IsKept :
      (log : PersistentAuditLog) (event signed : AuditEvent) (encoded : Bytes)
      → IsKept log
      → event.sequence ≡ next_sequence (last? log.events)
      → event.previous_hash ≡ hash_before c (last? log.events)
      → IsPrepared c log event signed encoded
      → IsKept (write_event log (ok (signed, encoded))).0
  unfolding write_event append_bytes note_event
  write-IsKept log event signed encoded kept hs hp (hash, bytes, he, made, hj, line, room, bound) =
      let ((read, ended), fits, before, set, whole) = kept in
      let valid : validate_next_event c (last? log.events) signed ≡ ok tt =
        rw made (validate-signed c (last? log.events) event hash hs hp he) in
      let stored = stored_line c log.file bytes log.events signed read ended hj valid in
      let later = later-IsWhole log.disk whole in
      elim (next-IsWhole log.disk whole) [
        | inr e ↦ rw (e, append_bytes) ((read, ended), fits, before, set, later)
        | inl e ↦
            rw (e, append_bytes, line)
              (
                (stored.0, inr stored.1),
                omega (arith, length-append log.events (signed ∷ [])),
                rw (← line) bound,
                set,
                later,
              )
      ]

  prepared-IsKept :
      (log : PersistentAuditLog) (event : AuditEvent) (prepared : Result (AuditEvent × Bytes))
      → IsKept log
      → event.sequence ≡ next_sequence (last? log.events)
      → event.previous_hash ≡ hash_before c (last? log.events)
      → prepare_event c log event ≡ prepared
      → IsKept (write_event log prepared).0
  unfolding write_event
  prepared-IsKept log event (err e) kept hs hp h = kept
  prepared-IsKept log event (ok (signed, encoded)) kept hs hp h =
      write-IsKept log event signed encoded kept hs hp
        (prepare_event-ok c log event signed encoded h)

  serve-IsKept :
      (call : AuditCall) (log : PersistentAuditLog) → IsKept log → IsKept (serve call log)
  unfolding serve append next_tick
  serve-IsKept (append_call tick kind task attempt node metadata) log kept =
      let event = unsigned_event c log.events tick kind task attempt node metadata in
      prepared-IsKept log event (prepare_event c log event) kept refl refl refl
  serve-IsKept tick_call log (stored, fits, before, set, whole) =
      (stored, fits, omega arith, set, whole)
  serve-IsKept restart log kept =
      let (stored, fits, before, set, whole) = kept in
      rw (open_log-kept log kept) (stored, fits, omega arith, set, whole)

  serve_all-IsKept :
      (calls : List AuditCall) (log : PersistentAuditLog)
      → IsKept log
      → IsKept (serve_all calls log)
  unfolding serve_all
  serve_all-IsKept [] log kept = kept
  serve_all-IsKept (call ∷ calls) log kept =
      serve_all-IsKept calls (serve call log) (serve-IsKept call log kept)

  empty_log-IsKept :
      (disk : List DiskOutcome) (budget : TrustPlaneBudget)
      → All IsWhole disk
      → is_unset budget ≡ false
      → IsKept (empty_log disk budget)
  unfolding read_lines
  empty_log-IsKept disk budget whole set =
      ((rw no_line refl, inl refl), omega arith, omega arith, set, whole)

  -- From an empty file and a budget that `open` accepts, after any appends, ticks and restarts of
  -- which no write leaves a part of a line behind, opening the file gives the log in memory again,
  -- at the start of a tick; the log holds no more events than its capacity, and the lines of the
  -- tick no more bytes than the budget.
  pub serve_all-opens :
      (calls : List AuditCall) (disk : List DiskOutcome) (budget : TrustPlaneBudget)
      → All IsWhole disk
      → is_unset budget ≡ false
      → let log = serve_all calls (empty_log disk budget) in
        (open_log c log.file log.disk log.budget ≡ ok (record log { bytes_this_tick = 0 }))
        × (length log.events ≤ bounded_event_capacity log.budget)
        × (log.bytes_this_tick ≤ log.budget.max_audit_bytes_per_tick)
  serve_all-opens calls disk budget whole set =
      let log : PersistentAuditLog = serve_all calls (empty_log disk budget) in
      let kept : IsKept log =
        serve_all-IsKept calls (empty_log disk budget) (empty_log-IsKept disk budget whole set) in
      (open_log-kept log kept, kept.1, kept.2)
