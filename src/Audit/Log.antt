-- ===== src/Audit/Log.antt =====
-- The audit log of trust_audit.rs: its events, the hash chain through them, and the operations of
-- `PersistentAuditLog`.
--
-- The digest of sha2 and the JSON of serde_json are parameters. A failing disk is a script of the
-- outcomes of the next writes; a write past its end succeeds.
use mutsuki_distributed_host.Base.{
  ℕ, ◌≡◌, ◌≢◌, Bool, not, ◌&&◌, ◌||◌, List, [], ◌∷◌, ◌++◌, Option, none, some, Text, ◌+◌, ◌-◌,
  Bytes, map, ltb, leb, ◌==◌, if◌then◌else◌, length, any, filter, take, drop, last?, sat_add,
  sat_mul, All,
}
use mutsuki_distributed_host.Base.Outcome.{
  Result, ok, err, ◌>>=◌, ◌>>◌, refuse_if, or_fail, invalid_config, capacity_exceeded,
  worker_rejected, corrupt, storage, task_unknown,
}
use mutsuki_distributed_host.Base.Map.{Map, ◌is◌, ◌gives◌, text_key, ℕ_key}
use mutsuki_distributed_host.Base.Encoding.{from_utf8}
use mutsuki_distributed_host.Base.Lines.{lines, is_blank}
use mutsuki_distributed_host.Contracts.{GlobalTaskId, NodeId}
use mutsuki_distributed_host.Registry.Frame.{Sha256}
use mutsuki_distributed_host.Registry.Store.{
  DiskOutcome, next_outcome, later_outcomes, append_bytes,
}
use mutsuki_distributed_host.Audit.Merkle.{AuditSegment, digest_hex, merkle_root}

pub data AuditEventKind : Type 0 where
  membership permission assignment lease result_commit : AuditEventKind
  verification revocation manual_decision resource_access : AuditEventKind

pub record AuditEvent : Type 0 where
  pub sequence : ℕ
  pub tick : ℕ
  pub kind : AuditEventKind
  pub global_task_id : Option GlobalTaskId
  pub attempt : Option ℕ
  pub node_id : Option NodeId
  pub metadata : Map Text Text
  pub previous_hash : Text
  pub event_hash : Text

pub record TrustPlaneBudget : Type 0 where
  pub max_signatures_per_tick : ℕ
  pub max_verifications_per_tick : ℕ
  pub max_replays_per_tick : ℕ
  pub max_audit_events_per_segment : ℕ
  pub max_audit_metadata_entries : ℕ
  pub max_audit_bytes_per_tick : ℕ
  pub max_reputation_updates_per_tick : ℕ
  pub max_attestations_per_tick : ℕ
  pub max_compute_units_per_tick : ℕ
  pub max_network_bytes_per_tick : ℕ
  pub max_storage_bytes_per_tick : ℕ

-- serde_json and sha2, as the log uses them: an event is written as one object on one line of
-- UTF-8 and read back.
pub record AuditCodec : Type 0 where
  pub sha : Sha256
  pub event_json : AuditEvent → Option Bytes
  pub read_event : Bytes → Option AuditEvent
  pub read-event_json :
      (e : AuditEvent) (bytes : Bytes) → event_json e ≡ some bytes → read_event bytes ≡ some e
  pub event_json-one_line :
      (e : AuditEvent) (bytes : Bytes) → event_json e ≡ some bytes → All (λ b. b ≢ 10) bytes
  pub event_json-object :
      (e : AuditEvent) (bytes : Bytes) → event_json e ≡ some bytes → last? bytes ≡ some 125
  pub event_json-utf8 :
      (e : AuditEvent) (bytes : Bytes) → event_json e ≡ some bytes → from_utf8 bytes ≡ some bytes

pub record PersistentAuditLog : Type 0 where
  pub file : Bytes
  pub disk : List DiskOutcome
  pub budget : TrustPlaneBudget
  pub events : List AuditEvent
  pub bytes_this_tick : ℕ

abbrev pub bounded_event_capacity : TrustPlaneBudget → ℕ
bounded_event_capacity budget = sat_mul budget.max_audit_events_per_segment 64

-- `FORBIDDEN`, each word with the underscore that may stand before it: secret, token, password,
-- credential, input and output.
unfoldable pub forbidden : List Text
forbidden =
    (115 ∷ 101 ∷ 99 ∷ 114 ∷ 101 ∷ 116 ∷ [])
    ∷ (116 ∷ 111 ∷ 107 ∷ 101 ∷ 110 ∷ [])
    ∷ (112 ∷ 97 ∷ 115 ∷ 115 ∷ 119 ∷ 111 ∷ 114 ∷ 100 ∷ [])
    ∷ (99 ∷ 114 ∷ 101 ∷ 100 ∷ 101 ∷ 110 ∷ 116 ∷ 105 ∷ 97 ∷ 108 ∷ [])
    ∷ (105 ∷ 110 ∷ 112 ∷ 117 ∷ 116 ∷ [])
    ∷ (111 ∷ 117 ∷ 116 ∷ 112 ∷ 117 ∷ 116 ∷ [])
    ∷ []

unfoldable pub to_ascii_lowercase : Text → Text
to_ascii_lowercase = map (λ b. if leb 65 b && leb b 90 then b + 32 else b)

unfoldable pub ends_with : Text → Text → Bool
ends_with text suffix =
    leb (length suffix) (length text) && drop (length text - length suffix) text is suffix

unfoldable pub is_refused_entry : Text × Text → Bool
unfolding forbidden to_ascii_lowercase ends_with
is_refused_entry (key, value) =
    let normalized = to_ascii_lowercase key in
    ltb 64 (length key)
    || ltb 256 (length value)
    || any (λ word. normalized is word || ends_with normalized (95 ∷ word)) forbidden

unfoldable pub validate_metadata : Map Text Text → ℕ → Result (Unit {0})
unfolding is_refused_entry
validate_metadata metadata max_entries =
    refuse_if (ltb max_entries (length metadata) || any is_refused_entry metadata) worker_rejected

-- `mutsuki-audit-genesis-v1`.
abbrev genesis : Bytes
genesis =
    109 ∷ 117 ∷ 116 ∷ 115 ∷ 117 ∷ 107 ∷ 105 ∷ 45 ∷ 97 ∷ 117 ∷ 100 ∷ 105 ∷ 116 ∷ 45 ∷ 103 ∷ 101 ∷ 110
    ∷ 101 ∷ 115 ∷ 105 ∷ 115 ∷ 45 ∷ 118 ∷ 49 ∷ []

-- The sequence number and the hash that the event after another one carries.
abbrev pub next_sequence : Option AuditEvent → ℕ
next_sequence none = 1
next_sequence (some event) = sat_add event.sequence 1

module _ (c : AuditCodec) where
  unfoldable pub hash_event : AuditEvent → Result Text
  hash_event event = do
    bytes ← or_fail (c.event_json (record event { event_hash = [] })) corrupt
    ok (digest_hex c.sha bytes)

  unfoldable pub hash_before : Option AuditEvent → Text
  hash_before none = digest_hex c.sha genesis
  hash_before (some event) = event.event_hash

  unfoldable pub validate_next_event : Option AuditEvent → AuditEvent → Result (Unit {0})
  unfolding hash_event hash_before
  validate_next_event previous event =
      if not (event.sequence == next_sequence previous)
        || not (event.previous_hash is hash_before previous)
      then err corrupt
      else hash_event event >>= λ hash. refuse_if (not (event.event_hash is hash)) corrupt

  -- The loop of `open` over the lines.
  unfoldable pub push_line : List AuditEvent → Text → Result (List AuditEvent)
  unfolding validate_next_event
  push_line events text =
      let pushed = or_fail (c.read_event text) corrupt >>= λ event.
      validate_next_event (last? events) event >> ok (events ++ event ∷ []) in
      if is_blank text then ok events else pushed

  unfoldable pub read_line : List AuditEvent → Bytes → Result (List AuditEvent)
  unfolding push_line
  read_line events line = do text ← or_fail (from_utf8 line) storage; push_line events text

  unfoldable pub read_lines : List AuditEvent → List Bytes → Result (List AuditEvent)
  unfolding read_line
  read_lines events [] = ok events
  read_lines events (line ∷ rest) = read_line events line >>= λ read. read_lines read rest

  -- `open`: a file that does not exist reads as an empty one.
  unfoldable pub open_log : Bytes → List DiskOutcome → TrustPlaneBudget → Result PersistentAuditLog
  unfolding read_lines
  open_log file disk budget = do
    refuse_if
        (budget.max_audit_events_per_segment == 0
          || budget.max_audit_metadata_entries == 0
          || budget.max_audit_bytes_per_tick == 0)
        invalid_config
    events ← read_lines [] (lines file)
    refuse_if (ltb (bounded_event_capacity budget) (length events)) capacity_exceeded
    ok (record { file = file; disk = disk; budget = budget; events = events; bytes_this_tick = 0 })

  abbrev pub unsigned_event :
      List AuditEvent
      → ℕ
      → AuditEventKind
      → Option GlobalTaskId
      → Option ℕ
      → Option NodeId
      → Map Text Text
      → AuditEvent
  unsigned_event events tick kind task attempt node metadata = record {
    sequence = next_sequence (last? events);
    tick = tick;
    kind = kind;
    global_task_id = task;
    attempt = attempt;
    node_id = node;
    metadata = metadata;
    previous_hash = hash_before (last? events);
    event_hash = [];
  }

  -- `append` up to its write: the guards, and the event with its line.
  unfoldable pub prepare_event : PersistentAuditLog → AuditEvent → Result (AuditEvent × Bytes)
  unfolding validate_metadata hash_event
  prepare_event log event = do
    validate_metadata event.metadata log.budget.max_audit_metadata_entries
    refuse_if (leb (bounded_event_capacity log.budget) (length log.events)) capacity_exceeded
    hash ← hash_event event
    let signed = record event { event_hash = hash }
    bytes ← or_fail (c.event_json signed) corrupt
    let encoded = bytes ++ 10 ∷ []
    refuse_if
        (ltb log.budget.max_audit_bytes_per_tick (sat_add log.bytes_this_tick (length encoded)))
        capacity_exceeded
    ok (signed, encoded)

unfoldable pub note_event :
    AuditEvent
    → Bytes
    → PersistentAuditLog
    → Result (Unit {0})
    → PersistentAuditLog × Result AuditEvent
note_event event encoded log (err e) = (log, err e)
note_event event encoded log (ok done) = (
  record log {
    bytes_this_tick = sat_add log.bytes_this_tick (length encoded);
    events = log.events ++ event ∷ [];
  },
  ok event,
)

-- The write of a line, which may leave a part of it behind.
unfoldable pub write_event :
    PersistentAuditLog → Result (AuditEvent × Bytes) → PersistentAuditLog × Result AuditEvent
unfolding note_event append_bytes
write_event log (err e) = (log, err e)
write_event log (ok (event, encoded)) =
    let appended = append_bytes (next_outcome log.disk) log.file encoded in
    note_event event encoded (record log { file = appended.0; disk = later_outcomes log.disk })
      appended.1

module _ (c : AuditCodec) where
  unfoldable pub append :
      ℕ
      → AuditEventKind
      → Option GlobalTaskId
      → Option ℕ
      → Option NodeId
      → Map Text Text
      → PersistentAuditLog
      → PersistentAuditLog × Result AuditEvent
  unfolding prepare_event write_event
  append tick kind task attempt node metadata log =
      write_event log
        (prepare_event c log (unsigned_event c log.events tick kind task attempt node metadata))

unfoldable pub next_tick : PersistentAuditLog → PersistentAuditLog
next_tick log = record log { bytes_this_tick = 0 }

abbrev pub first? {ℓ} : {A : Type ℓ} → List A → Option A
first? [] = none
first? (x ∷ xs) = some x

unfoldable pub segment_of :
    ℕ → Option Text → List AuditEvent → Option Text → Option (Result AuditSegment)
segment_of id previous events none = none
segment_of id previous events (some root) = some (do
  first ← or_fail (first? events) task_unknown
  last ← or_fail (last? events) task_unknown
  ok (record {
    segment_id = id;
    first_sequence = first.sequence;
    last_sequence = last.sequence;
    previous_segment_root = previous;
    merkle_root = root;
    leaf_hashes = map (λ event. event.event_hash) events;
  }))

-- `none` stands for a Merkle loop out of fuel, as in the tree.
unfoldable pub build_segment :
    Sha256 → ℕ → ℕ → Option Text → PersistentAuditLog → Option (Result AuditSegment)
unfolding segment_of
build_segment sha id start previous log =
    let chosen =
      take log.budget.max_audit_events_per_segment
        (filter (λ event. leb start event.sequence) log.events) in
    segment_of id previous chosen (merkle_root sha (map (λ event. event.event_hash) chosen))

unfoldable pub verify_segment_consistency : AuditSegment → AuditSegment → Bool
verify_segment_consistency previous current =
    current.segment_id == sat_add previous.segment_id 1
    && current.first_sequence == sat_add previous.last_sequence 1
    && current.previous_segment_root gives previous.merkle_root

-- `trace_task`, `trace_attempt` and `trace_node`.
unfoldable pub trace_task : GlobalTaskId → PersistentAuditLog → List AuditEvent
trace_task task log = filter (λ event. event.global_task_id gives task) log.events

unfoldable pub trace_attempt : GlobalTaskId → ℕ → PersistentAuditLog → List AuditEvent
trace_attempt task attempt log =
    filter (λ event. event.global_task_id gives task && event.attempt gives attempt) log.events

unfoldable pub trace_node : NodeId → PersistentAuditLog → List AuditEvent
trace_node node log = filter (λ event. event.node_id gives node) log.events

unfoldable pub event_count : PersistentAuditLog → ℕ
event_count log = length log.events
