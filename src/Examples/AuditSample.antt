-- ===== src/Examples/AuditSample.antt =====
-- Sample data for the audit log: the digest is a constant, and JSON knows two events, each with and
-- without its hash.
use mutsuki_distributed_host.Base.{
  ℕ, ◌≡◌, ◌≢◌, refl, false, [], ◌∷◌, none, some, Text, Bytes, All, last?, arith, text_discrete,
  ℕ_discrete,
}
use mutsuki_distributed_host.Base.Map.{Key, Map, get, text_key, All-get}
use mutsuki_distributed_host.Base.Encoding.{from_utf8, utf8_from, continuation}
use mutsuki_distributed_host.Audit.Log.{
  AuditEvent, AuditCodec, TrustPlaneBudget, lease, result_commit,
}
use mutsuki_distributed_host.Examples.Sample.{sha, copies_of, task_name}

abbrev pub audit_budget : TrustPlaneBudget
audit_budget = record {
  max_signatures_per_tick = 1;
  max_verifications_per_tick = 1;
  max_replays_per_tick = 1;
  max_audit_events_per_segment = 2;
  max_audit_metadata_entries = 1;
  max_audit_bytes_per_tick = 100;
  max_reputation_updates_per_tick = 1;
  max_attestations_per_tick = 1;
  max_compute_units_per_tick = 1;
  max_network_bytes_per_tick = 1;
  max_storage_bytes_per_tick = 1;
}

-- The hexadecimal text of the constant digest.
abbrev pub zero_hash : Text
zero_hash = copies_of 48 64

abbrev pub first_event : Text → AuditEvent
first_event hash = record {
  sequence = 1;
  tick = 3;
  kind = lease;
  global_task_id = some task_name;
  attempt = some 1;
  node_id = none;
  metadata = [];
  previous_hash = zero_hash;
  event_hash = hash;
}

abbrev pub second_event : Text → AuditEvent
second_event hash = record {
  sequence = 2;
  tick = 4;
  kind = result_commit;
  global_task_id = some task_name;
  attempt = some 1;
  node_id = none;
  metadata = [];
  previous_hash = zero_hash;
  event_hash = hash;
}

unfoldable pub event_discrete : Discrete AuditEvent
event_discrete = hlevel (ℕ_discrete, text_discrete)

instance abbrev pub event_key : Key AuditEvent
event_key = record { discrete = event_discrete; below = λ a b. false }

abbrev pub line_of : ℕ → Bytes
line_of n = n ∷ 125 ∷ []

abbrev pub event_lines : Map AuditEvent Bytes
event_lines =
    (first_event [], line_of 49)
    ∷ (first_event zero_hash, line_of 50)
    ∷ (second_event [], line_of 51)
    ∷ (second_event zero_hash, line_of 52)
    ∷ []

abbrev pub line_events : Map Bytes AuditEvent
line_events =
    (line_of 49, first_event [])
    ∷ (line_of 50, first_event zero_hash)
    ∷ (line_of 51, second_event [])
    ∷ (line_of 52, second_event zero_hash)
    ∷ []

abbrev pub IsLine : AuditEvent × Bytes → Type 0
IsLine e =
    (get e.1 line_events ≡ some e.0)
    × All (λ b. b ≢ 10) e.1
    × (last? e.1 ≡ some 125)
    × (from_utf8 e.1 ≡ some e.1)

line_of-All : (n : ℕ) → n ≢ 10 → All (λ b. b ≢ 10) (line_of n)
line_of-All n h = (h, (ground arith, tt))

pub event_lines-IsLine : All IsLine event_lines
unfolding get from_utf8 utf8_from continuation text_discrete ℕ_discrete
event_lines-IsLine = (
  (refl, line_of-All 49 (ground arith), refl, refl),
  (
    (refl, line_of-All 50 (ground arith), refl, refl),
    (
      (refl, line_of-All 51 (ground arith), refl, refl),
      ((refl, line_of-All 52 (ground arith), refl, refl), tt),
    ),
  ),
)

abbrev pub audit_codec : AuditCodec
audit_codec = record {
  sha = sha;
  event_json = λ e. get e event_lines;
  read_event = λ bytes. get bytes line_events;
  read-event_json = λ e bytes h. (All-get IsLine e event_lines event_lines-IsLine h).0;
  event_json-one_line = λ e bytes h. (All-get IsLine e event_lines event_lines-IsLine h).1;
  event_json-object = λ e bytes h. (All-get IsLine e event_lines event_lines-IsLine h).2;
  event_json-utf8 = λ e bytes h. (All-get IsLine e event_lines event_lines-IsLine h).3;
}
