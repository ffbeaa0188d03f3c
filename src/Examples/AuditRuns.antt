-- ===== src/Examples/AuditRuns.antt =====
-- Runs of the audit log of trust_audit.rs.
use mutsuki_distributed_host.Base.{
  ◌≤◌, ◌≡◌, ◌⊎◌, refl, true, List, [], ◌∷◌, ◌++◌, some, none, arith, length, text_discrete,
  ℕ_discrete, inr, Text,
}
use mutsuki_distributed_host.Base.Outcome.{ok, err, corrupt, storage}
use mutsuki_distributed_host.Base.Map.{get}
use mutsuki_distributed_host.Base.Lines.{lines_from, is_blank}
use mutsuki_distributed_host.Base.Encoding.{to_hex, from_utf8}
use mutsuki_distributed_host.Registry.Store.{torn, written, rolled_back}
use mutsuki_distributed_host.Audit.Merkle.{
  AuditSegment, AuditInclusionProof, digest_hex, hash_pair, next_merkle_level, merkle_root, climb,
  climb_all, verify_inclusion,
}
use mutsuki_distributed_host.Audit.Inclusion.{IsProved}
use mutsuki_distributed_host.Audit.Binding.{
  Collision, verify_inclusion-binds, merkle_root-repeated, merkle_root-total,
}
use mutsuki_distributed_host.Audit.Log.{
  PersistentAuditLog, lease, result_commit, read_lines, open_log, prepare_event, write_event,
  build_segment, verify_segment_consistency, bounded_event_capacity,
}
use mutsuki_distributed_host.Audit.Reopen.{
  AuditCall, append_call, tick_call, restart, serve, serve_all, empty_log, serve_all-opens,
}
use mutsuki_distributed_host.Audit.Tamper.{open_log-binds}
use mutsuki_distributed_host.Audit.Segment.{build_segment-proves, build_segment-consistent}
use mutsuki_distributed_host.Audit.Torn.{write_event-torn}
use mutsuki_distributed_host.Examples.Sample.{sha, task_name}
use mutsuki_distributed_host.Examples.AuditSample.{
  audit_budget, audit_codec, zero_hash, first_event, second_event, event_discrete,
}

-- A log of two events.
abbrev audit_file : Text
audit_file = 50 ∷ 125 ∷ 10 ∷ 52 ∷ 125 ∷ 10 ∷ []

abbrev audit_log : PersistentAuditLog
audit_log = record {
  file = audit_file;
  disk = [];
  budget = audit_budget;
  events = first_event zero_hash ∷ second_event zero_hash ∷ [];
  bytes_this_tick = 0;
}

audit_log-opens : open_log audit_codec audit_file [] audit_budget ≡ ok audit_log
unfolding open_log lines_from from_utf8 is_blank get text_discrete ℕ_discrete digest_hex to_hex
    event_discrete
audit_log-opens = refl

abbrev segment_of_two : AuditSegment
segment_of_two = record {
  segment_id = 7;
  first_sequence = 1;
  last_sequence = 2;
  previous_segment_root = none;
  merkle_root = zero_hash;
  leaf_hashes = zero_hash ∷ zero_hash ∷ [];
}

build_segment-proves_example : IsProved sha segment_of_two 1
unfolding build_segment merkle_root digest_hex to_hex next_merkle_level hash_pair
build_segment-proves_example =
    build_segment-proves sha 7 1 1 none audit_log segment_of_two refl (omega arith)

-- The segment of the first event, and the one after it.
abbrev before_second : AuditSegment
before_second = record {
  segment_id = 7;
  first_sequence = 1;
  last_sequence = 1;
  previous_segment_root = none;
  merkle_root = zero_hash;
  leaf_hashes = zero_hash ∷ [];
}

abbrev only_second : AuditSegment
only_second = record {
  segment_id = 8;
  first_sequence = 2;
  last_sequence = 2;
  previous_segment_root = some zero_hash;
  merkle_root = zero_hash;
  leaf_hashes = zero_hash ∷ [];
}

build_segment-consistent_example : verify_segment_consistency before_second only_second ≡ true
unfolding build_segment merkle_root digest_hex to_hex
build_segment-consistent_example =
    build_segment-consistent audit_codec audit_file [] audit_budget audit_log before_second
      only_second audit_log-opens refl

abbrev proof_of_second : AuditInclusionProof
proof_of_second = record {
  segment_id = 7;
  leaf_index = 1;
  leaf_hash = zero_hash;
  siblings = (zero_hash, true) ∷ [];
  merkle_root = zero_hash;
}

verify_inclusion-binds_example :
    ((zero_hash ≡ zero_hash) × (proof_of_second.siblings ≡ proof_of_second.siblings))
    ⊎ Collision sha
unfolding verify_inclusion hash_pair digest_hex to_hex text_discrete ℕ_discrete climb_all climb
verify_inclusion-binds_example =
    verify_inclusion-binds sha proof_of_second proof_of_second refl refl refl refl (refl, refl, tt)

merkle_root-repeated_example :
    merkle_root sha ([] ∷ [] ∷ [] ++ zero_hash ∷ [])
    ≡ merkle_root sha ([] ∷ [] ∷ [] ++ zero_hash ∷ zero_hash ∷ [])
merkle_root-repeated_example = merkle_root-repeated sha [] [] zero_hash [] (omega arith)

merkle_root-total_example : (root : Text) × (merkle_root sha (zero_hash ∷ []) ≡ some root)
merkle_root-total_example = merkle_root-total sha (zero_hash ∷ [])

open_log-binds_example : (audit_log.events ≡ audit_log.events) ⊎ Collision sha
open_log-binds_example =
    open_log-binds audit_codec audit_file audit_file [] [] audit_budget audit_budget audit_log
      audit_log audit_log-opens audit_log-opens refl refl

-- Two events, of which the write of the second one is refused once.
abbrev audit_calls : List AuditCall
audit_calls =
    append_call 3 lease (some task_name) (some 1) none []
    ∷ append_call 4 result_commit (some task_name) (some 1) none []
    ∷ tick_call
    ∷ restart
    ∷ append_call 4 result_commit (some task_name) (some 1) none []
    ∷ []

abbrev after_calls : PersistentAuditLog
after_calls =
    serve_all audit_codec audit_calls (empty_log (written ∷ rolled_back ∷ []) audit_budget)

serve_all-opens_example :
    (open_log audit_codec after_calls.file after_calls.disk after_calls.budget
      ≡ ok (record after_calls { bytes_this_tick = 0 }))
    × (length after_calls.events ≤ bounded_event_capacity after_calls.budget)
    × (after_calls.bytes_this_tick ≤ after_calls.budget.max_audit_bytes_per_tick)
serve_all-opens_example =
    serve_all-opens audit_codec audit_calls (written ∷ rolled_back ∷ []) audit_budget (tt, (tt, tt))
      refl

after_calls-file : after_calls.file ≡ audit_file
unfolding serve_all serve get event_discrete ℕ_discrete text_discrete digest_hex to_hex lines_from
    from_utf8 is_blank
after_calls-file = refl

-- A log of one event, whose next write leaves the object of its line behind but not the newline.
abbrev one_event : PersistentAuditLog
one_event = record {
  file = 50 ∷ 125 ∷ 10 ∷ [];
  disk = [];
  budget = audit_budget;
  events = first_event zero_hash ∷ [];
  bytes_this_tick = 0;
}

abbrev second_line : Text
second_line = 52 ∷ 125 ∷ 10 ∷ []

write_event-torn_example :
    let failed =
      write_event
        (record one_event { disk = torn 2 ∷ [] })
        (ok (second_event zero_hash, second_line)) in
    let later = write_event failed.0 (prepare_event audit_codec failed.0 (second_event [])) in
    (failed.1 ≡ err storage)
    × (later.1 ≡ ok (second_event zero_hash))
    × (open_log audit_codec later.0.file [] audit_budget ≡ err corrupt)
unfolding read_lines lines_from from_utf8 is_blank get text_discrete ℕ_discrete digest_hex to_hex
    event_discrete prepare_event write_event
write_event-torn_example =
    write_event-torn audit_codec one_event (second_event []) (second_event [])
      (second_event zero_hash) (second_event zero_hash) second_line (52 ∷ 125 ∷ []) 2
      (refl, inr refl) refl refl (omega arith) refl refl refl refl
