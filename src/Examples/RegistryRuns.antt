-- ===== src/Examples/RegistryRuns.antt =====
-- Runs of the registry of persistent_registry.rs.
use mutsuki_distributed_host.Base.{
  ℕ, ◌≤◌, ◌≡◌, refl, subst, true, false, List, [], ◌∷◌, ◌++◌, some, none, arith, length, Bytes,
  text_discrete, ℕ_discrete, All, Bool, ◌+◌, zero, suc, ap, if◌then◌else◌,
}
use mutsuki_distributed_host.Base.Outcome.{Result, ok, err, ◌>>=◌, corrupt, conflict}
use mutsuki_distributed_host.Base.Map.{get, insert, text_key, ℕ_key, ◌is◌}
use mutsuki_distributed_host.Base.Encoding.{to_hex, le_bytes, range_of}
use mutsuki_distributed_host.Contracts.{
  GlobalTaskState-discrete, fast, submitted, minimum_metadata_copies, assigned, cancelled,
  output_staged, is_terminal, active_attempt, DurableTaskRecord, DurableAttempt, StagedOutput,
  AcceptanceReceipt,
}
use mutsuki_distributed_host.Registry.Mutation.{
  submit, cancel, task_id, prepare_mutation, prepare_submit, accepted_state, apply_stage,
  is_executing,
}
use mutsuki_distributed_host.Registry.WellFormed.{IsWellFormed}
use mutsuki_distributed_host.Registry.Lifecycle.{prepare_mutation-IsWellFormed}
use mutsuki_distributed_host.Registry.Transitions.{
  apply_stage-newest, store_all, store_all-kept, Finished,
}
use mutsuki_distributed_host.Registry.Frame.{
  prepare, snapshot, encode_frame, decode_frame_at, decoded, panicked, protected_bytes,
}
use mutsuki_distributed_host.Registry.FrameLaws.{decode-encode_frame, encode_frame-ok}
use mutsuki_distributed_host.Registry.LegacyFault.{replay_wal-legacy}
use mutsuki_distributed_host.Registry.FileReplica.{
  ScanState, scan_loop, FileReplica, ack_of, commit_transaction,
}
use mutsuki_distributed_host.Registry.FileReplicaLaws.{commit_all, commit_transaction-again}
use mutsuki_distributed_host.Registry.FrameFault.{decode_frame_at-panics, short_protected}
use mutsuki_distributed_host.Registry.Store.{
  CommitProof, RegistryState, RegistryOptions, MetadataTransaction, append_local, transaction_id,
  compact_locked,
}
use mutsuki_distributed_host.Registry.Log.{transact_locked, new_transaction}
use mutsuki_distributed_host.Registry.Replay.{
  ReplayState, is_legacy, replay_wal, replay_loop, start_of, replay_start,
}
use mutsuki_distributed_host.Registry.ReplayLaws.{replay_entries, replay_loop-entries}
use mutsuki_distributed_host.Registry.Rounds.{replay_loop-scan_loop-rounds}
use mutsuki_distributed_host.Registry.Open.{validate, validate_ids, open_with_options}
use mutsuki_distributed_host.Registry.Service.{serve, submits}
use mutsuki_distributed_host.Registry.LoggedService.{serve-FilesAgree}
use mutsuki_distributed_host.Catalog.{ResourceCatalog, absent, minimum_healthy_copies}
use mutsuki_distributed_host.Registry.Logged.{IsLogged-empty}
use mutsuki_distributed_host.Registry.LoggedCommit.{prepare_mutation-fits}
use mutsuki_distributed_host.Registry.LoggedCompact.{FilesAgree, compact_locked-FilesAgree}
use mutsuki_distributed_host.Registry.LoggedTransact.{transact_locked-FilesAgree}
use mutsuki_distributed_host.Registry.Reached.{
  first_registry, restarted, first, served, open_with_options-IsReached,
}
use mutsuki_distributed_host.Examples.Sample.{
  contracts, codec, sha, options, replica, task, task_name, copies_of,
}

abbrev replicas : List replica.Replica
replicas = (114 ∷ []) ∷ []

abbrev initial : RegistryState contracts replica
initial = first_registry replicas

-- One task submitted to two copies.
abbrev submitted_run : RegistryState contracts replica
submitted_run = (transact_locked codec options (submit task) 2 true initial).0

-- The same through the registry's interface, with no inputs to look up.
abbrev resources : ResourceCatalog contracts
resources = record { file = absent; records = []; max_records = 1; max_repair_jobs = 1 }

abbrev served_run : RegistryState contracts replica
served_run = serve codec options (submits task.spec) resources initial

served_run-is_legacy : is_legacy served_run.wal ≡ false
unfolding serve minimum_metadata_copies minimum_healthy_copies transact_locked prepare_mutation
    prepare_submit get GlobalTaskState-discrete accepted_state new_transaction text_discrete
    transaction_id to_hex ℕ_discrete task_id encode_frame append_local
served_run-is_legacy = refl

open_with_options-IsReached_example :
    (transactions : ℕ) × (open_with_options codec options replicas [] served_run.wal
        served_run.snapshot_file
      ≡ ok (restarted served_run replicas [] transactions))
unfolding validate validate_ids get
open_with_options-IsReached_example =
    open_with_options-IsReached codec options served_run replicas [] (omega arith) refl refl
      served_run-is_legacy (served initial [] (submits task.spec) resources tt (first replicas))

serve-FilesAgree_example : FilesAgree codec options served_run served_run.pending
serve-FilesAgree_example =
    serve-FilesAgree codec options initial (omega arith) tt (IsLogged-empty codec options)
      (submits task.spec) resources

transact_locked-FilesAgree_example : FilesAgree codec options submitted_run submitted_run.pending
transact_locked-FilesAgree_example =
    transact_locked-FilesAgree codec options (submit task) 2 true initial (omega arith) tt
      (IsLogged-empty codec options)

submitted_run-pending : submitted_run.pending ≡ none
unfolding transact_locked prepare_mutation prepare_submit get GlobalTaskState-discrete
    accepted_state new_transaction text_discrete transaction_id to_hex ℕ_discrete task_id
    encode_frame append_local insert
submitted_run-pending = refl

compact_locked-FilesAgree_example :
    FilesAgree codec options (compact_locked codec options submitted_run).0 none
compact_locked-FilesAgree_example = compact_locked-FilesAgree codec options submitted_run (
    subst (FilesAgree codec options submitted_run) submitted_run-pending (
      transact_locked-FilesAgree codec options (submit task) 2 true initial (omega arith) tt
        (IsLogged-empty codec options)))

-- The frame of a payload of two bytes at index 1.
abbrev two_bytes : Bytes
two_bytes = 8 ∷ 9 ∷ []

abbrev frame : Bytes
frame = elim (encode_frame sha prepare 1 two_bytes) [ ok bytes ↦ bytes | err e ↦ [] ]

frame-encoded : encode_frame sha prepare 1 two_bytes ≡ ok frame
unfolding encode_frame
frame-encoded = refl

decode-encode_frame_example :
    decode_frame_at sha ((3 ∷ []) ++ (frame ++ 4 ∷ [])) 1 64
    ≡ decoded
        (record { kind = prepare; log_index = 1; payload = two_bytes; end = 1 + length frame })
unfolding encode_frame range_of
decode-encode_frame_example =
    decode-encode_frame sha (3 ∷ []) (4 ∷ []) 64 prepare 1 two_bytes (omega arith) (omega arith)
      frame-encoded

decode_frame_at-panics_example :
    let protected = short_protected snapshot (copies_of 0 8) in
    decode_frame_at sha
      ([] ++ ((le_bytes 4 (length protected + 32) ++ (protected ++ sha.digest protected)) ++ []))
      0
      64
    ≡ panicked
decode_frame_at-panics_example =
    decode_frame_at-panics sha [] [] (copies_of 0 8) 64 snapshot (omega arith) (omega arith)

-- The cancelled task keeps its end, whatever is tried next.
abbrev cancelled_task : DurableTaskRecord contracts
cancelled_task = record task { state = cancelled }

store_all-kept_example :
    (u : DurableTaskRecord contracts) × (get task_name
        (store_all 2 ((task_name, cancelled_task) ∷ []) (cancel task_name ∷ submit task ∷ []))
      ≡ some u)
    × Finished cancelled_task u
unfolding get is_terminal text_discrete ℕ_discrete
store_all-kept_example =
    store_all-kept 2 ((task_name, cancelled_task) ∷ []) (cancel task_name ∷ submit task ∷ [])
      task_name cancelled_task refl refl

prepare_mutation-fits_example : length (insert task_name task []) ≤ 2
unfolding prepare_mutation prepare_submit get GlobalTaskState-discrete accepted_state task_id
prepare_mutation-fits_example = prepare_mutation-fits [] (submit task) 2 task (omega arith) refl

prepare_mutation-IsWellFormed_example : IsWellFormed task
unfolding prepare_mutation prepare_submit get GlobalTaskState-discrete accepted_state
prepare_mutation-IsWellFormed_example =
    prepare_mutation-IsWellFormed [] (submit task) 2 task tt tt refl

-- A task whose second attempt is active.
abbrev attempt : ℕ → Bool → DurableAttempt contracts
attempt n active = record {
  attempt = n;
  node_id = 97 ∷ [];
  local_handle = none;
  runner_generation = 1;
  active = active;
}

abbrev assigned_task : DurableTaskRecord contracts
assigned_task = record task { state = assigned; attempts = attempt 1 false ∷ attempt 2 true ∷ [] }

assigned_task-IsWellFormed : IsWellFormed assigned_task
assigned_task-IsWellFormed = record {
  rising = ((omega arith, tt), (tt, tt));
  settled = (refl, tt);
  shape = ((attempt 2 true, unfold active_attempt in refl), refl);
}

abbrev staged : StagedOutput contracts
staged = record { attempt = 2; worker_node = 97 ∷ []; content_id = 4; verified_copies = 1 }

apply_stage-newest_example : All (λ b. b.attempt ≤ 2) (attempt 1 false ∷ attempt 2 true ∷ [])
unfolding apply_stage active_attempt is_executing text_discrete ℕ_discrete
apply_stage-newest_example =
    apply_stage-newest staged assigned_task
      (record assigned_task { state = output_staged; staged_output = some staged })
      assigned_task-IsWellFormed refl

-- A log of the one frame above.
replay_loop-entries_example :
    replay_loop codec options 60 0 ([] ++ frame) 0 (replay_start (start_of none))
    ≡ some (
        replay_entries codec options 0
          (record { is_commit = false; log_index = 1; payload = two_bytes } ∷ [])
          (replay_start (start_of none))
        >>= λ t. ok (t, length ([] ++ frame)))
unfolding encode_frame range_of
replay_loop-entries_example =
    replay_loop-entries codec options 60 0
      (record { is_commit = false; log_index = 1; payload = two_bytes } ∷ []) [] frame
      (replay_start (start_of none)) (omega arith)
      (frame, [], frame-encoded, omega arith, omega arith, refl, refl)

abbrev fast_receipt : AcceptanceReceipt
fast_receipt = record {
  global_task_id = task_name;
  requested = fast;
  actual = fast;
  state = submitted;
  metadata_copies = 1;
  input_copies = 0;
  transaction_id = copies_of 48 64;
  log_index = 1;
  replica_commits = [];
}

abbrev one_copy : CommitProof
one_copy = record {
  transaction_id = copies_of 48 64;
  log_index = 1;
  replica_commits =
      record { replica_id = 114 ∷ []; transaction_id = copies_of 48 64; log_index = 1 } ∷ [];
}

-- A prepared transaction whose payload has 8775 bytes, the shortest that spells the mark of the
-- older format.
length-copies_of : (b n : ℕ) → length (copies_of b n) ≡ n
length-copies_of b zero = refl
length-copies_of b (suc n) = ap suc (length-copies_of b n)

long_payload : Bytes
long_payload = copies_of 0 8775

long_payload-length : length long_payload ≡ 8775
unfolding long_payload
long_payload-length = length-copies_of 0 8775

abbrev long_frame : Bytes
long_frame =
    le_bytes 4 (length (protected_bytes prepare 1 long_payload) + 32)
    ++ (protected_bytes prepare 1 long_payload
        ++ sha.digest (protected_bytes prepare 1 long_payload))

abbrev large_options : RegistryOptions
large_options = record options { max_record_bytes = 65536 }

replay_wal-legacy_example :
    (decode_frame_at sha (long_frame ++ []) 0 65536
      ≡ decoded (record {
        kind = prepare;
        log_index = 1;
        payload = long_payload;
        end = 0 + length long_frame;
      }))
    × (replay_wal codec large_options (long_frame ++ []) none ≡ err corrupt)
unfolding range_of
replay_wal-legacy_example =
    replay_wal-legacy codec large_options prepare 1 long_payload [] long_frame none
      long_payload-length (omega arith) (omega arith)
      (encode_frame-ok sha prepare 1 long_payload (omega (arith, long_payload-length)))

-- A file replica that commits a transaction, and is asked to commit it again after another.
abbrev first_transaction : MetadataTransaction
first_transaction = record {
  transaction_id = 120 ∷ [];
  log_index = 1;
  previous_version = 0;
  prepare_payload = [];
  prepare_frame = 1 ∷ [];
  commit_frame = 2 ∷ [];
}

abbrev second_transaction : MetadataTransaction
second_transaction = record first_transaction { transaction_id = 121 ∷ []; log_index = 2 }

abbrev file_replica_state : FileReplica
file_replica_state = record { id = 102 ∷ []; wal = []; disk = []; committed = [] }

commit_transaction-again_example :
    let later =
      commit_all
        (second_transaction ∷ [])
        true
        (commit_transaction first_transaction true file_replica_state).0 in
    commit_transaction first_transaction true later ≡ (
      later,
      if first_transaction.transaction_id is first_transaction.transaction_id
          then ok (ack_of later first_transaction)
          else err conflict,
    )
unfolding commit_transaction get
commit_transaction-again_example =
    commit_transaction-again first_transaction first_transaction true file_replica_state
      (ack_of file_replica_state first_transaction) (second_transaction ∷ []) refl refl

-- A frame with one byte of another behind it.
abbrev torn_frame : Bytes
torn_frame = frame ++ 7 ∷ []

replay_loop-scan_loop-rounds_example :
    ((answer : Result (ReplayState contracts × ℕ)) × (replay_loop codec options 60 0 torn_frame 0
          (replay_start (start_of none))
        ≡ some answer)
      × (replay_loop codec options
            (suc (length torn_frame))
            0
            torn_frame
            0
            (replay_start (start_of none))
          ≡ some answer))
    × ((answer : Result (ScanState × ℕ)) × (scan_loop codec 60 torn_frame 0
            (record { scanned = []; prepared = [] })
          ≡ some answer)
        × (scan_loop codec
              (suc (length torn_frame))
              torn_frame
              0
              (record { scanned = []; prepared = [] })
            ≡ some answer))
unfolding encode_frame
replay_loop-scan_loop-rounds_example =
    replay_loop-scan_loop-rounds codec options 60 0 torn_frame (replay_start (start_of none))
      (record { scanned = []; prepared = [] }) (omega arith)
