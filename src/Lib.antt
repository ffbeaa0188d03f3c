-- ===== src/Lib.antt =====
-- The durable state of the distributed host: the task registry with its write-ahead log, the
-- resource catalog that it asks about inputs and outputs, and the audit log; with the control plane
-- that elects a leader and fences the grants of execution.
--
-- The parts and the files:
--
-- * crates/mutsuki-distributed-contracts/src/durability.rs is Contracts: records, attempts,
--   outputs and policies with the source's fields and variants. The types that come from the
--   crate mutsuki_runtime_contracts are the parameter RuntimeContracts.
-- * crates/mutsuki-distributed-runtime/src/resource_catalog.rs is Catalog. An operation takes the
--   catalog, the JSON of its records and whether the write of its file succeeds, and gives the
--   catalog and the answer. Catalog.Invariant, Calls, Copies, Repair and Garbage hold its
--   properties. The content store behind collect_garbage is a parameter.
-- * crates/mutsuki-distributed-runtime/src/persistent_registry.rs is Registry:
--   Mutation (prepare_mutation and the branches of prepare_existing_mutation), Frame
--   (encode_frame, decode_frame_at), Store (the state, the two files, compact_locked), Replicate
--   (replicate_transaction), Log (transact_locked, with prepare_pending_transaction), Replay
--   (replay_wal, load_snapshot, recover_pending_transaction), Open (open_with_options), Service
--   (submit, assign, mark_running, stage_output, commit_output, fail, cancel, compact, query,
--   stats) and FileReplica (FileMetadataReplica and scan_transaction_ids). WellFormed, Lifecycle
--   and Transitions are about the records; FrameLaws, FrameFault, ReplayLaws, Rounds and
--   LegacyFault about the bytes; Vouched, Gathered, ServiceLaws and FileReplicaLaws about the
--   answers. Logged says what the files mean, and the modules Logged* follow it through the steps;
--   Reached runs the registry over calls, compactions and restarts.
-- * crates/mutsuki-distributed-runtime/src/trust_audit.rs is Audit, with the audit types of
--   crates/mutsuki-distributed-contracts/src/trust.rs: Merkle (the tree of a segment), Log (the
--   events, open, append, build_segment and the queries). Inclusion and Binding are about the tree,
--   Chain, Reopen, Tamper and Segment about the log, Torn about a write that fails part-way.
-- * crates/mutsuki-distributed-runtime/src/ha_control.rs is Control, with the types of
--   crates/mutsuki-distributed-contracts/src/ha.rs in Types: Cluster (ReferenceCftModel, elect,
--   set_alive, isolate, recover), Authority (availability, authorize, renew_control_lease and the
--   checks of grants), Propose (propose, propose_from), Grants (issue_grant,
--   record_uncommitted_result, reconcile), Detector (FailureDetector), and Calls, in which a caller
--   interleaves them. ProposeLaws and DetectorLaws are about their namesakes; Epochs, Unchanged and
--   Steps say what each call may do to grants, and Fencing follows them over any calls; Terms,
--   Election and Repairs do so for terms, and Reigns follows the leaders; Leases is about the
--   control lease, with Unleased on the calls that give none.
-- * crates/mutsuki-distributed-runtime/src/recovery.rs is Recovery so far as its `MirrorAdmission`,
--   in Mirror: which sessions may have a standby, within a budget.
-- * Base holds what they share: byte strings, Boolean tests, the result type with the kinds of
--   DistributedError, maps as association lists in the order of their keys, the little-endian,
--   hexadecimal and UTF-8 encodings, and the lines of a text.
-- * Examples runs the models at concrete inputs.
--
-- The registry calls the catalog when a task is submitted and when its output is staged or
-- committed; the catalog calls nothing. A call of the registry holds its lock throughout, so it is
-- one function from state to state.
--
-- Conventions. Text and byte strings are lists of numbers. Lengths that the source counts with
-- usize are native numbers; u64 counters saturate or are checked where the source does so. The
-- replay and scan loops run on fuel and answer `none` without it; they get one round more than the
-- log has bytes, which is enough since every frame has bytes (Registry.Rounds). The Merkle loops
-- run on as many rounds as leaves, which is enough since a level with more than one hash has fewer
-- parents. A map that the source keeps as a BTreeMap is an
-- association list in the order of its keys.
--
-- Parameters: SHA-256 by its length alone; serde_json by partial functions whose output is read
-- back, but for the files of the control nodes, which stand as the snapshots that they hold;
-- replicas by a commit function over states of their own; the disk by a script of outcomes
-- (written, rolled back, or torn where the rollback failed too).
--
-- Not modelled: of ha_control.rs the reading of the node files, the replica of the registry and
-- the leadership preference, which compares floating-point scores; of recovery.rs all but
-- `MirrorAdmission`; locks and threads; failures to create a directory or to read an existing file;
-- the message texts of errors; and the other modules of the runtime (lib, scheduler, content_store,
-- content_localization, localization_io, process, trust_plane and trust_reputation), the host, the
-- client, the adapter and the benchmarks.
pub mod Base
pub mod Contracts
pub mod Catalog
pub mod Registry
pub mod Audit
pub mod Control
pub mod Recovery
pub mod Examples
