-- ===== src/Registry/Logged.antt =====
-- What the files of the registry of persistent_registry.rs say of its tables: replaying the log
-- over the snapshot gives them back. The steps that write the files keep this.
use mutsuki_distributed_host.Base.{
  ℕ, suc, ◌≤◌, ◌≡◌, refl, false, List, [], ◌∷◌, ◌++◌, Option, none, some, Text, Bytes, arith,
  length, All, All-append, All-mono, u64_max,
}
use mutsuki_distributed_host.Base.Outcome.{ok}
use mutsuki_distributed_host.Base.Map.{Map, get, insert, place, text_key, ℕ_key}
use mutsuki_distributed_host.Base.Encoding.{from_utf8, range_of}
use mutsuki_distributed_host.Contracts.{RuntimeContracts, GlobalTaskId, DurableTaskRecord}
use mutsuki_distributed_host.Registry.Frame.{prepare, commit, encode_frame, wal_version}
use mutsuki_distributed_host.Registry.Mutation.{task_id, prepare_mutation}
use mutsuki_distributed_host.Registry.Store.{
  RegistryOptions, PreparedPayload, RegistrySnapshot, Codec, PendingTransaction,
  transaction_id_for_prepared,
}
use mutsuki_distributed_host.Registry.Replay.{
  ReplayState, start_of, replay_start, breaks_chain, replay_frame, replay_prepare, load_snapshot,
}
use mutsuki_distributed_host.Registry.ReplayLaws.{
  Entry, IsLog, replay_entries, IsLog-append, replay_entries-append,
}

module _ {r : RuntimeContracts} (c : Codec r) (options : RegistryOptions) where
  -- A transaction that continues the tables, with its payload and its frames.
  pub record IsPrepared (records : Map GlobalTaskId (DurableTaskRecord r))
      (versions : Map GlobalTaskId ℕ) (index : ℕ) (id : Text) (p : PendingTransaction r)
      : Type 0 where
    pub same_id : p.metadata.transaction_id ≡ p.prepared.transaction_id
    pub same_index : p.metadata.log_index ≡ p.prepared.log_index
    pub same_version : p.metadata.previous_version ≡ p.prepared.previous_version
    pub task : p.prepared.global_task_id ≡ task_id p.prepared.mutation
    pub next_index : p.prepared.log_index ≡ suc index
    pub index_fits : p.prepared.log_index ≤ u64_max
    pub chained : breaks_chain p.prepared versions index id ≡ false
    pub hashed : transaction_id_for_prepared c p.prepared ≡ ok p.prepared.transaction_id
    pub accepted :
        prepare_mutation records p.prepared.mutation options.max_tasks ≡ ok p.resulting_record
    pub encoded : c.prepared_json p.prepared ≡ some p.metadata.prepare_payload
    pub payload_fits : length p.metadata.prepare_payload ≤ options.max_record_bytes
    pub prepare_written :
        encode_frame c.sha prepare p.prepared.log_index p.metadata.prepare_payload
        ≡ ok p.metadata.prepare_frame
    pub commit_written :
        encode_frame c.sha commit p.prepared.log_index p.prepared.transaction_id
        ≡ ok p.metadata.commit_frame
    pub text : from_utf8 p.prepared.transaction_id ≡ some p.prepared.transaction_id
    pub id_fits : length p.prepared.transaction_id ≤ options.max_record_bytes

  module _ (records : Map GlobalTaskId (DurableTaskRecord r)) (versions : Map GlobalTaskId ℕ)
      (index : ℕ) (id : Text) where
    -- The transactions that the log leaves prepared.
    abbrev pub PreparedIs : Option (PendingTransaction r) → Map ℕ (PreparedPayload r) → Type 0
    PreparedIs none prepared = prepared ≡ []
    PreparedIs (some p) prepared =
        (prepared ≡ (p.prepared.log_index, p.prepared) ∷ [])
        × IsPrepared records versions index id p

  abbrev pub highest : ℕ → Option (PendingTransaction r) → ℕ
  highest index none = index
  highest index (some p) = suc index

  -- The files against the tables, and the transaction that is pending.
  pub record IsLogged (wal : Bytes) (file : Option Bytes)
      (records : Map GlobalTaskId (DurableTaskRecord r)) (versions : Map GlobalTaskId ℕ) (index : ℕ)
      (id : Text) (pending : Option (PendingTransaction r)) : Type 0 where
    pub snap : Option (RegistrySnapshot r)
    pub loaded : load_snapshot c options file ≡ ok snap
    pub version : (start_of snap).format_version ≡ wal_version
    pub start_fits : length (start_of snap).records ≤ options.max_tasks
    pub start_index : (start_of snap).last_included_log_index ≤ index
    pub entries : List Entry
    pub log : IsLog c options entries wal
    pub below : All (λ e. e.log_index ≤ highest index pending) entries
    pub state : ReplayState r
    pub replayed :
        replay_entries c options
          (start_of snap).last_included_log_index
          entries
          (replay_start (start_of snap))
        ≡ ok state
    pub same_records : state.records ≡ records
    pub same_versions : state.versions ≡ versions
    pub same_index : state.last_log_index ≡ index
    pub same_id : state.last_transaction_id ≡ id
    pub same_prepared : PreparedIs records versions index id pending state.prepared
    pub tables_fit : length records ≤ options.max_tasks
    pub index_fits : index ≤ u64_max

  -- A registry that starts with no files.
  pub IsLogged-empty : IsLogged [] none [] [] 0 [] none
  unfolding load_snapshot start_of replay_start
  IsLogged-empty = record {
    snap = none;
    loaded = refl;
    version = refl;
    start_fits = omega arith;
    start_index = omega arith;
    entries = [];
    log = refl;
    below = tt;
    state = replay_start (start_of none);
    replayed = refl;
    same_records = refl;
    same_versions = refl;
    same_index = refl;
    same_id = refl;
    same_prepared = refl;
    tables_fit = omega arith;
    index_fits = omega arith;
  }

  module _ {records : Map GlobalTaskId (DurableTaskRecord r)} {versions : Map GlobalTaskId ℕ}
      {index : ℕ} {id : Text} where
    replay-prepare_frame :
        (included : ℕ) (p : PendingTransaction r) (s : ReplayState r)
        → included ≤ index
        → s.prepared ≡ []
        → IsPrepared records versions index id p
        → replay_frame c options included prepare p.prepared.log_index p.metadata.prepare_payload s
          ≡ ok (record s { prepared = (p.prepared.log_index, p.prepared) ∷ [] })
    unfolding replay_frame replay_prepare get insert place
    replay-prepare_frame included p s low e q =
        ground (arith, c.read-prepared_json p.prepared p.metadata.prepare_payload q.encoded)

    -- The prepare frame of a transaction that continues the tables.
    pub IsLogged-prepare :
        {wal : Bytes} {file : Option Bytes} (p : PendingTransaction r)
        → IsPrepared records versions index id p
        → IsLogged wal file records versions index id none
        → IsLogged (wal ++ p.metadata.prepare_frame) file records versions index id (some p)
    unfolding range_of
    IsLogged-prepare {wal} p q l =
        let e : Entry = record {
          is_commit = false;
          log_index = p.prepared.log_index;
          payload = p.metadata.prepare_payload;
        } in
        record {
          snap = l.snap;
          loaded = l.loaded;
          version = l.version;
          start_fits = l.start_fits;
          start_index = l.start_index;
          entries = l.entries ++ e ∷ [];
          log =
              IsLog-append c options l.entries wal e p.metadata.prepare_frame l.log
                q.prepare_written (omega (arith, q.index_fits)) q.payload_fits;
          below =
              All-append _ l.entries (e ∷ []) (All-mono _ _ l.entries (λ x h. omega arith) l.below)
                (omega (arith, q.next_index), tt);
          state = record l.state { prepared = (p.prepared.log_index, p.prepared) ∷ [] };
          replayed =
              rw (replay_entries-append c options, l.replayed)
                (replay-prepare_frame _ p l.state l.start_index l.same_prepared q);
          same_records = l.same_records;
          same_versions = l.same_versions;
          same_index = l.same_index;
          same_id = l.same_id;
          same_prepared = (refl, q);
          tables_fit = l.tables_fit;
          index_fits = l.index_fits;
        }
