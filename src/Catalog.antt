-- ===== src/Catalog.antt =====
-- The resource catalog: crates/mutsuki-distributed-runtime/src/resource_catalog.rs. Each content
-- id has a record with its replicas, kept in memory and rewritten as a file after each change.
-- `saved` says whether the write of an operation succeeds.
pub mod Repair
pub mod Invariant
pub mod Copies
pub mod Garbage
pub mod Calls
use mutsuki_distributed_host.Base.{
  ℕ, zero, suc, ◌+◌, ◌-◌, min, max, Bool, true, false, not, ◌&&◌, ◌||◌, List, [], ◌∷◌, Option, none,
  some, Text, Bytes, ◌≡◌, text_discrete, ite, if◌then◌else◌, ltb, leb, ◌==◌, length, any, all,
  filter, take, is_some, sat_add, sat_mul, checked_add, u64_max, map, holds,
}
use mutsuki_distributed_host.Base.Outcome.{
  Result, ok, err, ◌>>=◌, ◌>>◌, refuse_if, or_fail, invalid_config, capacity_exceeded, storage,
  corrupt, durability_unavailable,
}
use mutsuki_distributed_host.Base.Map.{Map, get, contains, insert, remove, values, text_key}
use mutsuki_distributed_host.Contracts.{
  RuntimeContracts, AcceptanceMode, fast, durable, critical, ResourcePolicy, ephemeral,
  reconstructible, replicated, external_durable, ContentManifest, ReplicaTarget, ReplicaHealth,
  ReplicaRecord, ResourceCatalogRecord, healthy_copies, is_recoverable, is_external_healthy,
}

-- Equality of replica targets, derived in the source.
unfoldable pub ReplicaTarget-discrete : Discrete ReplicaTarget
ReplicaTarget-discrete = hlevel text_discrete

-- What stands at the catalog's path.
pub data CatalogFile : Type 0 where
  absent : CatalogFile
  unreadable : CatalogFile
  contents : Bytes → CatalogFile

-- The JSON of a `CatalogSnapshot` by serde_json: what is written is read back.
pub record CatalogCodec (r : RuntimeContracts) : Type 0 where
  pub catalog_json : Map Text (ResourceCatalogRecord r) → Option Bytes
  pub read_catalog : Bytes → Option (Map Text (ResourceCatalogRecord r))
  pub read-catalog_json :
      (records : Map Text (ResourceCatalogRecord r)) (bytes : Bytes)
      → catalog_json records ≡ some bytes
      → read_catalog bytes ≡ some records

pub record RepairJob (r : RuntimeContracts) : Type 0 where
  pub content_id : r.ContentId
  pub missing_copies : ℕ
  pub estimated_bytes : ℕ

pub record ResourceCatalog (r : RuntimeContracts) : Type 0 where
  pub file : CatalogFile
  pub records : Map Text (ResourceCatalogRecord r)
  pub max_records : ℕ
  pub max_repair_jobs : ℕ

required_replica_count : ResourcePolicy → ℕ
required_replica_count ephemeral = 0
required_replica_count reconstructible = 0
required_replica_count (replicated minimum_replicas) = minimum_replicas
required_replica_count external_durable = 1

-- The first replica with the target takes the new health; a new target goes to the end.
note_replica : ReplicaRecord → List ReplicaRecord → List ReplicaRecord
unfolding ReplicaTarget-discrete
note_replica seen [] = seen ∷ []
note_replica seen (replica ∷ rest) =
    ite (ReplicaTarget-discrete replica.target seen.target)
      (record replica { health = seen.health; verified_at_epoch = seen.verified_at_epoch } ∷ rest)
      (replica ∷ note_replica seen rest)

module _ {r : RuntimeContracts} where
  unfoldable pub read_file :
      CatalogCodec r → CatalogFile → Result (Map Text (ResourceCatalogRecord r))
  read_file json absent = ok []
  read_file json unreadable = err storage
  read_file json (contents bytes) = or_fail (json.read_catalog bytes) corrupt

  pub open_catalog : CatalogCodec r → CatalogFile → ℕ → ℕ → Result (ResourceCatalog r)
  unfolding read_file
  open_catalog json file max_records max_repair_jobs = do
    refuse_if (max_records == 0 || max_repair_jobs == 0) invalid_config
    records ← read_file json file
    refuse_if (ltb max_records (length records)) capacity_exceeded
    ok (record {
      file = file;
      records = records;
      max_records = max_records;
      max_repair_jobs = max_repair_jobs;
    })

  unfoldable pub needs_repair_by : ResourceCatalogRecord r → ResourcePolicy → Bool
  needs_repair_by entry ephemeral = false
  needs_repair_by entry reconstructible = false
  needs_repair_by entry (replicated minimum_replicas) = ltb (healthy_copies entry) minimum_replicas
  needs_repair_by entry external_durable = not (any is_external_healthy entry.replicas)

  unfoldable pub needs_repair : ResourceCatalogRecord r → Bool
  unfolding needs_repair_by
  needs_repair entry = needs_repair_by entry entry.manifest.policy

  missing_by : ResourceCatalogRecord r → ResourcePolicy → ℕ
  unfolding required_replica_count
  missing_by entry external_durable = if any is_external_healthy entry.replicas then 0 else 1
  missing_by entry policy = required_replica_count policy - healthy_copies entry

  pub missing_replica_count : ResourceCatalogRecord r → ℕ
  unfolding missing_by
  missing_replica_count entry = missing_by entry entry.manifest.policy

  unfoldable pub persist :
      CatalogCodec r → Bool → ResourceCatalog r → ResourceCatalog r × Result (Unit {0})
  persist json saved c = elim (json.catalog_json c.records) [
    | none ↦ (c, err corrupt)
    | some bytes ↦ if saved then (record c { file = contents bytes }, ok tt) else (c, err storage)
  ]

  -- `repair_required` brought up to date.
  refresh : ResourceCatalogRecord r → ResourceCatalogRecord r
  refresh entry = record entry { repair_required = needs_repair entry }

  -- The record stored under its digest, and the file rewritten.
  unfoldable pub keep :
      CatalogCodec r
      → Bool
      → Text
      → ResourceCatalogRecord r
      → ResourceCatalog r
      → ResourceCatalog r × Result (Unit {0})
  unfolding persist
  keep json saved digest entry c =
      persist json saved (record c { records = insert digest entry c.records })

  pub register :
      CatalogCodec r
      → Bool
      → ContentManifest r
      → List ReplicaRecord
      → ℕ
      → ℕ
      → ResourceCatalog r
      → ResourceCatalog r × Result (Unit {0})
  unfolding refresh keep
  register json saved manifest replicas reference_count retain_until_epoch c =
      let digest = r.digest manifest.content_id in
      if not (contains digest c.records) && leb c.max_records (length c.records)
      then (c, err capacity_exceeded)
      else keep json saved digest
          (refresh (record {
            manifest = manifest;
            replicas = replicas;
            reference_count = reference_count;
            retain_until_epoch = retain_until_epoch;
            repair_required = false;
          }))
          c

  pub record_replica :
      CatalogCodec r
      → Bool
      → r.ContentId
      → ReplicaTarget
      → ReplicaHealth
      → ℕ
      → ResourceCatalog r
      → ResourceCatalog r × Result (Unit {0})
  unfolding refresh keep note_replica
  record_replica json saved content_id target health epoch c =
      elim (get (r.digest content_id) c.records) [
        | none ↦ (c, err durability_unavailable)
        | some entry ↦
            let seen : ReplicaRecord = record {
              target = target;
              health = health;
              verified_at_epoch = epoch;
            } in
            keep json saved (r.digest content_id)
              (refresh (record entry { replicas = note_replica seen entry.replicas })) c
      ]

  unfoldable pub add_reference :
      CatalogCodec r
      → Bool
      → r.ContentId
      → ResourceCatalog r
      → ResourceCatalog r × Result (Unit {0})
  unfolding keep
  add_reference json saved content_id c = elim (get (r.digest content_id) c.records) [
    | none ↦ (c, err durability_unavailable)
    | some entry ↦ elim (checked_add entry.reference_count 1) [
      | none ↦ (c, err capacity_exceeded)
      | some count ↦
          keep json saved (r.digest content_id) (record entry { reference_count = count }) c
    ]
  ]

  pub release_reference :
      CatalogCodec r
      → Bool
      → r.ContentId
      → ℕ
      → ResourceCatalog r
      → ResourceCatalog r × Result (Unit {0})
  unfolding keep
  release_reference json saved content_id retain_until_epoch c =
      elim (get (r.digest content_id) c.records) [
        | none ↦ (c, err durability_unavailable)
        | some entry ↦
            keep json saved (r.digest content_id)
              (record entry {
                reference_count = entry.reference_count - 1;
                retain_until_epoch = max entry.retain_until_epoch retain_until_epoch;
              })
              c
      ]

  unfoldable pub lookup_content : ResourceCatalog r → r.ContentId → Option (ResourceCatalogRecord r)
  lookup_content c content_id = get (r.digest content_id) c.records

  -- `is_some_and`.
  abbrev pub passes : (ResourceCatalogRecord r → Bool) → Option (ResourceCatalogRecord r) → Bool
  passes p none = false
  passes p (some entry) = p entry

  pub inputs_recoverable : ResourceCatalog r → List r.ContentId → Bool
  inputs_recoverable c inputs = all (λ input. passes is_recoverable (lookup_content c input)) inputs

  -- The loop of `minimum_healthy_copies`.
  unfoldable pub minimum_from : ResourceCatalog r → ℕ → List r.ContentId → Result ℕ
  minimum_from c minimum [] = ok minimum
  minimum_from c minimum (input ∷ rest) = elim (lookup_content c input) [
    | none ↦ err durability_unavailable
    | some entry ↦ minimum_from c (min minimum (healthy_copies entry)) rest
  ]

  unfoldable pub minimum_healthy_copies : ResourceCatalog r → List r.ContentId → Result ℕ
  unfolding minimum_from
  minimum_healthy_copies c [] = ok 0
  minimum_healthy_copies c (input ∷ rest) = minimum_from c u64_max (input ∷ rest)

  ready_in : AcceptanceMode → ResourceCatalogRecord r → Bool
  ready_in fast entry = leb 1 (healthy_copies entry)
  ready_in durable entry = is_recoverable entry && leb 1 (healthy_copies entry)
  ready_in (critical minimum_replicas) entry =
      is_recoverable entry && leb minimum_replicas (healthy_copies entry)

  unfoldable pub is_commit_ready : ResourceCatalog r → r.ContentId → AcceptanceMode → Bool
  unfolding ready_in lookup_content
  is_commit_ready c content_id mode = passes (ready_in mode) (lookup_content c content_id)

  -- One step of the iterator of `plan_repairs`; `bytes` is what the jobs so far move.
  repair_job : ℕ → ℕ → ResourceCatalogRecord r → Option (RepairJob r)
  repair_job max_bytes bytes entry =
      let missing = missing_replica_count entry in
      let estimated = sat_mul (r.size entry.manifest.content_id) missing in
      if missing == 0 || ltb max_bytes (sat_add bytes estimated) || estimated == 0
      then none
      else some (record {
        content_id = entry.manifest.content_id;
        missing_copies = missing;
        estimated_bytes = estimated;
      })

  plan_from : ℕ → ℕ → ℕ → List (ResourceCatalogRecord r) → List (RepairJob r)
  unfolding repair_job
  plan_from max_bytes bytes zero entries = []
  plan_from max_bytes bytes (suc jobs) [] = []
  plan_from max_bytes bytes (suc jobs) (entry ∷ rest) = elim (repair_job max_bytes bytes entry) [
    | none ↦ plan_from max_bytes bytes (suc jobs) rest
    | some job ↦ job ∷ plan_from max_bytes (sat_add bytes job.estimated_bytes) jobs rest
  ]

  pub plan_repairs : ℕ → ResourceCatalog r → List (RepairJob r)
  unfolding plan_from
  plan_repairs max_bytes c =
      plan_from max_bytes 0 c.max_repair_jobs (filter (λ e. e.repair_required) (values c.records))

  is_garbage : ℕ → ResourceCatalogRecord r → Bool
  is_garbage now_epoch entry = entry.reference_count == 0 && leb entry.retain_until_epoch now_epoch

  unfoldable pub gc_candidates : ℕ → ℕ → ResourceCatalog r → List r.ContentId
  unfolding is_garbage
  gc_candidates now_epoch max_items c =
      map (λ e. e.manifest.content_id)
        (take max_items (filter (is_garbage now_epoch) (values c.records)))

  -- The content store behind `collect_garbage`, by its `remove_content` alone.
  module _ {S : Type 0} (remove_content : r.ContentId → S → S × Result (Unit {0})) where
    -- The loop: the first content that cannot be removed stops it.
    drop_content :
        List r.ContentId → ResourceCatalog r × S → (ResourceCatalog r × S) × Result (Unit {0})
    drop_content [] (c, store) = ((c, store), ok tt)
    drop_content (content_id ∷ rest) (c, store) =
        let removed = remove_content content_id store in
        elim removed.1 [
          | err e ↦ ((c, removed.0), err e)
          | ok done ↦
              drop_content rest
                (record c { records = remove (r.digest content_id) c.records }, removed.0)
        ]

    persist_after :
        CatalogCodec r
        → Bool
        → List r.ContentId
        → (ResourceCatalog r × S) × Result (Unit {0})
        → (ResourceCatalog r × S) × Result (List r.ContentId)
    unfolding persist
    persist_after json saved candidates ((c, store), err e) = ((c, store), err e)
    persist_after json saved [] ((c, store), ok done) = ((c, store), ok [])
    persist_after json saved (first ∷ rest) ((c, store), ok done) =
        let written = persist json saved c in
        ((written.0, store), written.1 >>= λ _. ok (first ∷ rest))

    pub collect_garbage :
        CatalogCodec r
        → Bool
        → ℕ
        → ℕ
        → ResourceCatalog r
        → S
        → (ResourceCatalog r × S) × Result (List r.ContentId)
    unfolding drop_content persist_after
    collect_garbage json saved now_epoch max_items c store =
        let candidates = gc_candidates now_epoch max_items c in
        persist_after json saved candidates (drop_content candidates (c, store))
