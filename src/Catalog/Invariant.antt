-- ===== src/Catalog/Invariant.antt =====
-- The well-formed catalogs of resource_catalog.rs, and the operations on one record.
use mutsuki_distributed_host.Base.{
  ℕ, ◌≤◌, ◌<◌, ◌≡◌, refl, Bool, false, List, some, Text, arith, length, All, inl, inr, Option-cases,
  if-either, checked_add, ◌∙◌,
}
use mutsuki_distributed_host.Base.Outcome.{Result}
use mutsuki_distributed_host.Base.Map.{
  get, insert, text_key, All-insert, All-get, length-insert, IsUnique, insert-IsUnique,
}
use mutsuki_distributed_host.Contracts.{
  RuntimeContracts, ContentManifest, ReplicaTarget, ReplicaHealth, ReplicaRecord,
  ResourceCatalogRecord, ResourcePolicy, ephemeral, reconstructible, replicated, external_durable,
  healthy_copies,
}
use mutsuki_distributed_host.Catalog.{
  ResourceCatalog, CatalogCodec, CatalogFile, contents, persist, needs_repair, needs_repair_by,
  keep, refresh, register, record_replica, add_reference, release_reference,
}

module _ {r : RuntimeContracts} where
  -- Each record stands under the digest of its content, and its flag is up to date.
  abbrev pub IsEntry : Text × ResourceCatalogRecord r → Type 0
  IsEntry e = (e.0 ≡ r.digest e.1.manifest.content_id) × (e.1.repair_required ≡ needs_repair e.1)

  pub record IsValid (c : ResourceCatalog r) : Type 0 where
    pub positive : 0 < c.max_records
    pub jobs_positive : 0 < c.max_repair_jobs
    pub bounded : length c.records ≤ c.max_records
    pub unique : IsUnique c.records
    pub entries : All IsEntry c.records

  -- The write changes the file alone.
  pub persist-memory :
      (P : ResourceCatalog r → Type 0) (json : CatalogCodec r) (saved : Bool)
      (c : ResourceCatalog r)
      → ((file : CatalogFile) → P (record c { file = file }))
      → P (persist json saved c).0
  unfolding persist
  persist-memory P json saved c keeps = elim (Option-cases (json.catalog_json c.records)) [
    | inl e ↦ rw (e, persist) (keeps c.file)
    | inr (bytes, e) ↦
        rw (e, persist)
          (if-either (λ (x : ResourceCatalog r × Result (Unit {0})). P x.0) saved
            (keeps (contents bytes)) (keeps c.file))
  ]

  -- What the first half of an operation may store: a valid record that fits.
  keep-IsValid :
      (json : CatalogCodec r) (saved : Bool) (digest : Text) (entry : ResourceCatalogRecord r)
      (c : ResourceCatalog r)
      → IsValid c
      → IsEntry (digest, entry)
      → length (insert digest entry c.records) ≤ c.max_records
      → IsValid (keep json saved digest entry c).0
  unfolding keep
  keep-IsValid json saved digest entry c v e h =
      persist-memory IsValid json saved (record c { records = insert digest entry c.records })
        (λ file. record {
          positive = v.positive;
          jobs_positive = v.jobs_positive;
          bounded = h;
          unique = insert-IsUnique digest entry c.records v.unique;
          entries = All-insert IsEntry digest entry c.records e v.entries;
        })

  -- An entry that is there makes room for its own change.
  fits :
      (digest : Text) (entry old : ResourceCatalogRecord r) (c : ResourceCatalog r)
      → IsValid c
      → get digest c.records ≡ some old
      → length (insert digest entry c.records) ≤ c.max_records
  fits digest entry old c v e = ground (arith, length-insert digest entry c.records)

  -- A refreshed record is an entry.
  refresh_flag :
      (entry : ResourceCatalogRecord r) (policy : ResourcePolicy)
      → needs_repair_by entry policy ≡ needs_repair_by (refresh entry) policy
  unfolding needs_repair_by refresh healthy_copies
  refresh_flag entry ephemeral = refl
  refresh_flag entry reconstructible = refl
  refresh_flag entry (replicated minimum_replicas) = refl
  refresh_flag entry external_durable = refl

  refresh-IsEntry :
      (digest : Text) (entry : ResourceCatalogRecord r)
      → digest ≡ r.digest entry.manifest.content_id
      → IsEntry (digest, refresh entry)
  unfolding refresh needs_repair
  refresh-IsEntry digest entry e = (e, refresh_flag entry entry.manifest.policy)

  -- A change of a record that is there: its content and its flag stay in step.
  update-IsValid :
      (json : CatalogCodec r) (saved : Bool) (digest : Text) (entry old : ResourceCatalogRecord r)
      (c : ResourceCatalog r)
      → IsValid c
      → get digest c.records ≡ some old
      → (IsEntry (digest, old) → IsEntry (digest, entry))
      → IsValid (keep json saved digest entry c).0
  update-IsValid json saved digest entry old c v e f =
      keep-IsValid json saved digest entry c v (f (All-get IsEntry digest c.records v.entries e))
        (fits digest entry old c v e)

  pub register-IsValid :
      (json : CatalogCodec r) (saved : Bool) (manifest : ContentManifest r)
      (replicas : List ReplicaRecord) (count epoch : ℕ) (c : ResourceCatalog r)
      → IsValid c
      → IsValid (register json saved manifest replicas count epoch c).0
  unfolding register
  register-IsValid json saved manifest replicas count epoch c v =
      let digest = r.digest manifest.content_id in
      let entry : ResourceCatalogRecord r = record {
        manifest = manifest;
        replicas = replicas;
        reference_count = count;
        retain_until_epoch = epoch;
        repair_required = false;
      } in
      ground (
        arith,
        length-insert digest (refresh entry) c.records,
        keep-IsValid json saved digest (refresh entry) c v (refresh-IsEntry digest entry refl),
      )

  pub record_replica-IsValid :
      (json : CatalogCodec r) (saved : Bool) (id : r.ContentId) (target : ReplicaTarget)
      (status : ReplicaHealth) (epoch : ℕ) (c : ResourceCatalog r)
      → IsValid c
      → IsValid (record_replica json saved id target status epoch c).0
  unfolding record_replica
  record_replica-IsValid json saved id target status epoch c v =
      elim (Option-cases (get (r.digest id) c.records)) [
        | inl e ↦ rw (e, record_replica) v
        | inr (old, e) ↦
            rw (e, record_replica)
              (update-IsValid json saved (r.digest id) _ old c v e
                (λ i. refresh-IsEntry (r.digest id) (record old { replicas = _ }) i.0))
      ]

  -- A record whose content and replicas are the old ones.
  same-IsEntry :
      (digest : Text) (old : ResourceCatalogRecord r) (count epoch : ℕ)
      → IsEntry (digest, old)
      → IsEntry (digest, record old { reference_count = count; retain_until_epoch = epoch })
  unfolding needs_repair
  same-IsEntry digest old count epoch i = (i.0, i.1 ∙ go old.manifest.policy)
    where
      go :
          (policy : ResourcePolicy)
          → needs_repair_by old policy
            ≡ needs_repair_by
                (record old { reference_count = count; retain_until_epoch = epoch })
                policy
      go ephemeral = refl
      go reconstructible = refl
      go (replicated minimum_replicas) = unfold needs_repair_by healthy_copies in refl
      go external_durable = refl

  pub add_reference-IsValid :
      (json : CatalogCodec r) (saved : Bool) (id : r.ContentId) (c : ResourceCatalog r)
      → IsValid c
      → IsValid (add_reference json saved id c).0
  unfolding add_reference
  add_reference-IsValid json saved id c v = elim (Option-cases (get (r.digest id) c.records)) [
    | inl e ↦ rw (e, add_reference) v
    | inr (old, e) ↦
        rw (e, add_reference)
          (elim (Option-cases (checked_add old.reference_count 1)) [
            | inl f ↦ rw f v
            | inr (count, f) ↦ rw f (
                update-IsValid json saved (r.digest id) _ old c v e
                  (same-IsEntry (r.digest id) old count old.retain_until_epoch))
          ])
  ]

  pub release_reference-IsValid :
      (json : CatalogCodec r) (saved : Bool) (id : r.ContentId) (epoch : ℕ) (c : ResourceCatalog r)
      → IsValid c
      → IsValid (release_reference json saved id epoch c).0
  unfolding release_reference
  release_reference-IsValid json saved id epoch c v =
      elim (Option-cases (get (r.digest id) c.records)) [
        | inl e ↦ rw (e, release_reference) v
        | inr (old, e) ↦
            rw (e, release_reference)
              (update-IsValid json saved (r.digest id) _ old c v e
                (same-IsEntry (r.digest id) old _ _))
      ]
