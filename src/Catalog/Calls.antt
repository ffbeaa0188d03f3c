-- ===== src/Catalog/Calls.antt =====
-- The operations of resource_catalog.rs in one type, with the content store beside the catalog.
use mutsuki_distributed_host.Base.{
  ℕ, ◌≡◌, refl, Bool, false, List, [], ◌∷◌, some, Bytes, arith, length, inl, inr, Option-cases,
  if-either, not, ◌&&◌, leb, checked_add, is_empty,
}
use mutsuki_distributed_host.Base.Outcome.{Result, ok, err, ◌>>=◌, Result-cases}
use mutsuki_distributed_host.Base.Map.{get, contains, text_key}
use mutsuki_distributed_host.Contracts.{
  RuntimeContracts, ContentManifest, ReplicaTarget, ReplicaHealth, ReplicaRecord,
}
use mutsuki_distributed_host.Catalog.{
  ResourceCatalog, CatalogCodec, contents, read_file, open_catalog, persist, keep, register,
  record_replica, add_reference, release_reference, gc_candidates, drop_content, persist_after,
  collect_garbage,
}
use mutsuki_distributed_host.Catalog.Invariant.{
  IsValid, register-IsValid, record_replica-IsValid, add_reference-IsValid,
  release_reference-IsValid,
}
use mutsuki_distributed_host.Catalog.Garbage.{collect_garbage-IsValid}

pub data CatalogCall (r : RuntimeContracts) : Type 0 where
  registers : ContentManifest r → List ReplicaRecord → ℕ → ℕ → CatalogCall r
  records_replica : r.ContentId → ReplicaTarget → ReplicaHealth → ℕ → CatalogCall r
  adds_reference : r.ContentId → CatalogCall r
  releases_reference : r.ContentId → ℕ → CatalogCall r
  collects_garbage : ℕ → ℕ → CatalogCall r

abbrev beside {ℓ} : {A S B : Type ℓ} → S → A × Result B → (A × S) × Result B
beside store x = ((x.0, store), x.1)

abbrev answered {ℓ} : {A B : Type ℓ} → A × Result B → A × Result (Unit {0})
answered x = (x.0, x.1 >>= λ _. ok tt)

module _ {r : RuntimeContracts} {S : Type 0} (json : CatalogCodec r)
    (remove_content : r.ContentId → S → S × Result (Unit {0})) where
  unfoldable pub call :
      Bool → CatalogCall r → ResourceCatalog r × S → (ResourceCatalog r × S) × Result (Unit {0})
  unfolding register record_replica add_reference release_reference collect_garbage
  call saved (registers manifest replicas count epoch) (c, store) =
      beside store (register json saved manifest replicas count epoch c)
  call saved (records_replica id target status epoch) (c, store) =
      beside store (record_replica json saved id target status epoch c)
  call saved (adds_reference id) (c, store) = beside store (add_reference json saved id c)
  call saved (releases_reference id epoch) (c, store) =
      beside store (release_reference json saved id epoch c)
  call saved (collects_garbage now max_items) (c, store) =
      answered (collect_garbage remove_content json saved now max_items c store)

  -- Every operation keeps the catalog well-formed, whether it succeeds or fails, at the disk or the
  -- content store too: within its capacity, one record for each key, each under its digest with its
  -- flag up to date.
  pub call-IsValid :
      (saved : Bool) (op : CatalogCall r) (c : ResourceCatalog r) (store : S)
      → IsValid c
      → IsValid (call saved op (c, store)).0.0
  unfolding call
  call-IsValid saved (registers manifest replicas count epoch) c store v =
      register-IsValid json saved manifest replicas count epoch c v
  call-IsValid saved (records_replica id target status epoch) c store v =
      record_replica-IsValid json saved id target status epoch c v
  call-IsValid saved (adds_reference id) c store v = add_reference-IsValid json saved id c v
  call-IsValid saved (releases_reference id epoch) c store v =
      release_reference-IsValid json saved id epoch c v
  call-IsValid saved (collects_garbage now max_items) c store v =
      collect_garbage-IsValid remove_content json saved now max_items c store v

  -- The file holds the records.
  abbrev IsSaved : ResourceCatalog r → Type 0
  IsSaved c =
      (bytes : Bytes) × (c.file ≡ contents bytes) × (json.catalog_json c.records ≡ some bytes)

  -- What returned Ok has saved the records.
  abbrev Saves {κ} : {A : Type κ} → ResourceCatalog r × Result A → Type κ
  Saves x = (a : _) → x.1 ≡ ok a → IsSaved x.0

  persist-Saves : (saved : Bool) (c : ResourceCatalog r) → Saves (persist json saved c)
  unfolding persist
  persist-Saves saved c = elim (Option-cases (json.catalog_json c.records)) [
    | inl e ↦ rw (e, persist) (λ a h. absurd cc)
    | inr (bytes, e) ↦
        rw (e, persist)
          (if-either (λ (x : ResourceCatalog r × Result (Unit {0})). Saves x) saved
            (λ a h. (bytes, refl, e)) (λ a h. absurd cc))
  ]

  register-Saves :
      (saved : Bool) (manifest : ContentManifest r) (replicas : List ReplicaRecord)
      (count epoch : ℕ) (c : ResourceCatalog r)
      → Saves (register json saved manifest replicas count epoch c)
  unfolding register keep
  register-Saves saved manifest replicas count epoch c =
      if-either (λ (x : ResourceCatalog r × Result (Unit {0})). Saves x)
        (not (contains (r.digest manifest.content_id) c.records)
          && leb c.max_records (length c.records))
        (λ a h. absurd cc) (persist-Saves saved _)

  record_replica-Saves :
      (saved : Bool) (id : r.ContentId) (target : ReplicaTarget) (status : ReplicaHealth)
      (epoch : ℕ) (c : ResourceCatalog r)
      → Saves (record_replica json saved id target status epoch c)
  unfolding record_replica keep
  record_replica-Saves saved id target status epoch c =
      elim (Option-cases (get (r.digest id) c.records)) [
        | inl e ↦ rw (e, record_replica) (λ a h. absurd cc)
        | inr (old, e) ↦ rw (e, record_replica) (persist-Saves saved _)
      ]

  add_reference-Saves :
      (saved : Bool) (id : r.ContentId) (c : ResourceCatalog r)
      → Saves (add_reference json saved id c)
  unfolding add_reference keep
  add_reference-Saves saved id c = elim (Option-cases (get (r.digest id) c.records)) [
    | inl e ↦ rw (e, add_reference) (λ a h. absurd cc)
    | inr (old, e) ↦
        rw (e, add_reference)
          (elim (Option-cases (checked_add old.reference_count 1)) [
            | inl f ↦ rw f (λ a h. absurd cc)
            | inr (count, f) ↦ rw f (persist-Saves saved _)
          ])
  ]

  release_reference-Saves :
      (saved : Bool) (id : r.ContentId) (epoch : ℕ) (c : ResourceCatalog r)
      → Saves (release_reference json saved id epoch c)
  unfolding release_reference keep
  release_reference-Saves saved id epoch c = elim (Option-cases (get (r.digest id) c.records)) [
    | inl e ↦ rw (e, release_reference) (λ a h. absurd cc)
    | inr (old, e) ↦ rw (e, release_reference) (persist-Saves saved _)
  ]

  persist_after-saves :
      (saved : Bool) (ids : List r.ContentId) (s : ResourceCatalog r × S) (done : Result (Unit {0}))
      (removed : List r.ContentId)
      → is_empty ids ≡ false
      → (persist_after remove_content json saved ids (s, done)).1 ≡ ok removed
      → IsSaved (persist_after remove_content json saved ids (s, done)).0.0
  unfolding persist_after
  persist_after-saves saved [] s done removed some_id h = absurd cc
  persist_after-saves saved (first ∷ rest) (c, store) (err e) removed some_id h = absurd cc
  persist_after-saves saved (first ∷ rest) (c, store) (ok done) removed some_id h =
      elim (Result-cases (persist json saved c).1) [
        | inl (a, e) ↦ persist-Saves saved c a e
        | inr (kind, e) ↦ absurd (ground arith)
      ]

  -- The operations that write the file where they succeed: all but a collection that finds nothing
  -- to remove.
  abbrev pub IsWriting : CatalogCall r → ResourceCatalog r → Type 0
  IsWriting (collects_garbage now max_items) c = is_empty (gc_candidates now max_items c) ≡ false
  IsWriting op c = Unit

  call-saves :
      (saved : Bool) (op : CatalogCall r) (c : ResourceCatalog r) (store : S)
      → IsWriting op c
      → (call saved op (c, store)).1 ≡ ok tt
      → IsSaved (call saved op (c, store)).0.0
  unfolding call collect_garbage
  call-saves saved (registers manifest replicas count epoch) c store w h =
      register-Saves saved manifest replicas count epoch c tt h
  call-saves saved (records_replica id target status epoch) c store w h =
      record_replica-Saves saved id target status epoch c tt h
  call-saves saved (adds_reference id) c store w h = add_reference-Saves saved id c tt h
  call-saves saved (releases_reference id epoch) c store w h =
      release_reference-Saves saved id epoch c tt h
  call-saves saved (collects_garbage now max_items) c store w h =
      let ids = gc_candidates now max_items c in
      let dropped = drop_content remove_content ids (c, store) in
      elim (Result-cases (collect_garbage remove_content json saved now max_items c store).1) [
        | inl (removed, e) ↦ persist_after-saves saved ids dropped.0 dropped.1 removed w e
        | inr (kind, e) ↦ absurd (ground arith)
      ]

  -- A valid catalog whose file holds its records is what `open` makes of the file.
  open-saved :
      (c : ResourceCatalog r)
      → IsValid c
      → IsSaved c
      → open_catalog json c.file c.max_records c.max_repair_jobs ≡ ok c
  unfolding open_catalog read_file
  open-saved c v (bytes, e, written) =
      rw (e, json.read-catalog_json c.records bytes written) (ground arith)

  -- After an operation on a well-formed catalog that returned Ok, opening the file with the same
  -- limits gives the catalog that is in memory, except after a collection that found nothing to
  -- remove, which does not write.
  pub call-open :
      (saved : Bool) (op : CatalogCall r) (c : ResourceCatalog r) (store : S)
      → IsValid c
      → IsWriting op c
      → (call saved op (c, store)).1 ≡ ok tt
      → let after = (call saved op (c, store)).0.0 in
        open_catalog json after.file after.max_records after.max_repair_jobs ≡ ok after
  call-open saved op c store v w h =
      open-saved (call saved op (c, store)).0.0 (call-IsValid saved op c store v)
        (call-saves saved op c store w h)
