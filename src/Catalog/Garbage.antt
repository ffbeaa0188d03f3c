-- ===== src/Catalog/Garbage.antt =====
-- Garbage collection of resource_catalog.rs: what it may remove, and what it leaves.
use mutsuki_distributed_host.Base.{
  ℕ, ◌≤◌, ◌<◌, ◌≡◌, ◌≢◌, refl, ap, ◌∙◌, sym, Bool, List, [], ◌∷◌, some, Text, arith, All,
  All-filter, All-take, All-mono, All-map, ◌⊎◌, inl, inr, filter, take, if_neg, text_discrete,
}
use mutsuki_distributed_host.Base.Outcome.{Result, ok, err, Result-cases}
use mutsuki_distributed_host.Base.Map.{
  Map, get, text_key, values, All-found, All-remove, get-remove, length-remove-le, remove-IsUnique,
}
use mutsuki_distributed_host.Contracts.{RuntimeContracts, ResourceCatalogRecord}
use mutsuki_distributed_host.Catalog.{
  ResourceCatalog, is_garbage, gc_candidates, drop_content, persist_after, CatalogCodec,
  CatalogFile, collect_garbage,
}
use mutsuki_distributed_host.Catalog.Invariant.{IsEntry, IsValid, persist-memory}

module _ {r : RuntimeContracts} where
  -- In a well-formed catalog, a value is found under the digest of its content.
  values-found :
      (m n : Map Text (ResourceCatalogRecord r))
      → All (λ e. get e.0 m ≡ some e.1) n
      → All IsEntry n
      → All (λ v. get (r.digest v.manifest.content_id) m ≡ some v) (values n)
  values-found m [] a b = tt
  values-found m ((k, v) ∷ n) a b = (rw (← b.0.0) a.0, values-found m n a.1 b.1)

  -- The record of a candidate has no reference and is past its retention.
  pub candidates-garbage :
      (now max_items : ℕ) (c : ResourceCatalog r)
      → IsValid c
      → All
          (λ id.
            (v : ResourceCatalogRecord r) × (get (r.digest id) c.records ≡ some v)
            × (v.reference_count ≡ 0)
            × (v.retain_until_epoch ≤ now))
          (gc_candidates now max_items c)
  unfolding gc_candidates is_garbage
  candidates-garbage now max_items c v =
      All-map _ (λ e. e.manifest.content_id)
        (take max_items (filter (is_garbage now) (values c.records)))
        (All-take _ max_items (filter (is_garbage now) (values c.records)) (
          All-mono _ _ (filter (is_garbage now) (values c.records))
            (λ e h. (e, h.0, ground (arith, h.1), ground (arith, h.1)))
            (All-filter _ (is_garbage now) (values c.records)
              (values-found c.records c.records (All-found c.records v.unique) v.entries))))

  module _ {S : Type 0} (remove_content : r.ContentId → S → S × Result (Unit {0})) where
    drop-get :
        (d : Text) (ids : List r.ContentId) (c : ResourceCatalog r) (store : S)
        → All (λ id. r.digest id ≢ d) ids
        → get d (drop_content remove_content ids (c, store)).0.0.records ≡ get d c.records
    unfolding drop_content
    drop-get d [] c store a = refl
    drop-get d (id ∷ rest) c store a = elim (Result-cases (remove_content id store).1) [
      | inl (done, e) ↦
          rw (e, drop_content)
            (drop-get d rest _ _ a.1
              ∙ get-remove (r.digest id) d c.records
              ∙ if_neg (text_discrete (r.digest id) d) a.0 _ _)
      | inr (kind, e) ↦ rw (e, drop_content)
    ]

    drop-IsValid :
        (ids : List r.ContentId) (c : ResourceCatalog r) (store : S)
        → IsValid c
        → IsValid (drop_content remove_content ids (c, store)).0.0
    unfolding drop_content
    drop-IsValid [] c store v = v
    drop-IsValid (id ∷ rest) c store v = elim (Result-cases (remove_content id store).1) [
      | inl (done, e) ↦
          rw (e, drop_content)
            (drop-IsValid rest _ _ (record {
              positive = v.positive;
              jobs_positive = v.jobs_positive;
              bounded = omega (arith, length-remove-le (r.digest id) c.records);
              unique = remove-IsUnique (r.digest id) c.records v.unique;
              entries = All-remove IsEntry (r.digest id) c.records v.entries;
            }))
      | inr (kind, e) ↦ rw (e, drop_content) v
    ]

    -- The write at the end changes the file alone.
    persist_after-memory :
        (P : ResourceCatalog r → Type 0) (json : CatalogCodec r) (saved : Bool)
        (ids : List r.ContentId) (s : ResourceCatalog r × S) (done : Result (Unit {0}))
        → ((file : CatalogFile) → P (record s.0 { file = file }))
        → P (persist_after remove_content json saved ids (s, done)).0.0
    unfolding persist_after
    persist_after-memory P json saved ids (c, store) (err kind) keeps = keeps c.file
    persist_after-memory P json saved [] (c, store) (ok done) keeps = keeps c.file
    persist_after-memory P json saved (id ∷ rest) (c, store) (ok done) keeps =
        persist-memory P json saved c keeps

    pub collect_garbage-IsValid :
        (json : CatalogCodec r) (saved : Bool) (now max_items : ℕ) (c : ResourceCatalog r)
        (store : S)
        → IsValid c
        → IsValid (collect_garbage remove_content json saved now max_items c store).0.0
    unfolding collect_garbage
    collect_garbage-IsValid json saved now max_items c store v =
        let ids = gc_candidates now max_items c in
        let dropped = drop_content remove_content ids (c, store) in
        let valid = drop-IsValid ids c store v in
        persist_after-memory IsValid json saved ids dropped.0 dropped.1 (λ file. record {
          positive = valid.positive;
          jobs_positive = valid.jobs_positive;
          bounded = valid.bounded;
          unique = valid.unique;
          entries = valid.entries;
        })

    -- A collection keeps the catalog well-formed, also where removing content or the write fails,
    -- and a record that is referenced or still retained stays as it was.
    pub collect_garbage-keeps :
        (json : CatalogCodec r) (saved : Bool) (now max_items : ℕ) (c : ResourceCatalog r)
        (store : S) (d : Text) (entry : ResourceCatalogRecord r)
        → IsValid c
        → get d c.records ≡ some entry
        → (0 < entry.reference_count) ⊎ (now < entry.retain_until_epoch)
        → let after = (collect_garbage remove_content json saved now max_items c store).0.0 in
          IsValid after × (get d after.records ≡ some entry)
    unfolding collect_garbage
    collect_garbage-keeps json saved now max_items c store d entry v e h =
        let ids = gc_candidates now max_items c in
        let dropped = drop_content remove_content ids (c, store) in
        let others : All (λ id. r.digest id ≢ d) ids =
          All-mono _ _ ids
            (λ id (w, f, zero_count, past) g.
              live w (sym f ∙ ap (λ x. get x c.records) g ∙ e) zero_count past)
            (candidates-garbage now max_items c v) in
        (
          collect_garbage-IsValid json saved now max_items c store v,
          persist_after-memory (λ a. get d a.records ≡ some entry) json saved ids dropped.0
              dropped.1 (λ file. drop-get d ids c store others ∙ e),
        )
      where
        live :
            (w : ResourceCatalogRecord r)
            → some w ≡ some entry
            → w.reference_count ≡ 0
            → w.retain_until_epoch ≤ now
            → ⊥
        live w f zero_count past = ground arith
