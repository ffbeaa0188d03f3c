-- ===== src/Examples/CatalogRuns.antt =====
-- Runs of the catalog of resource_catalog.rs.
use mutsuki_distributed_host.Base.{
  ℕ, Text, ◌≡◌, refl, true, not, ltb, List, [], ◌∷◌, some, arith, All, inl, text_discrete,
  ℕ_discrete,
}
use mutsuki_distributed_host.Base.Outcome.{Result, ok}
use mutsuki_distributed_host.Base.Map.{Map, get, insert, text_key}
use mutsuki_distributed_host.Contracts.{
  ResourceCatalogRecord, node, replicated, healthy, missing, is_recoverable, healthy_copies,
}
use mutsuki_distributed_host.Catalog.{
  ResourceCatalog, CatalogCodec, persist, absent, open_catalog, add_reference, needs_repair,
  missing_replica_count, minimum_healthy_copies, lookup_content, collect_garbage,
}
use mutsuki_distributed_host.Catalog.Repair.{needs_repair-missing, is_recoverable-needs_repair}
use mutsuki_distributed_host.Catalog.Invariant.{IsValid}
use mutsuki_distributed_host.Catalog.Calls.{adds_reference, call, call-IsValid, call-open}
use mutsuki_distributed_host.Catalog.Copies.{HasCopies, minimum_healthy_copies-le}
use mutsuki_distributed_host.Catalog.Garbage.{collect_garbage-keeps}
use mutsuki_distributed_host.Examples.Sample.{contracts, written_as, written_as-eq}

-- Content 9 with one of two replicas healthy.
abbrev entry : ResourceCatalogRecord contracts
entry = record {
  manifest = record { content_id = 9; chunk_size = 4; chunks = []; policy = replicated 2 };
  replicas =
      record { target = node (97 ∷ []); health = healthy; verified_at_epoch = 1 }
      ∷ record { target = node (98 ∷ []); health = missing; verified_at_epoch = 1 }
      ∷ [];
  reference_count = 1;
  retain_until_epoch = 0;
  repair_required = true;
}

abbrev catalog : ResourceCatalog contracts
catalog = record {
  file = absent;
  records = (9 ∷ [], entry) ∷ [];
  max_records = 2;
  max_repair_jobs = 1;
}

-- The catalog's records with one more reference.
abbrev more_records : Map Text (ResourceCatalogRecord contracts)
more_records = (9 ∷ [], record entry { reference_count = 2 }) ∷ []

abbrev records_discrete : Discrete (Map Text (ResourceCatalogRecord contracts))
records_discrete = hlevel (ℕ_discrete, text_discrete)

-- JSON that knows these records alone.
abbrev json : CatalogCodec contracts
json = record {
  catalog_json = λ records. written_as records_discrete more_records records;
  read_catalog = λ bytes. some more_records;
  read-catalog_json =
      λ records bytes h. written_as-eq records_discrete more_records records bytes h;
}

entry-needs_repair : true ≡ needs_repair entry
unfolding needs_repair healthy_copies
entry-needs_repair = refl

catalog-IsValid : IsValid catalog
unfolding get
catalog-IsValid = record {
  positive = omega arith;
  jobs_positive = omega arith;
  bounded = omega arith;
  unique = (refl, tt);
  entries = ((refl, entry-needs_repair), tt);
}

-- A store that removes what it is asked to.
abbrev drop_from : ℕ → List ℕ → List ℕ × Result (Unit {0})
drop_from id store = (id ∷ store, ok tt)

call-IsValid_example : IsValid (call json drop_from true (adds_reference 9) (catalog, [])).0.0
call-IsValid_example =
    call-IsValid json drop_from true (adds_reference 9) catalog [] catalog-IsValid

call-open_example :
    let after = (call json drop_from true (adds_reference 9) (catalog, [])).0.0 in
    open_catalog json after.file after.max_records after.max_repair_jobs ≡ ok after
unfolding call add_reference get text_discrete ℕ_discrete persist insert
call-open_example =
    call-open json drop_from true (adds_reference 9) catalog [] catalog-IsValid tt refl

collect_garbage-keeps_example :
    let after = (collect_garbage drop_from json true 7 5 catalog []).0.0 in
    IsValid after × (get (9 ∷ []) after.records ≡ some entry)
unfolding get text_discrete ℕ_discrete
collect_garbage-keeps_example =
    collect_garbage-keeps drop_from json true 7 5 catalog [] (9 ∷ []) entry catalog-IsValid refl
      (inl (omega arith))

needs_repair-missing_example : needs_repair entry ≡ ltb 0 (missing_replica_count entry)
needs_repair-missing_example = needs_repair-missing entry

is_recoverable-needs_repair_example : is_recoverable entry ≡ not (needs_repair entry)
is_recoverable-needs_repair_example = is_recoverable-needs_repair entry (λ e. cc)

minimum_healthy_copies-le_example : All (HasCopies catalog 1) (9 ∷ 9 ∷ [])
unfolding minimum_healthy_copies lookup_content get text_discrete ℕ_discrete healthy_copies
minimum_healthy_copies-le_example = minimum_healthy_copies-le catalog 1 (9 ∷ 9 ∷ []) refl
