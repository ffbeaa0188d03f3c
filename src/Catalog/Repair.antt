-- ===== src/Catalog/Repair.antt =====
-- Repair planning of resource_catalog.rs: the flag against the count of missing copies, and the
-- budget of a plan.
use mutsuki_distributed_host.Base.{
  ℕ, ◌+◌, ◌≤◌, ◌<◌, ◌≡◌, List, [], ◌∷◌, arith, ltb, not, refl, ◌≢◌, length, All,
}
use mutsuki_distributed_host.Base.Map.{text_key}
use mutsuki_distributed_host.Contracts.{
  RuntimeContracts, ResourcePolicy, ephemeral, reconstructible, replicated, external_durable,
  ResourceCatalogRecord, is_recoverable, recoverable_by,
}
use mutsuki_distributed_host.Catalog.{
  RepairJob, needs_repair, needs_repair_by, missing_replica_count, missing_by,
}

module _ {r : RuntimeContracts} where
  needs-missing_by :
      (entry : ResourceCatalogRecord r) (policy : ResourcePolicy)
      → needs_repair_by entry policy ≡ ltb 0 (missing_by entry policy)
  unfolding needs_repair_by missing_by
  needs-missing_by entry ephemeral = ground arith
  needs-missing_by entry reconstructible = ground arith
  needs-missing_by entry (replicated minimum_replicas) = ground arith
  needs-missing_by entry external_durable = ground arith

  -- A record is flagged for repair exactly when the planner counts a missing copy of it.
  pub needs_repair-missing :
      (entry : ResourceCatalogRecord r) → needs_repair entry ≡ ltb 0 (missing_replica_count entry)
  unfolding needs_repair missing_replica_count
  needs_repair-missing entry = needs-missing_by entry entry.manifest.policy

  -- A flagged record is not recoverable; an unflagged one is, unless it is ephemeral.
  pub is_recoverable-needs_repair :
      (entry : ResourceCatalogRecord r)
      → entry.manifest.policy ≢ ephemeral
      → is_recoverable entry ≡ not (needs_repair entry)
  unfolding is_recoverable needs_repair
  is_recoverable-needs_repair entry h = go entry.manifest.policy h
    where
      go :
          (policy : ResourcePolicy)
          → policy ≢ ephemeral
          → recoverable_by entry policy ≡ not (needs_repair_by entry policy)
      go ephemeral h = absurd (h refl)
      go reconstructible h = refl
      go (replicated minimum_replicas) h = ground arith
      go external_durable h = ground arith

  -- The bytes that a plan moves.
  abbrev pub total_bytes : List (RepairJob r) → ℕ
  total_bytes [] = 0
  total_bytes (job ∷ jobs) = job.estimated_bytes + total_bytes jobs

  -- The plan of a budget, from the bytes already spent.
  abbrev IsPlan : ℕ → ℕ → ℕ → List (RepairJob r) → Type 0
  IsPlan max_bytes bytes jobs plan =
      (bytes + total_bytes plan ≤ max_bytes)
      × (length plan ≤ jobs)
      × All (λ job. (0 < job.missing_copies) × (0 < job.estimated_bytes)) plan
