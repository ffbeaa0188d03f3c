-- ===== src/Catalog/Copies.antt =====
-- Counting healthy copies in resource_catalog.rs: what the minimum promises of each input.
use mutsuki_distributed_host.Base.{
  ℕ, ◌≤◌, ◌≡◌, List, [], ◌∷◌, some, arith, All, min, u64_max, inl, inr, Option-cases,
}
use mutsuki_distributed_host.Base.Outcome.{ok}
use mutsuki_distributed_host.Contracts.{RuntimeContracts, ResourceCatalogRecord, healthy_copies}
use mutsuki_distributed_host.Catalog.{
  ResourceCatalog, lookup_content, minimum_from, minimum_healthy_copies,
}

module _ {r : RuntimeContracts} where
  -- The input is known, and has at least so many healthy copies.
  abbrev pub HasCopies : ResourceCatalog r → ℕ → r.ContentId → Type 0
  HasCopies c n input =
      (entry : ResourceCatalogRecord r) × (lookup_content c input ≡ some entry)
      × (n ≤ healthy_copies entry)

  minimum_from-le :
      (c : ResourceCatalog r) (start n : ℕ) (inputs : List r.ContentId)
      → minimum_from c start inputs ≡ ok n
      → (n ≤ start) × All (HasCopies c n) inputs
  unfolding minimum_from
  minimum_from-le c start n [] h = (ground arith, tt)
  minimum_from-le c start n (input ∷ rest) h = elim (Option-cases (lookup_content c input)) [
    | inl e ↦ absurd (ground arith)
    | inr (entry, e) ↦
        let (low, good) =
          minimum_from-le c (min start (healthy_copies entry)) n rest (ground arith) in
        (omega arith, ((entry, e, omega arith), good))
  ]

  -- Where the minimum of a list of inputs is given, every input is in the catalog and has at
  -- least that many healthy copies.
  pub minimum_healthy_copies-le :
      (c : ResourceCatalog r) (n : ℕ) (inputs : List r.ContentId)
      → minimum_healthy_copies c inputs ≡ ok n
      → All (HasCopies c n) inputs
  unfolding minimum_healthy_copies
  minimum_healthy_copies-le c n [] h = tt
  minimum_healthy_copies-le c n (input ∷ rest) h = (minimum_from-le c u64_max n (input ∷ rest) h).1
