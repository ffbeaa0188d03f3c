-- ===== src/Audit/Inclusion.antt =====
-- The proofs of inclusion of trust_audit.rs against the Merkle root.
use mutsuki_distributed_host.Base.{
  ℕ, zero, suc, ◌+◌, ◌/◌, ◌<◌, ◌≤◌, ◌≡◌, refl, ap, ◌∙◌, inl, inr, Bool, true, List, [], ◌∷◌, some,
  Text, ltb, length, get_elem?, arith, Bool-cases,
}
use mutsuki_distributed_host.Base.Outcome.{ok}
use mutsuki_distributed_host.Base.Map.{text_key, is_self}
use mutsuki_distributed_host.Registry.Frame.{Sha256}
use mutsuki_distributed_host.Audit.Merkle.{
  AuditSegment, AuditInclusionProof, next_merkle_level, merkle_loop, merkle_root, sibling_index,
  with_sibling, siblings_loop, proof_of, inclusion_proof, climb, climb_all, verify_inclusion,
}

get_elem?-lt {ℓ} :
    {A : Type ℓ} (xs : List A) (i : ℕ) → i < length xs → (x : A) × (get_elem? xs i ≡ some x)
get_elem?-lt [] i h = absurd (omega arith)
get_elem?-lt (x ∷ xs) zero h = (x, refl)
get_elem?-lt (x ∷ xs) (suc i) h = get_elem?-lt xs i (omega arith)

module _ (sha : Sha256) where
  pub length-next_merkle_level :
      (level : List Text) → length (next_merkle_level sha level) ≡ (length level + 1) / 2
  unfolding next_merkle_level
  length-next_merkle_level [] = refl
  length-next_merkle_level (a ∷ []) = refl
  length-next_merkle_level (a ∷ b ∷ rest) = omega (arith, length-next_merkle_level rest)

  -- A leaf, the one beside it and their parent.
  abbrev pub HasParent : List Text → ℕ → Type 0
  HasParent level i =
      (x : Text) × (y : Text) × (get_elem? level i ≡ some x)
      × (get_elem? level (sibling_index level i) ≡ some y)
      × (get_elem? (next_merkle_level sha level) (i / 2)
          ≡ some (climb sha x (y, ltb (sibling_index level i) i)))

  sibling_index-later :
      (a b : Text) (rest : List Text) (i : ℕ)
      → i < length rest
      → sibling_index (a ∷ b ∷ rest) (suc (suc i)) ≡ suc (suc (sibling_index rest i))
  unfolding sibling_index
  sibling_index-later a b rest i h = ground arith

  sibling_index-first : (a b : Text) (rest : List Text) → sibling_index (a ∷ b ∷ rest) 0 ≡ 1
  unfolding sibling_index
  sibling_index-first a b rest = ground arith

  two_later : (a b : ℕ) → ltb (suc (suc a)) (suc (suc b)) ≡ ltb a b
  two_later a b = ground arith

  half_later : (i : ℕ) → suc (suc i) / 2 ≡ suc (i / 2)
  half_later i = omega arith

  has_parent : (level : List Text) (i : ℕ) → i < length level → HasParent level i
  unfolding next_merkle_level sibling_index climb
  has_parent [] i h = absurd (omega arith)
  has_parent (a ∷ []) zero h = (a, a, refl, refl, refl)
  has_parent (a ∷ []) (suc i) h = absurd (omega arith)
  has_parent (a ∷ b ∷ rest) zero h = rw (sibling_index-first a b rest) (a, b, refl, refl, refl)
  has_parent (a ∷ b ∷ rest) (suc zero) h = (b, a, refl, refl, refl)
  has_parent (a ∷ b ∷ rest) (suc (suc i)) h =
      let (x, y, hx, hy, hp) : HasParent rest i = has_parent rest i (omega arith) in
      rw (sibling_index-later a b rest i (omega arith), two_later, half_later) (x, y, hx, hy, hp)

  -- The siblings of a leaf lead to the root, with as much fuel as leaves.
  abbrev pub Climbs : ℕ → List Text → ℕ → Type 0
  Climbs fuel level i =
      (x : Text) × (steps : List (Text × Bool)) × (get_elem? level i ≡ some x)
      × (siblings_loop sha fuel level i ≡ some steps)
      × (merkle_loop sha fuel level ≡ some (climb_all sha x steps))

  climb_on :
      (fuel i : ℕ) (level : List Text)
      → ltb 1 (length level) ≡ true
      → HasParent level i
      → Climbs fuel (next_merkle_level sha level) (i / 2)
      → Climbs (suc fuel) level i
  unfolding siblings_loop merkle_loop with_sibling climb_all
  climb_on fuel i level more (x, y, hx, hy, hp) (z, steps, hz, hs, hm) =
      let e : z ≡ climb sha x (y, ltb (sibling_index level i) i) = cc in
      rw (more, hy, hs)
        (
          x,
          (y, ltb (sibling_index level i) i) ∷ steps,
          hx,
          refl,
          hm ∙ ap (λ w. some (climb_all sha w steps)) e,
        )

  pub climbs :
      (fuel i : ℕ) (level : List Text)
      → length level ≤ fuel
      → i < length level
      → Climbs fuel level i
  unfolding siblings_loop merkle_loop climb_all
  climbs zero i level enough h = absurd (omega arith)
  climbs (suc fuel) i level enough h = elim (Bool-cases (ltb 1 (length level))) [
    | inl more ↦ climb_on fuel i level more (has_parent level i h) (
        climbs fuel (i / 2) (next_merkle_level sha level)
          (ground (arith, length-next_merkle_level level))
          (ground (arith, length-next_merkle_level level)))
    | inr done ↦
        let (x, hx) : (x : Text) × (get_elem? level i ≡ some x) = get_elem?-lt level i h in
        let first : i ≡ 0 = ground arith in rw done (x, [], hx, refl, rw (← first) hx)
  ]

  abbrev with_steps : AuditSegment → ℕ → Text → List (Text × Bool) → AuditInclusionProof
  with_steps segment i leaf steps = record {
    segment_id = segment.segment_id;
    leaf_index = i;
    leaf_hash = leaf;
    siblings = steps;
    merkle_root = segment.merkle_root;
  }

  -- A proof for a leaf is made and accepted.
  abbrev pub IsProved : AuditSegment → ℕ → Type 0
  IsProved segment i =
      (proof : AuditInclusionProof) × (inclusion_proof sha segment i ≡ some (ok proof))
      × (verify_inclusion sha proof ≡ true)
      × (get_elem? segment.leaf_hashes i ≡ some proof.leaf_hash)
      × (proof.leaf_index ≡ i)
      × (proof.segment_id ≡ segment.segment_id)
      × (proof.merkle_root ≡ segment.merkle_root)

  Climbs-IsProved :
      (segment : AuditSegment) (i : ℕ)
      → merkle_loop sha (length segment.leaf_hashes) segment.leaf_hashes ≡ some segment.merkle_root
      → Climbs (length segment.leaf_hashes) segment.leaf_hashes i
      → IsProved segment i
  unfolding inclusion_proof verify_inclusion proof_of
  Climbs-IsProved segment i root (x, steps, hx, hs, hm) =
      let e : climb_all sha x steps ≡ segment.merkle_root = cc in
      (
        with_steps segment i x steps,
        rw (hx, inclusion_proof, hs) refl,
        rw e (is_self segment.merkle_root),
        hx,
        refl,
        refl,
        refl,
      )

  -- A segment with the root of its leaves gives for each of them, by its index, a proof that is
  -- accepted: no index is out of range and the loops end.
  pub inclusion_proof-verifies :
      (segment : AuditSegment) (i : ℕ)
      → merkle_root sha segment.leaf_hashes ≡ some segment.merkle_root
      → i < length segment.leaf_hashes
      → IsProved segment i
  unfolding merkle_root
  inclusion_proof-verifies segment i root h =
      Climbs-IsProved segment i (ground arith)
        (climbs (length segment.leaf_hashes) i segment.leaf_hashes (omega arith) h)
