-- ===== src/Audit/Binding.antt =====
-- What a Merkle root of trust_audit.rs binds: the leaf of an accepted proof, up to a collision of
-- the digest, but not the number of the leaves.
use mutsuki_distributed_host.Base.{
  ℕ, zero, suc, ◌%◌, ◌<◌, ◌≤◌, ◌≡◌, ◌≢◌, ◌⊎◌, refl, ap, sym, ◌∙◌, inl, inr, Bool, true, false, List,
  [], ◌∷◌, ◌++◌, some, Text, Bytes, length, take, drop, take-append, drop-append, arith,
  text_discrete, length-append,
}
use mutsuki_distributed_host.Base.Map.{◌is◌, text_key}
use mutsuki_distributed_host.Base.Encoding.{length-to_hex}
use mutsuki_distributed_host.Registry.Frame.{Sha256}
use mutsuki_distributed_host.Audit.Merkle.{
  AuditInclusionProof, digest_hex, hash_pair, next_merkle_level, merkle_loop, merkle_root, climb,
  climb_all, verify_inclusion,
}
use mutsuki_distributed_host.Audit.Inclusion.{length-next_merkle_level, Climbs, climbs}

-- Siblings on the same sides and of the same lengths.
abbrev pub SameShape : List (Text × Bool) → List (Text × Bool) → Type 0
SameShape [] [] = Unit
SameShape [] (q ∷ qs) = ⊥
SameShape (p ∷ ps) [] = ⊥
SameShape (p ∷ ps) (q ∷ qs) = (length p.0 ≡ length q.0) × (p.1 ≡ q.1) × SameShape ps qs

append-cancel : (l r l' r' : Text) → length l ≡ length l' → l ++ r ≡ l' ++ r' → (l ≡ l') × (r ≡ r')
append-cancel l r l' r' h e = (
  sym (take-append l r)
      ∙ (ap (take (length l)) e ∙ (ap (λ n. take n (l' ++ r')) h ∙ take-append l' r')),
  sym (drop-append l r)
      ∙ (ap (drop (length l)) e ∙ (ap (λ n. drop n (l' ++ r')) h ∙ drop-append l' r')),
)

pub accepted : (x y : Text) → (x is y) ≡ true → x ≡ y
accepted x y h = elim (text_discrete x y) [ yes e ↦ e | no n ↦ absurd (ground arith) ]

module _ (sha : Sha256) where
  -- Two inputs with one digest.
  abbrev pub Collision : Type 0
  Collision = (x : Bytes) × (y : Bytes) × (x ≢ y) × (digest_hex sha x ≡ digest_hex sha y)

  length-digest_hex : (bytes : Bytes) → length (digest_hex sha bytes) ≡ 64
  unfolding digest_hex
  length-digest_hex bytes = omega (arith, length-to_hex (sha.digest bytes), sha.digest_length bytes)

  hash_pair-binds :
      (l r l' r' : Text)
      → length l ≡ length l'
      → hash_pair sha l r ≡ hash_pair sha l' r'
      → ((l ≡ l') × (r ≡ r')) ⊎ Collision
  unfolding hash_pair
  hash_pair-binds l r l' r' h e = elim (text_discrete (l ++ 58 ∷ r) (l' ++ 58 ∷ r')) [
    | yes same ↦
        let (hl, hr) : (l ≡ l') × (58 ∷ r ≡ 58 ∷ r') =
          append-cancel l (58 ∷ r) l' (58 ∷ r') h same in
        inl (hl, cc)
    | no other ↦ inr (l ++ 58 ∷ r, l' ++ 58 ∷ r', other, e)
  ]

  climb-binds :
      (a b : Text) (p q : Text × Bool)
      → length a ≡ length b
      → length p.0 ≡ length q.0
      → p.1 ≡ q.1
      → climb sha a p ≡ climb sha b q
      → ((a ≡ b) × (p ≡ q)) ⊎ Collision
  unfolding climb
  climb-binds a b (s, true) (t, true) ha hp side e = elim (hash_pair-binds s a t b hp e) [
    | inl same ↦ inl (same.1, ap (λ u. (u, true)) same.0)
    | inr c ↦ inr c
  ]
  climb-binds a b (s, false) (t, false) ha hp side e = elim (hash_pair-binds a s b t ha e) [
    | inl same ↦ inl (same.0, ap (λ u. (u, false)) same.1)
    | inr c ↦ inr c
  ]
  climb-binds a b (s, true) (t, false) ha hp side e = absurd cc
  climb-binds a b (s, false) (t, true) ha hp side e = absurd cc

  length-climb : (a : Text) (p : Text × Bool) → length (climb sha a p) ≡ 64
  unfolding climb hash_pair
  length-climb a (s, true) = length-digest_hex (s ++ 58 ∷ a)
  length-climb a (s, false) = length-digest_hex (a ++ 58 ∷ s)

  climb_all-binds :
      (a b : Text) (ps qs : List (Text × Bool))
      → length a ≡ length b
      → SameShape ps qs
      → climb_all sha a ps ≡ climb_all sha b qs
      → ((a ≡ b) × (ps ≡ qs)) ⊎ Collision
  unfolding climb_all
  climb_all-binds a b [] [] h s e = inl (e, refl)
  climb_all-binds a b [] (q ∷ qs) h s e = absurd s
  climb_all-binds a b (p ∷ ps) [] h s e = absurd s
  climb_all-binds a b (p ∷ ps) (q ∷ qs) h (hs, side, rest) e =
      elim (climb_all-binds (climb sha a p) (climb sha b q) ps qs
        (length-climb a p ∙ sym (length-climb b q)) rest e) [
          | inr c ↦ inr c
          | inl same ↦ elim (climb-binds a b p q h hs side same.0) [
            | inr c ↦ inr c
            | inl here ↦ inl (here.0, cc (here.1, same.1))
          ]
        ]

  -- Two accepted proofs of one root, with siblings on the same sides, and leaves and siblings of
  -- the same lengths, are about the same leaf hash with the same siblings, or they give two inputs
  -- with one digest.
  pub verify_inclusion-binds :
      (p q : AuditInclusionProof)
      → verify_inclusion sha p ≡ true
      → verify_inclusion sha q ≡ true
      → p.merkle_root ≡ q.merkle_root
      → length p.leaf_hash ≡ length q.leaf_hash
      → SameShape p.siblings q.siblings
      → ((p.leaf_hash ≡ q.leaf_hash) × (p.siblings ≡ q.siblings)) ⊎ Collision
  unfolding verify_inclusion
  verify_inclusion-binds p q hp hq root h s =
      climb_all-binds p.leaf_hash q.leaf_hash p.siblings q.siblings h s (
        accepted (climb_all sha p.leaf_hash p.siblings) p.merkle_root hp
        ∙ (root ∙ sym (accepted (climb_all sha q.leaf_hash q.siblings) q.merkle_root hq)))

  next_merkle_level-repeated :
      (xs : List Text) (z : Text)
      → length xs % 2 ≡ 0
      → next_merkle_level sha (xs ++ z ∷ []) ≡ next_merkle_level sha (xs ++ z ∷ z ∷ [])
  unfolding next_merkle_level
  next_merkle_level-repeated [] z h = refl
  next_merkle_level-repeated (x ∷ []) z h = absurd (omega arith)
  next_merkle_level-repeated (x ∷ y ∷ xs) z h =
      ap (◌∷◌ (hash_pair sha x y)) (next_merkle_level-repeated xs z (omega arith))

  -- More fuel than leaves changes nothing.
  merkle_loop-fuel :
      (f g : ℕ) (level : List Text)
      → length level ≤ f
      → length level ≤ g
      → 0 < length level
      → merkle_loop sha f level ≡ merkle_loop sha g level
  unfolding merkle_loop
  merkle_loop-fuel zero g level hf hg h = absurd (omega arith)
  merkle_loop-fuel (suc f) zero level hf hg h = absurd (omega arith)
  merkle_loop-fuel (suc f) (suc g) level hf hg h = ground (
    arith,
    length-next_merkle_level sha level,
    merkle_loop-fuel f g (next_merkle_level sha level),
  )

  merkle_root-first :
      (x y : Text) (rest : List Text)
      → merkle_root sha (x ∷ y ∷ rest)
        ≡ merkle_loop sha (suc (length rest)) (next_merkle_level sha (x ∷ y ∷ rest))
  unfolding merkle_root merkle_loop
  merkle_root-first x y rest = ground arith

  -- The root of an odd number of leaves, at least three, is also the root of these leaves with the
  -- last one repeated.
  pub merkle_root-repeated :
      (x y z : Text) (rest : List Text)
      → length rest % 2 ≡ 0
      → merkle_root sha (x ∷ y ∷ rest ++ z ∷ []) ≡ merkle_root sha (x ∷ y ∷ rest ++ z ∷ z ∷ [])
  merkle_root-repeated x y z rest h =
      let once : List Text = rest ++ z ∷ [] in
      let twice : List Text = rest ++ z ∷ z ∷ [] in
      let level : List Text = next_merkle_level sha (x ∷ y ∷ once) in
      merkle_root-first x y once
      ∙ (merkle_loop-fuel (suc (length once)) (suc (length twice)) level
            (omega (arith, length-next_merkle_level sha (x ∷ y ∷ once)))
            (omega (
              arith,
              length-next_merkle_level sha (x ∷ y ∷ once),
              length-append rest (z ∷ []),
              length-append rest (z ∷ z ∷ []),
            ))
            (omega (arith, length-next_merkle_level sha (x ∷ y ∷ once)))
          ∙ (ap (merkle_loop sha (suc (length twice)))
                (next_merkle_level-repeated (x ∷ y ∷ rest) z (omega arith))
              ∙ sym (merkle_root-first x y twice)))

  -- Every list of leaves has a root: the loop ends within as many rounds as leaves.
  pub merkle_root-total :
      (leaves : List Text) → (root : Text) × (merkle_root sha leaves ≡ some root)
  unfolding merkle_root
  merkle_root-total [] = (_, refl)
  merkle_root-total (x ∷ rest) =
      root_of (climbs sha (suc (length rest)) 0 (x ∷ rest) (omega arith) (omega arith))
    where
      root_of :
          Climbs sha (suc (length rest)) (x ∷ rest) 0
          → (root : Text) × (merkle_loop sha (suc (length rest)) (x ∷ rest) ≡ some root)
      root_of (leaf, steps, hx, hs, hm) = (climb_all sha leaf steps, hm)
