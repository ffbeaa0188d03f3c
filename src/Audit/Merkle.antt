-- ===== src/Audit/Merkle.antt =====
-- The Merkle tree of a segment in trust_audit.rs: its root, the proof that a leaf is included, and
-- the check of such a proof. `none` stands for a loop out of fuel or an index out of range.
use mutsuki_distributed_host.Base.{
  ℕ, zero, suc, ◌+◌, ◌-◌, ◌/◌, ◌%◌, min, Bool, true, false, List, [], ◌∷◌, ◌++◌, Option, none, some,
  Text, Bytes, ltb, ◌==◌, if◌then◌else◌, length, is_empty, get_elem?,
}
use mutsuki_distributed_host.Base.Outcome.{Result, ok, err, task_unknown}
use mutsuki_distributed_host.Base.Encoding.{to_hex}
use mutsuki_distributed_host.Base.Map.{◌is◌, text_key}
use mutsuki_distributed_host.Registry.Frame.{Sha256}

pub record AuditSegment : Type 0 where
  pub segment_id : ℕ
  pub first_sequence : ℕ
  pub last_sequence : ℕ
  pub previous_segment_root : Option Text
  pub merkle_root : Text
  pub leaf_hashes : List Text

pub record AuditInclusionProof : Type 0 where
  pub segment_id : ℕ
  pub leaf_index : ℕ
  pub leaf_hash : Text
  pub siblings : List (Text × Bool)
  pub merkle_root : Text

-- `mutsuki-empty-merkle-v1`.
abbrev empty_merkle : Bytes
empty_merkle =
    109 ∷ 117 ∷ 116 ∷ 115 ∷ 117 ∷ 107 ∷ 105 ∷ 45 ∷ 101 ∷ 109 ∷ 112 ∷ 116 ∷ 121 ∷ 45 ∷ 109 ∷ 101
    ∷ 114 ∷ 107 ∷ 108 ∷ 101 ∷ 45 ∷ 118 ∷ 49 ∷ []

-- The index beside a leaf; the last leaf of an odd level stands beside itself.
unfoldable pub sibling_index : List Text → ℕ → ℕ
sibling_index level current =
    if current % 2 == 0 then min (current + 1) (length level - 1) else current - 1

unfoldable pub with_sibling :
    ℕ → ℕ → Option Text → Option (List (Text × Bool)) → Option (List (Text × Bool))
with_sibling beside current (some sibling) (some rest) = some ((sibling, ltb beside current) ∷ rest)
with_sibling beside current (some sibling) none = none
with_sibling beside current none rest = none

unfoldable pub proof_of :
    AuditSegment → ℕ → Text → Option (List (Text × Bool)) → Option (Result AuditInclusionProof)
proof_of segment leaf_index leaf none = none
proof_of segment leaf_index leaf (some siblings) = some (
    ok (record {
      segment_id = segment.segment_id;
      leaf_index = leaf_index;
      leaf_hash = leaf;
      siblings = siblings;
      merkle_root = segment.merkle_root;
    }))

module _ (sha : Sha256) where
  unfoldable pub digest_hex : Bytes → Text
  digest_hex bytes = to_hex (sha.digest bytes)

  unfoldable pub hash_pair : Text → Text → Text
  hash_pair left right = digest_hex (left ++ 58 ∷ right)

  unfoldable pub next_merkle_level : List Text → List Text
  next_merkle_level [] = []
  next_merkle_level (a ∷ []) = hash_pair a a ∷ []
  next_merkle_level (a ∷ b ∷ rest) = hash_pair a b ∷ next_merkle_level rest

  -- `while level.len() > 1`, on fuel, and `level[0]`.
  unfoldable pub merkle_loop : ℕ → List Text → Option Text
  merkle_loop zero level = none
  merkle_loop (suc fuel) level =
      let rest = merkle_loop fuel (next_merkle_level level) in
      if ltb 1 (length level) then rest else get_elem? level 0

  unfoldable pub merkle_root : List Text → Option Text
  unfolding merkle_loop
  merkle_root leaves =
      if is_empty leaves then some (digest_hex empty_merkle) else merkle_loop (length leaves) leaves

  unfoldable pub siblings_loop : ℕ → List Text → ℕ → Option (List (Text × Bool))
  unfolding with_sibling sibling_index
  siblings_loop zero level current = none
  siblings_loop (suc fuel) level current =
      let beside = sibling_index level current in
      let rest = siblings_loop fuel (next_merkle_level level) (current / 2) in
      if ltb 1 (length level)
      then with_sibling beside current (get_elem? level beside) rest
      else some []

  unfoldable pub inclusion_proof : AuditSegment → ℕ → Option (Result AuditInclusionProof)
  unfolding siblings_loop proof_of
  inclusion_proof segment leaf_index = elim (get_elem? segment.leaf_hashes leaf_index) [
    | none ↦ some (err task_unknown)
    | some leaf ↦
        proof_of segment leaf_index leaf
          (siblings_loop (length segment.leaf_hashes) segment.leaf_hashes leaf_index)
  ]

  -- One step towards the root.
  unfoldable pub climb : Text → Text × Bool → Text
  climb current (sibling, true) = hash_pair sibling current
  climb current (sibling, false) = hash_pair current sibling

  unfoldable pub climb_all : Text → List (Text × Bool) → Text
  climb_all current [] = current
  climb_all current (step ∷ steps) = climb_all (climb current step) steps

  unfoldable pub verify_inclusion : AuditInclusionProof → Bool
  verify_inclusion proof = climb_all proof.leaf_hash proof.siblings is proof.merkle_root
