-- ===== src/Base/Map.antt =====
-- `BTreeMap` and `BTreeSet`: an association list in the order of its keys. A key that is already
-- there keeps its place.
use Prim.Native.Nat.{ℕ, suc, ◌≤◌}
use mathlib.Core.Path.{◌≡◌, refl, sym, subst, subst₂}
use mathlib.Core.Logic.{ite, inl, inr, if_pos, if_neg}
use mathlib.Core.Bool.{Bool, true, false}
use mathlib.Core.List.{List, [], ◌∷◌, map}
use mathlib.Core.Option.{Option, none, some}
use native.Mathlib.Omega.{arith}
use native.Mathlib.Decide.{ℕ_discrete}
use mutsuki_distributed_host.Base.Tests.{if◌then◌else◌, ltb, is_some, Bool-cases, holds}
use mutsuki_distributed_host.Base.Lists.{length, All}
use mutsuki_distributed_host.Base.Texts.{Text, text_discrete, text_below}

-- What a map needs of its keys.
pub record Key {ℓ} (K : Type ℓ) : Type ℓ where
  pub discrete : Discrete K
  pub below : K → K → Bool

instance abbrev pub ℕ_key : Key ℕ
ℕ_key = record { discrete = ℕ_discrete; below = ltb }

instance abbrev pub text_key : Key Text
text_key = record { discrete = text_discrete; below = text_below }

-- Equality of keys as a test.
infix 50 ◌is◌
abbrev pub ◌is◌ {ℓ} : {K : Type ℓ} ⦃o : Key K⦄ → K → K → Bool
◌is◌ ⦃o⦄ a b = holds (o.discrete a b)

-- An optional key that is there and equal.
infix 50 ◌gives◌
abbrev pub ◌gives◌ {ℓ} : {K : Type ℓ} ⦃o : Key K⦄ → Option K → K → Bool
◌gives◌ none b = false
◌gives◌ (some a) b = a is b

pub is_self {ℓ} : {K : Type ℓ} ⦃o : Key K⦄ (a : K) → (a is a) ≡ true
is_self a = ground arith

abbrev pub Map {ℓ} : Type ℓ → Type ℓ → Type ℓ
Map K V = List (K × V)

module _ {ℓ} {K V : Type ℓ} ⦃o : Key K⦄ where
  unfoldable pub get : K → Map K V → Option V
  get k [] = none
  get k ((j, v) ∷ m) = ite (o.discrete j k) (some v) (get k m)

  abbrev pub contains : K → Map K V → Bool
  contains k m = is_some (get k m)

  -- The value of a key that is there.
  unfoldable pub replace : K → V → Map K V → Map K V
  replace k v [] = []
  replace k v ((j, w) ∷ m) = ite (o.discrete j k) ((j, v) ∷ m) ((j, w) ∷ replace k v m)

  -- A new key, in its place.
  unfoldable pub place : K → V → Map K V → Map K V
  place k v [] = (k, v) ∷ []
  place k v ((j, w) ∷ m) = if o.below k j then (k, v) ∷ (j, w) ∷ m else (j, w) ∷ place k v m

  unfoldable pub insert : K → V → Map K V → Map K V
  unfolding replace place
  insert k v m = if contains k m then replace k v m else place k v m

  unfoldable pub remove : K → Map K V → Map K V
  remove k [] = []
  remove k ((j, w) ∷ m) = let rest = remove k m in ite (o.discrete j k) rest ((j, w) ∷ rest)

  abbrev pub values : Map K V → List V
  values = map (λ e. e.1)

  abbrev pub keys : Map K V → List K
  keys = map (λ e. e.0)

  get-replace :
      (k j : K) (v : V) (m : Map K V)
      → get j (replace k v m)
        ≡ (if contains k m then ite (o.discrete k j) (some v) (get j m) else get j m)
  unfolding get replace
  get-replace k j v [] = refl
  get-replace k j v ((i, w) ∷ m) = ground (arith, get-replace k j v m)

  get-place :
      (k j : K) (v : V) (m : Map K V)
      → contains k m ≡ false
      → get j (place k v m) ≡ ite (o.discrete k j) (some v) (get j m)
  unfolding get place
  get-place k j v [] h = refl
  get-place k j v ((i, w) ∷ m) h = ground (arith, get-place k j v m)

  pub get-insert :
      (k j : K) (v : V) (m : Map K V)
      → get j (insert k v m) ≡ ite (o.discrete k j) (some v) (get j m)
  unfolding insert
  get-insert k j v m = elim (Bool-cases (contains k m)) [
    | inl old ↦ rw old (ground (arith, get-replace k j v m))
    | inr new ↦ rw new (get-place k j v m new)
  ]

  pub get-insert_self : (k : K) (v : V) (m : Map K V) → get k (insert k v m) ≡ some v
  get-insert_self k v m = ground (arith, get-insert k k v m)

  pub get-remove :
      (k j : K) (m : Map K V) → get j (remove k m) ≡ ite (o.discrete k j) none (get j m)
  unfolding get remove
  get-remove k j [] = ground arith
  get-remove k j ((i, w) ∷ m) = ground (arith, get-remove k j m)

  length-replace : (k : K) (v : V) (m : Map K V) → length (replace k v m) ≡ length m
  unfolding replace
  length-replace k v [] = refl
  length-replace k v ((i, w) ∷ m) = ground (arith, length-replace k v m)

  length-place : (k : K) (v : V) (m : Map K V) → length (place k v m) ≡ suc (length m)
  unfolding place
  length-place k v [] = refl
  length-place k v ((i, w) ∷ m) = ground (arith, length-place k v m)

  -- An insertion grows the map by a key that is new to it.
  pub length-insert :
      (k : K) (v : V) (m : Map K V)
      → length (insert k v m) ≡ (if contains k m then length m else suc (length m))
  unfolding insert
  length-insert k v m = elim (Bool-cases (contains k m)) [
    | inl old ↦ rw old (length-replace k v m)
    | inr new ↦ rw new (length-place k v m)
  ]

  -- Values that all satisfy a predicate still do after an insertion of one that does.
  All-replace {κ} :
      (P : K × V → Type κ) (k : K) (v : V) (m : Map K V)
      → ((j : K) → j ≡ k → P (j, v))
      → All P m
      → All P (replace k v m)
  unfolding replace
  All-replace P k v [] h a = a
  All-replace P k v ((i, w) ∷ m) h a = elim (o.discrete i k) [
    | yes e ↦ rw (if_pos _ e) (h i e, a.1)
    | no e ↦ rw (if_neg _ e) (a.0, All-replace P k v m h a.1)
  ]

  All-place {κ} :
      (P : K × V → Type κ) (k : K) (v : V) (m : Map K V) → P (k, v) → All P m → All P (place k v m)
  unfolding place
  All-place P k v [] h a = (h, tt)
  All-place P k v ((i, w) ∷ m) h a = elim (Bool-cases (o.below k i)) [
    | inl e ↦ rw e (h, a)
    | inr e ↦ rw e (a.0, All-place P k v m h a.1)
  ]

  pub All-insert {κ} :
      (P : K × V → Type κ) (k : K) (v : V) (m : Map K V) → P (k, v) → All P m → All P (insert k v m)
  unfolding insert
  All-insert P k v m h a = elim (Bool-cases (contains k m)) [
    | inl old ↦ rw old (All-replace P k v m (λ j e. subst (λ i. P (i, v)) (sym e) h) a)
    | inr new ↦ rw new (All-place P k v m h a)
  ]

  pub All-remove {κ} : (P : K × V → Type κ) (k : K) (m : Map K V) → All P m → All P (remove k m)
  unfolding remove
  All-remove P k [] a = a
  All-remove P k ((i, w) ∷ m) a = elim (o.discrete i k) [
    | yes e ↦ rw (if_pos _ e) (All-remove P k m a.1)
    | no e ↦ rw (if_neg _ e) (a.0, All-remove P k m a.1)
  ]

  -- What holds of every entry holds of the one found.
  pub All-get {κ} :
      (P : K × V → Type κ) (k : K) (m : Map K V) {v : V} → All P m → get k m ≡ some v → P (k, v)
  unfolding get
  All-get P k [] a h = absurd (ground arith)
  All-get P k ((i, w) ∷ m) {v} a h = elim (o.discrete i k) [
    | yes e ↦ subst₂ (λ j u. P (j, u)) e (ground arith) a.0
    | no e ↦ All-get P k m a.1 (ground arith)
  ]

  -- No key stands twice.
  abbrev pub IsUnique : Map K V → Type 0
  IsUnique [] = Unit
  IsUnique ((k, v) ∷ m) = (contains k m ≡ false) × IsUnique m

  contains-replace : (k j : K) (v : V) (m : Map K V) → contains j (replace k v m) ≡ contains j m
  unfolding get replace
  contains-replace k j v [] = refl
  contains-replace k j v ((i, w) ∷ m) = ground (arith, contains-replace k j v m)

  replace-IsUnique : (k : K) (v : V) (m : Map K V) → IsUnique m → IsUnique (replace k v m)
  unfolding replace
  replace-IsUnique k v [] u = tt
  replace-IsUnique k v ((i, w) ∷ m) u = elim (o.discrete i k) [
    | yes e ↦ rw (if_pos _ e) u
    | no e ↦ rw (if_neg _ e) (rw (contains-replace k i v m) u.0, replace-IsUnique k v m u.1)
  ]

  place-IsUnique :
      (k : K) (v : V) (m : Map K V) → contains k m ≡ false → IsUnique m → IsUnique (place k v m)
  unfolding place get
  place-IsUnique k v [] h u = (refl, tt)
  place-IsUnique k v ((i, w) ∷ m) h u = elim (Bool-cases (o.below k i)) [
    | inl e ↦ rw e (h, u)
    | inr e ↦ rw e (ground (arith, get-place k i v m), place-IsUnique k v m (ground arith) u.1)
  ]

  pub insert-IsUnique : (k : K) (v : V) (m : Map K V) → IsUnique m → IsUnique (insert k v m)
  unfolding insert
  insert-IsUnique k v m u = elim (Bool-cases (contains k m)) [
    | inl old ↦ rw old (replace-IsUnique k v m u)
    | inr new ↦ rw new (place-IsUnique k v m new u)
  ]

  pub remove-IsUnique : (k : K) (m : Map K V) → IsUnique m → IsUnique (remove k m)
  unfolding remove
  remove-IsUnique k [] u = tt
  remove-IsUnique k ((i, w) ∷ m) u = elim (o.discrete i k) [
    | yes e ↦ rw (if_pos _ e) (remove-IsUnique k m u.1)
    | no e ↦ rw (if_neg _ e) (ground (arith, get-remove k i m), remove-IsUnique k m u.1)
  ]

  found_behind :
      (k : K) (v : V) (m n : Map K V)
      → contains k m ≡ false
      → All (λ e. get e.0 m ≡ some e.1) n
      → All (λ e. get e.0 ((k, v) ∷ m) ≡ some e.1) n
  unfolding get
  found_behind k v m [] h a = tt
  found_behind k v m ((i, w) ∷ n) h a = (ground arith, found_behind k v m n h a.1)

  -- Where no key stands twice, a lookup finds each entry.
  pub All-found : (m : Map K V) → IsUnique m → All (λ e. get e.0 m ≡ some e.1) m
  unfolding get
  All-found [] u = tt
  All-found ((k, v) ∷ m) u = (ground arith, found_behind k v m m u.0 (All-found m u.1))

  pub length-remove-le : (k : K) (m : Map K V) → length (remove k m) ≤ length m
  unfolding remove
  length-remove-le k [] = omega arith
  length-remove-le k ((i, w) ∷ m) = ground (arith, length-remove-le k m)
