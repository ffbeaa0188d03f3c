-- ===== src/Base/Texts.antt =====
-- A `String` is the list of its UTF-8 bytes, which `Ord` compares lexicographically.
use Prim.Native.Nat.{ℕ, compare, Ordering}
use mathlib.Core.Bool.{Bool, true, false}
use mathlib.Core.List.{List, [], ◌∷◌}
use native.Mathlib.Decide.{ℕ_discrete}

abbrev pub Bytes : Type 0
Bytes = List ℕ

abbrev pub Text : Type 0
Text = Bytes

unfoldable pub text_discrete : Discrete Text
text_discrete = hlevel ℕ_discrete

-- The strict lexicographic order.
unfoldable pub text_below : Text → Text → Bool
text_below xs [] = false
text_below [] (y ∷ ys) = true
text_below (x ∷ xs) (y ∷ ys) = elim (compare x y) [
  | Ordering.lt ↦ true
  | Ordering.eq ↦ text_below xs ys
  | Ordering.gt ↦ false
]
