-- ===== src/Base/Reorder.antt =====
-- Lists with the same entries in another order, by exchanges of neighbours.
use mathlib.Core.List.{List, ◌∷◌}

pub data Reordered {ℓ} {A : Type ℓ} : List A → List A → Type ℓ where
  unchanged : (xs : List A) → Reordered xs xs
  behind : {xs ys : List A} (x : A) → Reordered xs ys → Reordered (x ∷ xs) (x ∷ ys)
  exchanged : (x y : A) (xs : List A) → Reordered (x ∷ y ∷ xs) (y ∷ x ∷ xs)
  followed : {xs ys zs : List A} → Reordered xs ys → Reordered ys zs → Reordered xs zs
