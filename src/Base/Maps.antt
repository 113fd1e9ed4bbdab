-- ===== src/Base/Maps.antt =====
-- A `HashMap` as an association list with unique keys, for a Boolean equality of the keys.
use mathlib.Core.Path.{◌≡◌, refl}
use mathlib.Core.Logic.{◌↔◌}
use mathlib.Core.Bool.{Bool, true}
use mathlib.Core.List.{List, [], ◌∷◌}
use mathlib.Core.Option.{Option, none, some}
use native.Mathlib.Omega.{arith}
use foundrix.Base.Tests.{if◌then◌else◌}

abbrev pub Map {ℓ κ} : Type ℓ → Type κ → Type (ℓ ⊔ κ)
Map K V = List (K × V)

module _ {ℓ κ} {K : Type ℓ} {V : Type κ} (eqb : K → K → Bool) where
  unfoldable pub get : K → Map K V → Option V
  get k [] = none
  get k ((j, v) ∷ m) = if eqb j k then some v else get k m

  unfoldable pub put : K → V → Map K V → Map K V
  put k v [] = (k, v) ∷ []
  put k v ((j, w) ∷ m) = if eqb j k then (k, v) ∷ m else (j, w) ∷ put k v m

  pub get-put :
      (iff : (a b : K) → (eqb a b ≡ true) ↔ (a ≡ b)) (k j : K) (v : V) (m : Map K V)
      → get j (put k v m) ≡ (if eqb k j then some v else get j m)
  unfolding get put
  get-put iff k j v [] = refl
  get-put iff k j v ((i, w) ∷ m) = ground (arith, iff k j, iff i k, iff i j, get-put iff k j v m)
