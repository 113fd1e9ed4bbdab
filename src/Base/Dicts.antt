-- ===== src/Base/Dicts.antt =====
-- A `BTreeMap<String, V>` or a `HashMap<String, V>` as an association list with unique keys.
use mathlib.Core.Path.{◌≡◌, refl}
use mathlib.Core.List.{List, [], ◌∷◌}
use mathlib.Core.Option.{Option, none, some}
use native.Mathlib.Omega.{arith}
use foundrix.Base.Tests.{if◌then◌else◌}
use foundrix.Base.Texts.{Text, text_eq, text_eq_iff}

abbrev pub Dict {ℓ} : Type ℓ → Type ℓ
Dict V = List (Text × V)

module _ {ℓ} {V : Type ℓ} where
  unfoldable pub lookup : Text → Dict V → Option V
  lookup k [] = none
  lookup k ((j, v) ∷ m) = if text_eq j k then some v else lookup k m

  unfoldable pub insert : Text → V → Dict V → Dict V
  insert k v [] = (k, v) ∷ []
  insert k v ((j, w) ∷ m) = if text_eq j k then (k, v) ∷ m else (j, w) ∷ insert k v m

  pub lookup-insert :
      (k j : Text) (v : V) (m : Dict V)
      → lookup j (insert k v m) ≡ (if text_eq k j then some v else lookup j m)
  unfolding lookup insert
  lookup-insert k j v [] = refl
  lookup-insert k j v ((i, w) ∷ m) =
      ground (arith, text_eq_iff k j, text_eq_iff i k, text_eq_iff i j, lookup-insert k j v m)

  -- `collect()` of an iterator of pairs: later pairs overwrite earlier ones.
  unfoldable pub collect_from : Dict V → List (Text × V) → Dict V
  collect_from m [] = m
  collect_from m ((k, v) ∷ kvs) = collect_from (insert k v m) kvs

  unfoldable pub collect : List (Text × V) → Dict V
  unfolding collect_from
  collect kvs = collect_from [] kvs
