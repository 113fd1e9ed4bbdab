-- ===== src/Base/Lists.antt =====
-- Lists measured and searched with native numbers and Boolean tests.
use Prim.Native.Nat.{ℕ, zero, suc, ◌+◌}
use mathlib.Core.Path.{◌≡◌, refl}
use mathlib.Core.Bool.{Bool, true, false, ◌&&◌, ◌||◌}
use mathlib.Core.List.{List, [], ◌∷◌, ◌++◌}
use mathlib.Core.Option.{Option, none, some}
use native.Mathlib.Omega.{arith}
use foundrix.Base.Tests.{if◌then◌else◌}

module _ {ℓ} {A : Type ℓ} where
  abbrev pub length : List A → ℕ
  length [] = 0
  length (x ∷ xs) = suc (length xs)

  abbrev pub is_empty : List A → Bool
  is_empty [] = true
  is_empty (x ∷ xs) = false

  abbrev pub get_elem? : List A → ℕ → Option A
  get_elem? [] i = none
  get_elem? (x ∷ xs) zero = some x
  get_elem? (x ∷ xs) (suc i) = get_elem? xs i

  pub length-append : (xs ys : List A) → length (xs ++ ys) ≡ length xs + length ys
  length-append [] ys = omega arith
  length-append (x ∷ xs) ys = omega (arith, length-append xs ys)

-- Rust's `iter().any`, `all`, `find`, `filter` and `position`, with a Boolean test.
module _ {ℓ} {A : Type ℓ} (p : A → Bool) where
  abbrev pub any : List A → Bool
  any [] = false
  any (x ∷ xs) = p x || any xs

  abbrev pub all : List A → Bool
  all [] = true
  all (x ∷ xs) = p x && all xs

  abbrev pub find : List A → Option A
  find [] = none
  find (x ∷ xs) = if p x then some x else find xs

  abbrev pub filter : List A → List A
  filter [] = []
  filter (x ∷ xs) = if p x then x ∷ filter xs else filter xs

  abbrev pub position_from : ℕ → List A → Option ℕ
  position_from i [] = none
  position_from i (x ∷ xs) = if p x then some i else position_from (suc i) xs

  abbrev pub position : List A → Option ℕ
  position = position_from 0

  pub all-append : (xs ys : List A) → all (xs ++ ys) ≡ (all xs && all ys)
  all-append [] ys = refl
  all-append (x ∷ xs) ys = ground (arith, all-append xs ys)

-- A predicate on every entry.
module _ {ℓ κ} {A : Type ℓ} (P : A → Type κ) where
  abbrev pub All : List A → Type κ
  All [] = Unit
  All (x ∷ xs) = P x × All xs

  pub All-append : (xs ys : List A) → All xs → All ys → All (xs ++ ys)
  All-append [] ys _ hy = hy
  All-append (x ∷ xs) ys (px, hx) hy = (px, All-append xs ys hx hy)

module _ {ℓ} {A : Type ℓ} (p : A → Bool) where
  pub all-All : (xs : List A) → all p xs ≡ true → All (λ x. p x ≡ true) xs
  all-All [] h = tt
  all-All (x ∷ xs) h = (ground arith, all-All xs (ground arith))

  pub any-All : (xs : List A) → any p xs ≡ false → All (λ x. p x ≡ false) xs
  any-All [] h = tt
  any-All (x ∷ xs) h = (ground arith, any-All xs (ground arith))

module _ {ℓ κ ι} {A : Type ℓ} {P : A → Type κ} {Q : A → Type ι} (f : (a : A) → P a → Q a) where
  pub All-map : (xs : List A) → All P xs → All Q xs
  All-map [] h = tt
  All-map (x ∷ xs) (px, hx) = (f x px, All-map xs hx)
