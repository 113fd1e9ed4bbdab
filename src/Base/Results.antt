-- ===== src/Base/Results.antt =====
-- Rust's `Result`, with `?` as `do`.
use mathlib.Core.Path.{◌≡◌, refl}
use mathlib.Core.Bool.{Bool, true, false}
use mathlib.Core.Logic.{◌⊎◌, inl, inr}
use mathlib.Core.Option.{Option, none, some}

pub data Result {ℓ κ} (A : Type ℓ) (E : Type κ) : Type (ℓ ⊔ κ) where
  ok : A → Result A E
  err : E → Result A E

abbrev pub ok_or {ℓ ε} : {A : Type ℓ} {E : Type ε} → Option A → E → Result A E
ok_or none e = err e
ok_or (some a) e = ok a

abbrev pub map_err {ℓ ε δ} :
    {A : Type ℓ} {E : Type ε} {F : Type δ} → (E → F) → Result A E → Result A F
map_err f (ok a) = ok a
map_err f (err e) = err (f e)

abbrev pub is_ok {ℓ ε} : {A : Type ℓ} {E : Type ε} → Result A E → Bool
is_ok (ok a) = true
is_ok (err e) = false

-- `?`, and a statement whose value is not used.
infixl 5 ◌>>=◌
abbrev pub ◌>>=◌ {ℓ κ ε} :
    {E : Type ε} {A : Type ℓ} {B : Type κ} → Result A E → (A → Result B E) → Result B E
err failure >>= next = err failure
ok value >>= next = next value

infixl 5 ◌>>◌
abbrev pub ◌>>◌ {κ ε} : {E : Type ε} {B : Type κ} → Result (Unit {0}) E → Result B E → Result B E
first >> second = first >>= λ done. second

-- `if !b { return Err(e) }`
abbrev pub ensure {ε} : {E : Type ε} → Bool → E → Result (Unit {0}) E
ensure false failure = err failure
ensure true failure = ok tt

-- A chain that succeeds has succeeded in its first link.
pub >>=-eq-ok {ℓ κ ε} :
    {E : Type ε} {A : Type ℓ} {B : Type κ} (r : Result A E) (next : A → Result B E) {b : B}
    → (r >>= next) ≡ ok b
    → (a : A) × (r ≡ ok a) × (next a ≡ ok b)
>>=-eq-ok (err failure) next h = cc
>>=-eq-ok (ok value) next h = (value, refl, h)

pub Result-cases {ℓ ε} :
    {A : Type ℓ} {E : Type ε} (r : Result A E) → ((a : A) × (r ≡ ok a)) ⊎ ((e : E) × (r ≡ err e))
Result-cases (ok a) = inl (a, refl)
Result-cases (err e) = inr (e, refl)
