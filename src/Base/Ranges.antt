-- ===== src/Base/Ranges.antt =====
-- Tests of all the numbers below a bound.
use Prim.Native.Nat.{ℕ, zero, suc, ◌<◌}
use mathlib.Core.Path.{◌≡◌, sym, subst}
use mathlib.Core.Logic.{◌⊎◌, inl, inr}
use mathlib.Core.Bool.{Bool, true, ◌&&◌}
use native.Mathlib.Omega.{arith}
use foundrix.Base.Tests.{and-left, and-right}

-- A test of every number below a bound.
abbrev pub all_below : ℕ → (ℕ → Bool) → Bool
all_below zero f = true
all_below (suc n) f = f n && all_below n f

unpack : (k : ℕ) → ¬ (k < 0)
unpack k l = omega (arith, l)

pub below : (n k : ℕ) (f : ℕ → Bool) → all_below n f ≡ true → k < n → f k ≡ true
below zero k f h l = absurd (unpack k l)
below (suc n) k f h l = by (below n k f (and-right (f n) (all_below n f) h)) (omega (arith, l))
  where
    by : (k < n → f k ≡ true) → (k ≡ n) ⊎ (k < n) → f k ≡ true
    by ih (inl e) = subst (λ m. f m ≡ true) (sym e) (and-left (f n) (all_below n f) h)
    by ih (inr m) = ih m
