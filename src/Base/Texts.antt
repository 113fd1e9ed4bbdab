-- ===== src/Base/Texts.antt =====
-- Texts as lists of code points, with the operations of Rust's `str` that the program uses.
use Prim.Native.Nat.{ℕ, ◌+◌, ◌-◌, ◌*◌}
use Prim.Native.Char.{code}
use Prim.Native.String.{String}
use mathlib.Core.Path.{◌≡◌, refl}
use mathlib.Core.Logic.{◌↔◌, ◌≢◌}
use mathlib.Core.Bool.{Bool, true, false, ◌&&◌}
use mathlib.Core.List.{List, [], ◌∷◌, ◌++◌, reverse}
use mathlib.Core.Option.{Option, none, some}
use native.Mathlib.Omega.{arith}
use foundrix.Base.Tests.{◌==◌, ltb, leb, if◌then◌else◌}
use foundrix.Base.Lists.{is_empty}
use foundrix.Base.Chars.{is_whitespace}

abbrev pub Text : Type 0
Text = List ℕ

-- The code points of a literal. Shut, so that a proof does not spell out the program's messages.
unfoldable pub codes : String → Text
codes String.[] = []
codes (String.◌∷◌ c s) = code c ∷ codes s

-- `==` of two `str`.
unfoldable pub text_eq : Text → Text → Bool
text_eq [] [] = true
text_eq [] (y ∷ ys) = false
text_eq (x ∷ xs) [] = false
text_eq (x ∷ xs) (y ∷ ys) = x == y && text_eq xs ys

pub text_eq_iff : (s t : Text) → (text_eq s t ≡ true) ↔ (s ≡ t)
unfolding text_eq
text_eq_iff [] [] = (λ _. refl, λ _. refl)
text_eq_iff [] (y ∷ ys) = (λ h. cc, λ h. cc)
text_eq_iff (x ∷ xs) [] = (λ h. cc, λ h. cc)
text_eq_iff (x ∷ xs) (y ∷ ys) =
    (λ h. ground (arith, text_eq_iff xs ys), λ h. ground (arith, text_eq_iff xs ys))

pub text_eq_refl : (s : Text) → text_eq s s ≡ true
text_eq_refl s = (text_eq_iff s s).1 refl

pub text_eq_ne : (s t : Text) → s ≢ t → text_eq s t ≡ false
text_eq_ne s t h = ground (arith, text_eq_iff s t)

-- `strip_prefix`: the rest of the text behind a prefix.
unfoldable pub strip_prefix : Text → Text → Option Text
strip_prefix [] s = some s
strip_prefix (p ∷ ps) [] = none
strip_prefix (p ∷ ps) (c ∷ s) = if p == c then strip_prefix ps s else none

unfoldable pub starts_with : Text → Text → Bool
starts_with [] s = true
starts_with (p ∷ ps) [] = false
starts_with (p ∷ ps) (c ∷ s) = p == c && starts_with ps s

unfoldable pub trim_start : Text → Text
trim_start [] = []
trim_start (c ∷ s) = if is_whitespace c then trim_start s else c ∷ s

unfoldable pub trim_end : Text → Text
unfolding trim_start
trim_end s = reverse (trim_start (reverse s))

unfoldable pub trim : Text → Text
unfolding trim_start trim_end
trim s = trim_end (trim_start s)

-- `split_once`: the text before the first separator, and the text after it.
abbrev pub prepend : ℕ → Option (Text × Text) → Option (Text × Text)
prepend c none = none
prepend c (some (a, b)) = some (c ∷ a, b)

unfoldable pub split_once : ℕ → Text → Option (Text × Text)
split_once sep [] = none
split_once sep (c ∷ s) = if c == sep then some ([], s) else prepend c (split_once sep s)

-- One `\r` at the end of a line goes with its `\n`.
unfoldable pub strip_cr : Text → Text
strip_cr [] = []
strip_cr (c ∷ []) = if c == 0x0d then [] else c ∷ []
strip_cr (c ∷ d ∷ s) = c ∷ strip_cr (d ∷ s)

-- `lines`, with the characters of the line so far.
unfoldable pub lines_from : Text → Text → List Text
unfolding strip_cr
lines_from line [] = if is_empty line then [] else line ∷ []
lines_from line (c ∷ s) = elim (c == 0x0a) [
  | true ↦ strip_cr line ∷ lines_from [] s
  | false ↦ lines_from (line ++ c ∷ []) s
]

unfoldable pub lines : Text → List Text
unfolding lines_from
lines s = lines_from [] s

-- The loop of `from_str_radix` for an unsigned type: a digit at a time, and no overflow.
unfoldable pub parse_digits : ℕ → ℕ → ℕ → Text → Option ℕ
parse_digits radix limit acc [] = some acc
parse_digits radix limit acc (c ∷ s) =
    if leb b'0' c && ltb (c - b'0') radix && leb (acc * radix + (c - b'0')) limit
    then parse_digits radix limit (acc * radix + (c - b'0')) s
    else none

-- `from_str_radix` (and `parse`, at radix 10) for radices up to ten: a sign `+` may stand first.
unfoldable pub parse_unsigned : ℕ → ℕ → Text → Option ℕ
unfolding parse_digits
parse_unsigned radix limit [] = none
parse_unsigned radix limit (c ∷ []) =
    if c == b'+' then none else parse_digits radix limit 0 (c ∷ [])
parse_unsigned radix limit (c ∷ d ∷ s) =
    parse_digits radix limit 0 (if c == b'+' then d ∷ s else c ∷ d ∷ s)
