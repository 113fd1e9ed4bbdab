-- ===== src/Base/Words.antt =====
-- The words of a text, substrings, and `parse::<i32>`.
use Prim.Native.Nat.{ℕ, zero, suc, ◌+◌}
use mathlib.Core.Bool.{Bool, true, false, ◌&&◌, ◌||◌}
use mathlib.Core.List.{List, [], ◌∷◌, ◌++◌}
use mathlib.Core.Option.{Option, none, some}
use foundrix.Base.Tests.{◌==◌, leb, if◌then◌else◌}
use foundrix.Base.Chars.{is_whitespace}
use foundrix.Base.Texts.{Text, starts_with, parse_digits}
use foundrix.Base.Int.{ℤ, pos, negsuc}

abbrev pub flush : Text → List Text → List Text
flush [] ws = ws
flush (c ∷ w) ws = (c ∷ w) ∷ ws

-- `split_whitespace`, with the characters of the word so far.
unfoldable pub words_from : Text → Text → List Text
words_from w [] = flush w []
words_from w (c ∷ s) = elim (is_whitespace c) [
  | true ↦ flush w (words_from [] s)
  | false ↦ words_from (w ++ c ∷ []) s
]

unfoldable pub split_whitespace : Text → List Text
unfolding words_from
split_whitespace s = words_from [] s

-- `words.join(" ")`
unfoldable pub join_words : List Text → Text
join_words [] = []
join_words (w ∷ []) = w
join_words (w ∷ v ∷ ws) = w ++ b' ' ∷ join_words (v ∷ ws)

-- `contains`: the pattern stands somewhere in the text.
unfoldable pub contains : Text → Text → Bool
unfolding starts_with
contains [] p = starts_with p []
contains (c ∷ s) p = starts_with p (c ∷ s) || contains s p

unfoldable pub lower : ℕ → ℕ
lower c = if leb b'A' c && leb c b'Z' then c + 32 else c

-- `to_lowercase` up to a comparison with ASCII words without a `k`: no other character's lower case
-- is such a letter.
unfoldable pub to_lowercase : Text → Text
unfolding lower
to_lowercase [] = []
to_lowercase (c ∷ s) = lower c ∷ to_lowercase s

abbrev pub positive : Option ℕ → Option ℤ
positive none = none
positive (some n) = some (pos n)

abbrev pub negated : ℕ → ℤ
negated zero = pos 0
negated (suc n) = negsuc n

abbrev pub negative : Option ℕ → Option ℤ
negative none = none
negative (some n) = some (negated n)

-- `parse::<i32>()`
unfoldable pub parse_i32 : Text → Option ℤ
unfolding parse_digits
parse_i32 [] = none
parse_i32 (c ∷ []) =
    if c == b'+' || c == b'-' then none else positive (parse_digits 10 0x7fff_ffff 0 (c ∷ []))
parse_i32 (c ∷ d ∷ s) =
    if c == b'-'
    then negative (parse_digits 10 0x8000_0000 0 (d ∷ s))
    else positive (parse_digits 10 0x7fff_ffff 0 (if c == b'+' then d ∷ s else c ∷ d ∷ s))
