-- ===== src/Base/Search.antt =====
-- More of Rust's `str`: the last separator, a last character, ASCII letters in either case, and the
-- order of texts.
use Prim.Native.Nat.{ℕ}
use mathlib.Core.Bool.{Bool, true, false, ◌&&◌}
use mathlib.Core.List.{List, [], ◌∷◌, map}
use mathlib.Core.Option.{Option, none, some}
use foundrix.Base.Tests.{◌==◌, ltb, if◌then◌else◌}
use foundrix.Base.Texts.{Text, text_eq}
use foundrix.Base.Words.{lower}

-- `rsplit_once`: the text before the last separator, and the text after it.
unfoldable pub rsplit_once : ℕ → Text → Option (Text × Text)
rsplit_once sep [] = none
rsplit_once sep (c ∷ s) = elim (rsplit_once sep s) [
  | some (a, b) ↦ some (c ∷ a, b)
  | none ↦ if c == sep then some ([], s) else none
]

abbrev pub cons_option : ℕ → Option Text → Option Text
cons_option c none = none
cons_option c (some s) = some (c ∷ s)

-- `strip_suffix` of one character.
unfoldable pub strip_last : ℕ → Text → Option Text
strip_last e [] = none
strip_last e (c ∷ []) = if c == e then some [] else none
strip_last e (c ∷ d ∷ s) = cons_option c (strip_last e (d ∷ s))

-- `to_ascii_lowercase`
abbrev pub to_ascii_lowercase : Text → Text
to_ascii_lowercase = map lower

unfoldable pub eq_ignore_ascii_case : Text → Text → Bool
unfolding text_eq lower
eq_ignore_ascii_case s t = text_eq (to_ascii_lowercase s) (to_ascii_lowercase t)

-- `<=` of two `str`: by their characters, the shorter text first.
unfoldable pub text_leb : Text → Text → Bool
text_leb [] t = true
text_leb (c ∷ s) [] = false
text_leb (c ∷ s) (d ∷ t) = if ltb c d then true else c == d && text_leb s t

unfoldable pub insert_text : Text → List Text → List Text
unfolding text_leb
insert_text s [] = s ∷ []
insert_text s (t ∷ ts) = if text_leb s t then s ∷ t ∷ ts else t ∷ insert_text s ts

-- `sort` of texts.
unfoldable pub sort_texts : List Text → List Text
unfolding insert_text
sort_texts [] = []
sort_texts (t ∷ ts) = insert_text t (sort_texts ts)
