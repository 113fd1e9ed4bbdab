-- ===== src/Secrets/Env.antt =====
-- packages/operator-secrets/src/lib.rs, the env-file: writing values so that no consumer mangles
-- them, and reading a file back.
pub mod RoundTrip
pub mod File
use foundrix.Base.{
  ℕ, Bool, true, false, ◌&&◌, ◌||◌, not, List, [], ◌∷◌, ◌++◌, Option, none, some, ◌==◌,
  if◌then◌else◌, is_empty, all, any, Text, trim, lines, split_once, Dict, insert,
  is_ascii_alphanumeric, is_control, Result, ok, err,
}
use foundrix.Secrets.Spec.{is_valid_key}

unfoldable pub is_bare_char : ℕ → Bool
unfolding is_ascii_alphanumeric
is_bare_char c =
    is_ascii_alphanumeric c
    || c == b'_'
    || c == b'-'
    || c == b'.'
    || c == b'/'
    || c == b':'
    || c == b'@'
    || c == b'+'
    || c == b','
    || c == b'='
    || c == b'~'

unfoldable pub is_bare_safe : Text → Bool
unfolding is_bare_char
is_bare_safe v = not (is_empty v) && all is_bare_char v

-- The characters that a backslash is put before.
unfoldable pub is_special : ℕ → Bool
is_special c = c == b'\\' || c == b'"' || c == b'$' || c == b'`'

unfoldable pub escape : Text → Text
unfolding is_special
escape [] = []
escape (c ∷ v) = if is_special c then b'\\' ∷ c ∷ escape v else c ∷ escape v

unfoldable pub encode_env_value : Text → Text
unfolding is_bare_safe escape
encode_env_value v = if is_bare_safe v then v else b'"' ∷ (escape v ++ b'"' ∷ [])

unfoldable pub encode_env_file : List (Text × Text) → Text
unfolding encode_env_value
encode_env_file [] = []
encode_env_file ((k, v) ∷ fields) =
    k ++ b'=' ∷ (encode_env_value v ++ 0x0a ∷ encode_env_file fields)

-- The characters between the quotes: a backslash stands for the character behind it.
unfoldable pub unescape : Text → Text
unescape [] = []
unescape (c ∷ []) = c ∷ []
unescape (c ∷ d ∷ v) = elim (c == b'\\') [ true ↦ d ∷ unescape v | false ↦ c ∷ unescape (d ∷ v) ]

-- The characters before a last character `q`; `none` if the text does not end in `q`.
unfoldable pub before_last : ℕ → Text → Option Text
before_last q [] = none
before_last q (c ∷ []) = if c == q then some [] else none
before_last q (c ∷ d ∷ v) = elim (before_last q (d ∷ v)) [ none ↦ none | some w ↦ some (c ∷ w) ]

unfoldable pub decode_env_value : Text → Text
unfolding unescape before_last
decode_env_value [] = []
decode_env_value (c ∷ v) =
    if c == b'"'
    then elim (before_last b'"' v) [ none ↦ c ∷ v | some w ↦ unescape w ]
    else if c == b'\''
    then elim (before_last b'\'' v) [ none ↦ c ∷ v | some w ↦ w ]
    else c ∷ v

abbrev pub is_comment : Text → Bool
is_comment [] = false
is_comment (c ∷ s) = c == b'#'

-- One round of the loop of `parse_env_file`.
unfoldable pub parse_line : Text → Dict Text → Dict Text
parse_line line out =
    if is_empty (trim line) || is_comment (trim line)
    then out
    else elim (split_once b'=' (trim line)) [
      | none ↦ out
      | some (k, v) ↦
          if is_valid_key (trim k) then insert (trim k) (decode_env_value (trim v)) out else out
    ]

unfoldable pub parse_lines : List Text → Dict Text → Dict Text
unfolding parse_line
parse_lines [] out = out
parse_lines (line ∷ rest) out = parse_lines rest (parse_line line out)

unfoldable pub parse_env_file : Text → Dict Text
unfolding parse_lines
parse_env_file text = parse_lines (lines text) []

pub data FieldError : Type 0 where
  is_blank has_control : FieldError

unfoldable pub check_field_value : Text → Result (Unit {0}) FieldError
unfolding is_control
check_field_value v =
    if is_empty v then err is_blank else if any is_control v then err has_control else ok tt
