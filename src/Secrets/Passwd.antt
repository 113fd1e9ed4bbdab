-- ===== src/Secrets/Passwd.antt =====
-- packages/operator-secrets/src/lib.rs, `lookup_id`: a user or group name to its number.
use foundrix.Base.{
  ℕ, true, false, List, [], ◌∷◌, ◌++◌, Option, none, some, ◌==◌, if◌then◌else◌, Text, text_eq,
  lines, parse_unsigned,
}

-- `split`: the parts between the separators, with the characters of the part so far.
unfoldable pub split_from : ℕ → Text → Text → List Text
split_from sep part [] = part ∷ []
split_from sep part (c ∷ s) = elim (c == sep) [
  | true ↦ part ∷ split_from sep [] s
  | false ↦ split_from sep (part ++ c ∷ []) s
]

abbrev pub u32_max : ℕ
u32_max = 0xffff_ffff

-- What `find_map` tries on one line: the third part, if the first is the name.
unfoldable pub id_of_parts : Text → List Text → Option ℕ
id_of_parts name (first ∷ password ∷ id ∷ rest) =
    if text_eq first name then parse_unsigned 10 u32_max id else none
id_of_parts name _ = none

unfoldable pub find_id : Text → List Text → Option ℕ
unfolding split_from id_of_parts
find_id name [] = none
find_id name (line ∷ rest) = elim (id_of_parts name (split_from b':' [] line)) [
  | some n ↦ some n
  | none ↦ find_id name rest
]

unfoldable pub lookup_id : Text → Text → Option ℕ
unfolding find_id
lookup_id db name = elim (parse_unsigned 10 u32_max name) [
  | some n ↦ some n
  | none ↦ find_id name (lines db)
]
