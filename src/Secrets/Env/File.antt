-- ===== src/Secrets/Env/File.antt =====
-- Reading back a whole env-file that `encode_env_file` wrote.
use foundrix.Base.{
  ◌≡◌, ◌≢◌, refl, ap, ◌∙◌, true, List, [], ◌∷◌, ◌++◌, append_assoc, arith, All, ==_ne, All-append,
  All-map, Text, lines, Dict, insert, collect, collect_from,
}
use foundrix.Base.TextLaws.{
  EndsWell, EndsWell-append, trim_id, trim_All, split_once-append, lines-append,
}
use foundrix.Secrets.Spec.{is_valid_key}
use foundrix.Secrets.Env.{
  encode_env_value, encode_env_file, parse_line, parse_lines, parse_env_file,
}
use foundrix.Secrets.Env.RoundTrip.{
  decode_env_value-encode_env_value, Plain, key-Plain, encode-EndsWell, trim-encode, encode-OneLine,
  value-OneLine, OneLine, IsEntry,
}

-- The line that `encode_env_file` writes for one pair.
abbrev entry_line : Text → Text → Text
entry_line k v = k ++ b'=' ∷ encode_env_value v

entry_line-EndsWell : (k v : Text) → EndsWell (entry_line k v)
entry_line-EndsWell k v =
    EndsWell-append k (b'=' ∷ encode_env_value v)
      (EndsWell-append (b'=' ∷ []) (encode_env_value v) (encode-EndsWell v))

entry_line-OneLine : (k v : Text) → IsEntry (k, v) → OneLine (entry_line k v)
entry_line-OneLine k v (hk, hv) =
    All-append _ k (b'=' ∷ encode_env_value v) (All-map (λ c p. p.1) k (key-Plain k hk))
      (omega arith, encode-OneLine v (value-OneLine v hv))

parse_line-entry_line :
    (k v : Text) (out : Dict Text)
    → IsEntry (k, v)
    → parse_line (entry_line k v) out ≡ insert k v out
unfolding parse_line
parse_line-entry_line [] v out (hk, hv) = absurd (no_key hk)
  where
    no_key : is_valid_key [] ≢ true
    no_key h = unfold is_valid_key in cc
parse_line-entry_line (c ∷ k) v out (hk, hv) = rw (
  trim_id c (k ++ b'=' ∷ encode_env_value v) plain.0.2 (entry_line-EndsWell (c ∷ k) v),
  ==_ne c b'#' plain.0.3,
  split_once-append b'=' (c ∷ k) (encode_env_value v) (All-map (λ x p. p.0) (c ∷ k) plain),
  trim_All (c ∷ k) (All-map (λ x p. p.2) (c ∷ k) plain),
  hk,
  trim-encode v,
  decode_env_value-encode_env_value v,
)
  where
    plain : All Plain (c ∷ k)
    plain = key-Plain (c ∷ k) hk

parse_lines-encode :
    (fields : List (Text × Text)) (out : Dict Text)
    → All IsEntry fields
    → parse_lines (lines (encode_env_file fields)) out ≡ collect_from out fields
unfolding parse_lines collect_from encode_env_file
parse_lines-encode [] out h = unfold lines in refl
parse_lines-encode ((k, v) ∷ fields) out (h, hs) =
    rw
      (
        ← append_assoc k (b'=' ∷ encode_env_value v) (0x0a ∷ encode_env_file fields),
        lines-append (entry_line k v) (encode_env_file fields) (entry_line-OneLine k v h)
            (entry_line-EndsWell k v),
      )
      (ap (parse_lines (lines (encode_env_file fields))) (parse_line-entry_line k v out h)
        ∙ parse_lines-encode fields (insert k v out) hs)

-- An env-file written from valid keys and accepted values reads back as the map of exactly these
-- pairs: no value brings in another assignment, and none is changed.
pub parse_env_file-encode_env_file :
    (fields : List (Text × Text))
    → All IsEntry fields
    → parse_env_file (encode_env_file fields) ≡ collect fields
unfolding parse_env_file collect
parse_env_file-encode_env_file fields h = parse_lines-encode fields [] h
