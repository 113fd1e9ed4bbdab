-- ===== src/Secrets/Env/RoundTrip.antt =====
-- Reading back what `encode_env_value` and `encode_env_file` write.
use foundrix.Base.{
  ℕ, ◌≡◌, ◌≢◌, refl, inl, inr, true, false, [], ◌∷◌, ◌++◌, some, arith, Bool-cases, All, All-append,
  All-map, all-All, any-All, Text, is_whitespace, is_control, trim, ok,
}
use foundrix.Base.TextLaws.{EndsWell, EndsWell-All, trim_id, trim_All}
use foundrix.Secrets.Spec.{is_valid_key, is_key_char}
use foundrix.Secrets.Env.{
  is_bare_char, is_bare_safe, is_special, escape, encode_env_value, unescape, before_last,
  decode_env_value, check_field_value,
}

unescape-cons : (c : ℕ) (s : Text) → c ≢ b'\\' → unescape (c ∷ s) ≡ c ∷ unescape s
unfolding unescape
unescape-cons c [] h = refl
unescape-cons c (d ∷ s) h = ground arith

unescape_backslash : (c : ℕ) (s : Text) → unescape (b'\\' ∷ c ∷ s) ≡ c ∷ unescape s
unfolding unescape
unescape_backslash c s = refl

unescape-escape : (v : Text) → unescape (escape v) ≡ v
unfolding escape is_special
unescape-escape [] = unfold unescape in refl
unescape-escape (c ∷ v) =
    ground (arith, unescape-cons c (escape v), unescape_backslash c (escape v), unescape-escape v)

before_last-snoc : (q : ℕ) (v : Text) → before_last q (v ++ q ∷ []) ≡ some v
unfolding before_last
before_last-snoc q [] = ground arith
before_last-snoc q (c ∷ []) = ground arith
before_last-snoc q (c ∷ d ∷ v) = rw (before_last-snoc q (d ∷ v), before_last)

decode_bare : (v : Text) → is_bare_safe v ≡ true → decode_env_value v ≡ v
unfolding decode_env_value is_bare_safe is_bare_char
decode_bare [] h = refl
decode_bare (c ∷ v) h = ground arith

decode_quoted : (v : Text) → decode_env_value (b'"' ∷ (escape v ++ b'"' ∷ [])) ≡ v
unfolding decode_env_value
decode_quoted v = rw (before_last-snoc b'"' (escape v)) (unescape-escape v)

-- A value of any characters is read back unchanged from the form in which it is written.
pub decode_env_value-encode_env_value : (v : Text) → decode_env_value (encode_env_value v) ≡ v
unfolding encode_env_value
decode_env_value-encode_env_value v = elim (Bool-cases (is_bare_safe v)) [
  | inl bare ↦ rw bare (decode_bare v bare)
  | inr quoted ↦ rw quoted (decode_quoted v)
]

-- What the characters of a key and of a written value are not.
abbrev pub Plain : ℕ → Type 0
Plain c = (c ≢ b'=') × (c ≢ 0x0a) × (is_whitespace c ≡ false) × (c ≢ b'#')

key_char-Plain : (c : ℕ) → is_key_char c ≡ true → Plain c
unfolding is_key_char is_whitespace
key_char-Plain c h = (ground arith, ground arith, ground arith, ground arith)

pub key-Plain : (k : Text) → is_valid_key k ≡ true → All Plain k
unfolding is_valid_key
key-Plain k h = All-map key_char-Plain k (all-All is_key_char k (ground arith))

bare_char-solid : (c : ℕ) → is_bare_char c ≡ true → is_whitespace c ≡ false
unfolding is_bare_char is_whitespace
bare_char-solid c h = ground arith

control-newline : (c : ℕ) → is_control c ≡ false → c ≢ 0x0a
unfolding is_control
control-newline c h = ground arith

bare-solid : (v : Text) → is_bare_safe v ≡ true → All (λ c. is_whitespace c ≡ false) v
unfolding is_bare_safe
bare-solid v h = All-map bare_char-solid v (all-All is_bare_char v (ground arith))

bare-EndsWell : (v : Text) → is_bare_safe v ≡ true → EndsWell v
unfolding is_bare_safe
bare-EndsWell [] h = cc
bare-EndsWell (c ∷ v) h =
    EndsWell-All c v (All-map bare_char-solid (c ∷ v) (all-All is_bare_char (c ∷ v) h))

quote-EndsWell : (s : Text) → EndsWell (s ++ b'"' ∷ [])
quote-EndsWell s = (s, b'"', refl, unfold is_whitespace in refl)

pub encode-EndsWell : (v : Text) → EndsWell (encode_env_value v)
unfolding encode_env_value
encode-EndsWell v = elim (Bool-cases (is_bare_safe v)) [
  | inl bare ↦ rw bare (bare-EndsWell v bare)
  | inr quoted ↦ rw quoted (quote-EndsWell (b'"' ∷ escape v))
]

pub trim-encode : (v : Text) → trim (encode_env_value v) ≡ encode_env_value v
unfolding encode_env_value
trim-encode v = elim (Bool-cases (is_bare_safe v)) [
  | inl bare ↦ rw bare (trim_All v (bare-solid v bare))
  | inr quoted ↦ rw quoted (
      trim_id b'"' (escape v ++ b'"' ∷ []) (unfold is_whitespace in refl)
        (quote-EndsWell (b'"' ∷ escape v)))
]

abbrev pub OneLine : Text → Type 0
OneLine = All (λ c. c ≢ 0x0a)

escape-OneLine : (v : Text) → OneLine v → OneLine (escape v)
unfolding escape
escape-OneLine [] h = tt
escape-OneLine (c ∷ v) (hc, hv) = ground (arith, escape-OneLine v hv)

pub encode-OneLine : (v : Text) → OneLine v → OneLine (encode_env_value v)
unfolding encode_env_value
encode-OneLine v h = elim (Bool-cases (is_bare_safe v)) [
  | inl bare ↦ rw bare h
  | inr quoted ↦
      rw quoted
        (omega arith, All-append _ (escape v) (b'"' ∷ []) (escape-OneLine v h) (omega arith))
]

-- What makes a pair of a key and a value one that the daemon writes.
abbrev pub IsEntry : Text × Text → Type 0
IsEntry kv = (is_valid_key kv.0 ≡ true) × (check_field_value kv.1 ≡ ok tt)

pub value-OneLine : (v : Text) → check_field_value v ≡ ok tt → OneLine v
unfolding check_field_value
value-OneLine v h = All-map control-newline v (any-All is_control v (ground arith))
