-- ===== src/Secrets/Spec.antt =====
-- packages/operator-secrets/src/lib.rs, the spec: what the daemon is told about each secret, and
-- the checks that `Spec::parse` makes on it. The JSON reader is a parameter. An error message is a
-- constructor with the values that the message names.
use foundrix.Base.{
  ℕ, Bool, true, false, ◌&&◌, ◌||◌, not, List, [], ◌∷◌, Option, none, some, ltb, leb, ◌==◌,
  if◌then◌else◌, length, is_empty, find, all, Text, text_eq, starts_with, parse_unsigned,
  is_ascii_digit, is_ascii_alphanumeric, Result, ok, ◌>>=◌, ◌>>◌, ensure, map_err,
}

pub record FieldSpec : Type 0 where
  pub name : Text
  pub description : Text
  pub sensitive : Bool

pub record SecretSpec : Type 0 where
  pub name : Text
  pub description : Text
  pub fields : List FieldSpec
  pub path : Text
  pub owner : Text
  pub group : Option Text
  pub mode : Text
  pub validate_command : Option (List Text)

pub record Spec : Type 0 where
  pub version : ℕ
  pub secrets : List SecretSpec

abbrev pub spec_version : ℕ
spec_version = 1

-- `SecretSpec::group`
unfoldable pub group_of : SecretSpec → Text
group_of s = elim s.group [ none ↦ s.owner | some g ↦ g ]

-- `SecretSpec::field`
unfoldable pub field : SecretSpec → Text → Option FieldSpec
field s k = find (λ f. text_eq f.name k) s.fields

unfoldable pub is_octal_digit : ℕ → Bool
is_octal_digit c = leb b'0' c && leb c b'7'

unfoldable pub parse_mode : Text → Option ℕ
unfolding is_octal_digit parse_unsigned
parse_mode mode =
    if is_empty mode || ltb 5 (length mode) || not (all is_octal_digit mode)
    then none
    else elim (parse_unsigned 8 0xffff_ffff mode) [
      | none ↦ none
      | some v ↦ if ltb 0o7777 v then none else some v
    ]

abbrev pub starts_with_digit : Text → Bool
starts_with_digit [] = false
starts_with_digit (c ∷ k) = is_ascii_digit c

unfoldable pub is_key_char : ℕ → Bool
unfolding is_ascii_alphanumeric
is_key_char c = is_ascii_alphanumeric c || c == b'_'

unfoldable pub is_valid_key : Text → Bool
unfolding is_ascii_digit is_key_char
is_valid_key k = not (is_empty k) && not (starts_with_digit k) && all is_key_char k

pub data SpecError : Type 0 where
  parsing : Text → SpecError
  unsupported : ℕ → SpecError
  no_fields empty_validate_command relative_path : Text → SpecError
  bad_mode : Text → Text → SpecError
  bad_key : Text → Text → SpecError

abbrev pub has_empty_command : Option (List Text) → Bool
has_empty_command none = false
has_empty_command (some argv) = is_empty argv

abbrev pub is_some {ℓ} : {A : Type ℓ} → Option A → Bool
is_some none = false
is_some (some a) = true

unfoldable pub check_keys : Text → List FieldSpec → Result (Unit {0}) SpecError
check_keys secret [] = ok tt
check_keys secret (f ∷ fs) =
    ensure (is_valid_key f.name) (bad_key secret f.name) >> check_keys secret fs

-- One round of the loop over the secrets.
unfoldable pub check_secret : SecretSpec → Result (Unit {0}) SpecError
unfolding check_keys
check_secret s = do
  ensure (not (is_empty s.fields)) (no_fields s.name)
  ensure (not (has_empty_command s.validate_command)) (empty_validate_command s.name)
  ensure (starts_with (b'/' ∷ []) s.path) (relative_path s.name)
  ensure (is_some (parse_mode s.mode)) (bad_mode s.name s.mode)
  check_keys s.name s.fields

unfoldable pub check_secrets : List SecretSpec → Result (Unit {0}) SpecError
unfolding check_secret
check_secrets [] = ok tt
check_secrets (s ∷ ss) = check_secret s >> check_secrets ss

-- `Spec::parse`, over the JSON reader.
module _ (from_str : Text → Result Spec Text) where
  unfoldable pub parse : Text → Result Spec SpecError
  unfolding check_secrets
  parse text = do
    spec ← map_err parsing (from_str text)
    ensure (spec.version == spec_version) (unsupported spec.version)
    check_secrets spec.secrets
    ok spec
