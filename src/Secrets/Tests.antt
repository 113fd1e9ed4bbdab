-- ===== src/Secrets/Tests.antt =====
-- Runs of packages/operator-secrets on concrete inputs, and the theorems at such inputs.
use foundrix.Base.{
  ◌≡◌, refl, true, false, List, [], ◌∷◌, none, some, All, Text, codes, collect, lookup, insert,
  text_eq, inl, inr, ok,
}
use foundrix.Secrets.Spec.{FieldSpec, SecretSpec, check_keys, is_valid_key, is_some, field}
use foundrix.Secrets.Env.{
  decode_env_value, encode_env_value, encode_env_file, parse_env_file, check_field_value,
}
use foundrix.Secrets.Env.RoundTrip.{IsEntry, decode_env_value-encode_env_value}
use foundrix.Secrets.Env.File.{parse_env_file-encode_env_file}
use foundrix.Secrets.Stored.{classify_stored, complete, accept_submission}
use foundrix.Secrets.Stored.Laws.{
  IsAnswer, Has, Accepted, Distinct, accept_submission-IsAnswer, Has, Accepted, Distinct,
  accept_submission_complete,
}
use foundrix.Secrets.Stored.Saved.{classify_stored-accept_submission}

abbrev client_id : FieldSpec
client_id = record {
  name = codes "CLIENT_ID";
  description = codes "client identifier";
  sensitive = false;
}

abbrev client_secret : FieldSpec
client_secret = record { name = codes "CLIENT_SECRET"; description = []; sensitive = true }

abbrev forgejo : SecretSpec
forgejo = record {
  name = codes "forgejo-oidc";
  description = codes "Forgejo OIDC client credentials";
  fields = client_id ∷ client_secret ∷ [];
  path = codes "/var/credentials/forgejo-oidc.env";
  owner = codes "forgejo";
  group = none;
  mode = codes "0400";
  validate_command = some (codes "/bin/validate" ∷ []);
}

abbrev answer : List (Text × Text)
answer = (codes "CLIENT_SECRET", codes "$(id) `id` \"x\"") ∷ (codes "CLIENT_ID", codes "app-1") ∷ []

abbrev answer_in_order : List (Text × Text)
answer_in_order =
    (codes "CLIENT_ID", codes "app-1") ∷ (codes "CLIENT_SECRET", codes "$(id) `id` \"x\"") ∷ []

quoted : encode_env_value (codes "$(id)") ≡ codes "\"\\$(id)\""
unfolding encode_env_value codes
quoted = refl

answer_accepted : accept_submission forgejo answer ≡ ok answer_in_order
unfolding accept_submission field text_eq lookup insert check_field_value codes
answer_accepted = refl

entries : All IsEntry answer_in_order
unfolding is_valid_key check_field_value codes
entries = ((refl, refl), ((refl, refl), tt))

parse_env_file-encode_env_file_example :
    parse_env_file (encode_env_file answer_in_order) ≡ collect answer_in_order
parse_env_file-encode_env_file_example = parse_env_file-encode_env_file answer_in_order entries

decode_env_value-encode_env_value_example :
    decode_env_value (encode_env_value (codes "a\\ $b")) ≡ codes "a\\ $b"
decode_env_value-encode_env_value_example = decode_env_value-encode_env_value (codes "a\\ $b")

accept_submission-IsAnswer_example : IsAnswer forgejo answer answer_in_order
accept_submission-IsAnswer_example =
    accept_submission-IsAnswer forgejo answer answer_in_order answer_accepted

known_fields : All (λ kv. is_some (field forgejo kv.0) ≡ true) answer
unfolding field text_eq codes
known_fields = (refl, (refl, tt))

twice_none : Distinct answer
unfolding text_eq codes
twice_none = ((refl, tt), (tt, tt))

all_answered : All (λ f. (v : Text) × Has (f.name, v) answer × Accepted (f.name, v)) forgejo.fields
unfolding check_field_value codes
all_answered =
    ((codes "app-1", inr (inl refl), refl), ((codes "$(id) `id` \"x\"", inl refl, refl), tt))

accept_submission_complete_example :
    (out : List (Text × Text)) × (accept_submission forgejo answer ≡ ok out)
accept_submission_complete_example =
    accept_submission_complete forgejo answer known_fields twice_none all_answered

keys_checked : check_keys forgejo.name forgejo.fields ≡ ok tt
unfolding check_keys is_valid_key codes
keys_checked = refl

classify_stored-accept_submission_example :
    classify_stored forgejo (some (parse_env_file (encode_env_file answer_in_order)))
    ≡ complete answer_in_order
classify_stored-accept_submission_example =
    classify_stored-accept_submission forgejo answer answer_in_order keys_checked answer_accepted
