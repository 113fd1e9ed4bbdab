-- ===== src/Oidc/Tests.antt =====
-- Runs of packages/oidc-credential-validator on concrete inputs, and the theorems at such inputs.
use foundrix.Base.{
  ℕ, ◌≡◌, refl, arith, Bool, true, false, List, [], ◌∷◌, Option, none, some, if◌then◌else◌, Map,
  Text, codes, text_eq, Result, ok, err,
}
use foundrix.Oidc.Args.{Args, parse_args, Stop}
use foundrix.Oidc.Encode.{bytes, escape_bytes, form_urlencode, base64}
use foundrix.Oidc.Encode.Base64.{read_base64, read_base64-base64}
use foundrix.Oidc.Encode.Form.{read_form, read_form-escape_bytes}
use foundrix.Oidc.Verdict.{Verdict, valid, invalid, error}
use foundrix.Oidc.Requests.{Agent, fetch, submit_form, answered, basic_credentials, Json}
use foundrix.Oidc.Check.{check}
use foundrix.Oidc.Check.Basic.{read_basic, read_basic-basic_credentials}
use foundrix.Oidc.Run.{main, IsJudged, main-IsJudged}
use foundrix.Oidc.Check.Sound.{Sound, check-Sound}

abbrev three_bytes : List ℕ
three_bytes = 102 ∷ 111 ∷ 255 ∷ 7 ∷ []

read_base64-base64_example : read_base64 (base64 three_bytes) ≡ three_bytes
read_base64-base64_example =
    read_base64-base64 three_bytes (omega arith, (omega arith, (omega arith, (omega arith, tt))))

read_form-escape_bytes_example : read_form (escape_bytes three_bytes) ≡ three_bytes
read_form-escape_bytes_example =
    read_form-escape_bytes three_bytes
      (omega arith, (omega arith, (omega arith, (omega arith, tt))))

base64_foobar : base64 (codes "foobar") ≡ codes "Zm9vYmFy"
unfolding base64 codes
base64_foobar = refl

escaped_colon : form_urlencode (codes "a:b") ≡ codes "a%3Ab"
unfolding form_urlencode bytes codes
escaped_colon = refl

abbrev colon_id : Text
colon_id = b'a' ∷ b':' ∷ []

abbrev accented_secret : Text
accented_secret = b' ' ∷ 252 ∷ []

read_basic-basic_credentials_example :
    read_basic (basic_credentials colon_id accented_secret)
    ≡ some (bytes colon_id, bytes accented_secret)
read_basic-basic_credentials_example =
    read_basic-basic_credentials colon_id accented_secret (omega arith, (omega arith, tt))
      (omega arith, (omega arith, tt))

-- JSON for these runs: an object is read from a text that names its fields.
pub data Value : Type 0 where
  string : Text → Value
  object : List (Text × Text) → Value

abbrev find : List (Text × Text) → Text → Option Value
find [] key = none
find ((k, v) ∷ fields) key = if text_eq k key then some (string v) else find fields key

abbrev known : Text → List (Text × Text)
known s =
    if text_eq s (codes "discovery")
    then (codes "token_endpoint", codes "https://id.example/token") ∷ []
    else (codes "error", s) ∷ []

abbrev reader : Json Value
reader = record {
  from_str = λ s. some (object (known s));
  get = λ v key. elim v [ string s ↦ none | object fields ↦ find fields key ];
  as_str = λ v. elim v [ string s ↦ some s | object fields ↦ none ];
  as_bool = λ v. none;
  as_array = λ v. none;
}

-- A provider that rejects the credentials, however they are sent.
abbrev rejecting : Agent
rejecting t (fetch url) = answered 200 (some (codes "discovery"))
rejecting t (submit_form url header form) = answered 401 (some (codes "invalid_client"))

abbrev options : Args
options = record {
  issuer = codes "https://id.example/";
  client_id_field = codes "CLIENT_ID";
  client_secret_field = codes "CLIENT_SECRET";
  scope = none;
  timeout = 15;
  allow_insecure_http = false;
}

abbrev is_invalid : Verdict → Bool
is_invalid (valid m) = false
is_invalid (invalid m) = true
is_invalid (error m) = false

rejected : is_invalid (check reader rejecting options colon_id accented_secret []).0 ≡ true
unfolding check codes
rejected = refl

check-Sound_example :
    Sound reader options colon_id accented_secret
      (check reader rejecting options colon_id accented_secret [])
check-Sound_example = check-Sound reader options colon_id accented_secret rejecting

abbrev any_fields : Text → Option (Map Text Text)
any_fields input =
    some ((codes "CLIENT_ID", colon_id) ∷ (codes "CLIENT_SECRET", accented_secret) ∷ [])

abbrev arguments : List Text
arguments = codes "--issuer" ∷ codes "https://id.example" ∷ []

main-IsJudged_example :
    IsJudged reader rejecting any_fields arguments
      (some [])
      (main reader rejecting any_fields arguments (some []))
main-IsJudged_example = main-IsJudged reader rejecting any_fields arguments (some [])

-- Which option an argument without a value was.
abbrev stop_of : Result Args Stop → Option Stop
stop_of (ok a) = none
stop_of (err e) = some e

unfinished :
    stop_of (parse_args (codes "--scope" ∷ [])) ≡ some (Stop.needs_a_value (codes "--scope"))
unfolding parse_args codes
unfinished = refl
