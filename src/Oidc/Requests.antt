-- ===== src/Oidc/Requests.antt =====
-- packages/oidc-credential-validator/src/main.rs: the requests, their forms and credentials, and what
-- an OAuth error says of them. The HTTP agent and the JSON reader are parameters.
use foundrix.Base.{
  ℕ, Bool, ◌&&◌, ◌||◌, List, [], ◌∷◌, ◌++◌, Option, none, some, ltb, leb, ◌==◌, if◌then◌else◌, any,
  is_empty, Text, codes, text_eq, starts_with,
}
use foundrix.Oidc.Args.{Args}
use foundrix.Oidc.Encode.{bytes, form_urlencode, base64}
use foundrix.Oidc.Verdict.{Message, Verdict, valid, invalid, error}

pub data AuthMethod : Type 0 where
  basic post : AuthMethod

-- A request: a fetch, or a form with an Authorization header or none.
pub data Request : Type 0 where
  fetch : Text → Request
  submit_form : Text → Option Text → List (Text × Text) → Request

-- What comes back: no answer, or a status with a body that could be read or not.
pub data Answer : Type 0 where
  no_answer : Answer
  answered : ℕ → Option Text → Answer

abbrev pub Exchange : Type 0
Exchange = Request × Answer

-- The agent may answer by all that was exchanged before.
abbrev pub Agent : Type 0
Agent = List Exchange → Request → Answer

-- The JSON reader and the accessors of its values.
pub record Json (J : Type 0) : Type 0 where
  pub from_str : Text → Option J
  pub get : J → Text → Option J
  pub as_str : J → Option Text
  pub as_bool : J → Option Bool
  pub as_array : J → Option (List J)

abbrev pub Step : Type 0 → Type 0
Step A = List Exchange → A × List Exchange

-- The slashes at the end of the issuer.
unfoldable pub trim_slashes : Text → Text
trim_slashes [] = []
trim_slashes (c ∷ s) =
    let rest = trim_slashes s in if is_empty rest && c == b'/' then [] else c ∷ rest

abbrev pub is_ok_status : ℕ → Bool
is_ok_status status = leb 200 status && ltb status 300

abbrev pub is_trouble : ℕ → Bool
is_trouble status = leb 500 status || status == 429

abbrev pub is_refused_login : ℕ → Bool
is_refused_login status = status == 401 || status == 403

-- The credentials may be sent to this address.
unfoldable pub is_allowed : Args → Text → Bool
unfolding starts_with
is_allowed args url = starts_with (codes "https://") url || args.allow_insecure_http

abbrev pub or_empty : Option Text → Text
or_empty none = []
or_empty (some s) = s

-- The Authorization header of the method Basic.
unfoldable pub basic_credentials : Text → Text → Text
unfolding bytes form_urlencode base64
basic_credentials client_id client_secret =
    codes "Basic "
    ++ base64 (bytes (form_urlencode client_id ++ b':' ∷ form_urlencode client_secret))

abbrev pub authorization : AuthMethod → Text → Text → Option Text
authorization basic client_id client_secret = some (basic_credentials client_id client_secret)
authorization post client_id client_secret = none

unfoldable pub introspection_form : AuthMethod → Text → Text → List (Text × Text)
introspection_form basic client_id client_secret =
    (codes "token", codes "operator-secrets-liveness-probe") ∷ []
introspection_form post client_id client_secret =
    (codes "token", codes "operator-secrets-liveness-probe")
    ∷ (codes "client_id", client_id)
    ∷ (codes "client_secret", client_secret)
    ∷ []

abbrev pub scope_field : Option Text → List (Text × Text)
scope_field none = []
scope_field (some scope) = (codes "scope", scope) ∷ []

abbrev pub secret_field : AuthMethod → Text → List (Text × Text)
secret_field basic client_secret = []
secret_field post client_secret = (codes "client_secret", client_secret) ∷ []

unfoldable pub token_form : Args → AuthMethod → Text → Text → List (Text × Text)
token_form args method client_id client_secret =
    (codes "grant_type", codes "client_credentials")
    ∷ (scope_field args.scope
        ++ ((codes "client_id", client_id) ∷ secret_field method client_secret))

-- The error codes of OAuth that the token endpoint's verdict knows.
pub data OauthError : Type 0 where
  unnamed invalid_client refused_grant other_error : OauthError

unfoldable pub oauth_error : Option Text → OauthError
unfolding text_eq
oauth_error none = unnamed
oauth_error (some e) =
    if text_eq e (codes "invalid_client")
    then invalid_client
    else if any (text_eq e) (
        codes "unsupported_grant_type"
        ∷ codes "unauthorized_client"
        ∷ codes "invalid_scope"
        ∷ codes "invalid_grant"
        ∷ codes "invalid_request"
        ∷ [])
    then refused_grant
    else other_error

-- The last match of `classify_introspection`.
unfoldable pub introspection_error : ℕ → Option Text → OauthError → Verdict
introspection_error status e invalid_client =
    Verdict.invalid (Message.introspection_rejected status e)
introspection_error status e unnamed =
    if is_refused_login status
    then Verdict.invalid (Message.introspection_rejected status e)
    else Verdict.error (Message.introspection_answered status e)
introspection_error status e refused_grant = Verdict.error (Message.introspection_answered status e)
introspection_error status e other_error = Verdict.error (Message.introspection_answered status e)

-- The last match of `token_request`.
unfoldable pub token_error : ℕ → Option Text → OauthError → Verdict
token_error status e invalid_client = Verdict.invalid (Message.token_rejected status e)
token_error status e refused_grant = Verdict.error (Message.token_refused status e)
token_error status e unnamed =
    if is_refused_login status
    then Verdict.invalid (Message.token_rejected status e)
    else Verdict.error (Message.token_answered status e)
token_error status e other_error = Verdict.error (Message.token_answered status e)

-- `try_methods`: the methods in turn, until one does not reject.
unfoldable pub try_methods :
    List AuthMethod → Option Message → (AuthMethod → Step Verdict) → Step Verdict
try_methods [] none req t = (Verdict.invalid Message.credentials_rejected, t)
try_methods [] (some m) req t = (Verdict.invalid m, t)
try_methods (method ∷ methods) last req t = elim (req method t).0 [
  | valid m ↦ (Verdict.valid m, (req method t).1)
  | error m ↦ (Verdict.error m, (req method t).1)
  | invalid m ↦ try_methods methods (some m) req (req method t).1
]

-- A request is sent.
abbrev pub send : Agent → Request → Step Answer
send agent r t = (agent t r, (r, agent t r) ∷ t)
