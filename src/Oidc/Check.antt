-- ===== src/Oidc/Check.antt =====
-- packages/oidc-credential-validator/src/main.rs: the discovery, the probes and their verdicts, over an
-- HTTP agent and a JSON reader that are parameters. A list keeps the exchanges, the last first.
pub mod Judged
pub mod Sound
pub mod Basic
use foundrix.Base.{
  ℕ, Bool, not, ◌&&◌, ◌||◌, List, [], ◌∷◌, ◌++◌, Option, none, some, ◌==◌, if◌then◌else◌, any, Text,
  codes, text_eq, Result, ok, err,
}
use foundrix.Oidc.Args.{Args}
use foundrix.Oidc.Verdict.{Message, Verdict, valid, error}
use foundrix.Oidc.Requests.{
  AuthMethod, Answer, Agent, Step, trim_slashes, is_ok_status, is_trouble, is_allowed, or_empty,
  basic_credentials, authorization, introspection_form, token_form, oauth_error,
  introspection_error, token_error, try_methods, send, basic, post, fetch, submit_form, no_answer,
  answered, Json,
}

module _ {J : Type 0} (json : Json J) where
  abbrev pub text_at : Option J → Text → Option Text
  text_at none key = none
  text_at (some v) key = elim (json.get v key) [ none ↦ none | some s ↦ json.as_str s ]

  abbrev pub bool_at : Option J → Text → Option Bool
  bool_at none key = none
  bool_at (some v) key = elim (json.get v key) [ none ↦ none | some b ↦ json.as_bool b ]

  -- The texts of an array.
  unfoldable pub texts_of : List J → List Text
  texts_of [] = []
  texts_of (v ∷ vs) = elim (json.as_str v) [ none ↦ texts_of vs | some s ↦ s ∷ texts_of vs ]

  abbrev pub supported_of : Option J → List Text
  supported_of none = []
  supported_of (some v) = elim (json.as_array v) [ none ↦ [] | some vs ↦ texts_of vs ]

  abbrev pub listed : Text → AuthMethod → List Text → List AuthMethod
  listed name method supported = if any (text_eq name) supported then method ∷ [] else []

  abbrev pub some_methods : Text → List Text → List AuthMethod → Result (List AuthMethod) Message
  some_methods key supported [] = err (Message.no_method key supported)
  some_methods key supported (m ∷ ms) = ok (m ∷ ms)

  unfoldable pub methods_of : Text → List Text → Result (List AuthMethod) Message
  unfolding text_eq
  methods_of key [] = ok (basic ∷ post ∷ [])
  methods_of key (s ∷ supported) = some_methods key (s ∷ supported) (
      listed (codes "client_secret_basic") basic (s ∷ supported)
      ++ listed (codes "client_secret_post") post (s ∷ supported))

  unfoldable pub negotiated_methods : J → Text → Result (List AuthMethod) Message
  unfolding texts_of methods_of
  negotiated_methods doc key = methods_of key (supported_of (json.get doc key))

  unfoldable pub classify_introspection : ℕ → Text → Verdict
  unfolding oauth_error introspection_error
  classify_introspection status body =
      if is_ok_status status
      then elim (bool_at (json.from_str body) (codes "active")) [
        | some b ↦ Verdict.valid Message.introspection_accepted
        | none ↦ Verdict.error (Message.introspection_without_active status)
      ]
      else if is_trouble status
      then Verdict.error (Message.introspection_undecided status)
      else let e = text_at (json.from_str body) (codes "error") in
        introspection_error status e (oauth_error e)

  -- What `token_request` makes of the status and the body.
  unfoldable pub classify_token : ℕ → Text → Verdict
  unfolding oauth_error token_error
  classify_token status body =
      if is_ok_status status
      then Verdict.valid (Message.token_accepted status)
      else if is_trouble status
      then Verdict.error (Message.token_undecided status)
      else let e = text_at (json.from_str body) (codes "error") in
        token_error status e (oauth_error e)

  -- A body that cannot be read counts as empty.
  abbrev pub judge : (ℕ → Text → Verdict) → Message → Answer → Verdict
  judge classify unsent no_answer = Verdict.error unsent
  judge classify unsent (answered status body) = classify status (or_empty body)

  module _ (agent : Agent) (args : Args) (client_id client_secret : Text) where
    unfoldable pub introspection_request : Text → AuthMethod → Step Verdict
    unfolding basic_credentials introspection_form classify_introspection
    introspection_request endpoint method t =
        let r =
          submit_form endpoint (authorization method client_id client_secret)
            (introspection_form method client_id client_secret) in
        (
          judge classify_introspection (Message.introspection_unsent endpoint) (send agent r t).0,
          (send agent r t).1,
        )

    unfoldable pub token_request : Text → AuthMethod → Step Verdict
    unfolding basic_credentials token_form classify_token
    token_request endpoint method t =
        let r =
          submit_form endpoint (authorization method client_id client_secret)
            (token_form args method client_id client_secret) in
        (
          judge classify_token (Message.token_unsent endpoint) (send agent r t).0,
          (send agent r t).1,
        )

    abbrev pub with_methods :
        (AuthMethod → Step Verdict) → Result (List AuthMethod) Message → Step Verdict
    with_methods req (err e) t = (Verdict.error e, t)
    with_methods req (ok methods) t = try_methods methods none req t

    -- The probe at an endpoint, unless the credentials may not be sent to it.
    unfoldable pub probe :
        Message
        → Text
        → (AuthMethod → Step Verdict)
        → Result (List AuthMethod) Message
        → Step Verdict
    unfolding is_allowed try_methods
    probe not_https endpoint req methods t =
        if not (is_allowed args endpoint)
        then (Verdict.error not_https, t)
        else with_methods req methods t

    abbrev pub with_token_endpoint : Text → J → Option Text → Step Verdict
    with_token_endpoint discovery_url doc none t =
        (Verdict.error (Message.no_endpoint discovery_url), t)
    with_token_endpoint discovery_url doc (some endpoint) t =
        probe (Message.token_not_https endpoint) endpoint (token_request endpoint)
          (negotiated_methods doc (codes "token_endpoint_auth_methods_supported")) t

    abbrev pub with_introspection_endpoint : Text → J → Option Text → Step Verdict
    with_introspection_endpoint discovery_url doc none t =
        with_token_endpoint discovery_url doc (text_at (some doc) (codes "token_endpoint")) t
    with_introspection_endpoint discovery_url doc (some endpoint) t =
        probe (Message.introspection_not_https endpoint) endpoint (introspection_request endpoint)
          (negotiated_methods doc (codes "introspection_endpoint_auth_methods_supported")) t

    abbrev pub with_doc : Text → Option J → Step Verdict
    with_doc discovery_url none t = (Verdict.error (Message.discovery_not_json discovery_url), t)
    with_doc discovery_url (some doc) t =
        with_introspection_endpoint discovery_url doc
          (text_at (some doc) (codes "introspection_endpoint")) t

    abbrev pub with_body : Text → Option Text → Step Verdict
    with_body discovery_url none t = (Verdict.error (Message.discovery_unread discovery_url), t)
    with_body discovery_url (some body) t = with_doc discovery_url (json.from_str body) t

    -- What discovery has answered.
    abbrev pub with_answer : Text → Answer → Step Verdict
    with_answer discovery_url no_answer t =
        (Verdict.error (Message.discovery_unfetched discovery_url), t)
    with_answer discovery_url (answered status body) t =
        if not (is_ok_status status)
        then (Verdict.error (Message.discovery_status discovery_url status), t)
        else with_body discovery_url body t

    unfoldable pub check : Step Verdict
    unfolding trim_slashes is_allowed introspection_request token_request negotiated_methods probe
    check t =
        let issuer = trim_slashes args.issuer in
        if not (is_allowed args issuer)
        then (Verdict.error (Message.issuer_not_https issuer), t)
        else let url = issuer ++ codes "/.well-known/openid-configuration" in
          with_answer url (send agent (fetch url) t).0 (send agent (fetch url) t).1
