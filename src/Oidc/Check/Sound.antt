-- ===== src/Oidc/Check/Sound.antt =====
-- The exchanges that a verdict of packages/oidc-credential-validator/src/main.rs rests on.
use foundrix.Base.{
  ℕ, ◌≤◌, ◌<◌, ◌≡◌, refl, ◌⊎◌, inl, inr, Bool, true, false, not, ◌||◌, if-cases, List, [], ◌∷◌,
  ◌++◌, Option, none, some, Text, codes, starts_with, Result, ok, err,
}
use foundrix.Oidc.Args.{Args}
use foundrix.Oidc.Verdict.{Message, Verdict, valid, invalid, error}
use foundrix.Oidc.Requests.{
  AuthMethod, Request, fetch, submit_form, Answer, no_answer, answered, Exchange, Agent, Step,
  trim_slashes, is_ok_status, is_allowed, or_empty, authorization, introspection_form, token_form,
  try_methods, Json,
}
use foundrix.Oidc.Check.{
  text_at, negotiated_methods, methods_of, some_methods, classify_introspection, classify_token,
  judge, introspection_request, token_request, with_methods, probe, with_token_endpoint,
  with_introspection_endpoint, with_doc, with_answer, check,
}
use foundrix.Oidc.Check.Judged.{
  Rejects, IsActive, Judges, classify_introspection-Judges, classify_token-Judges,
}

abbrev pub Happened : Exchange → List Exchange → Type 0
Happened x [] = ⊥
Happened x (y ∷ t) = (y ≡ x) ⊎ Happened x t

-- The credentials may go to this address.
abbrev pub IsAllowed : Args → Text → Type 0
IsAllowed args url = (starts_with (codes "https://") url ≡ true) ⊎ (args.allow_insecure_http ≡ true)

some_true : (a b : Bool) → not (a || b) ≡ false → (a ≡ true) ⊎ (b ≡ true)
some_true true b h = inl refl
some_true false true h = inr refl
some_true false false h = cc

-- Every form went to an address where it may go.
abbrev pub AllAllowed : Args → List Exchange → Type 0
AllAllowed args [] = Unit
AllAllowed args ((fetch url, a) ∷ t) = AllAllowed args t
AllAllowed args ((submit_form url header form, a) ∷ t) = IsAllowed args url × AllAllowed args t

module _ {J : Type 0} (json : Json J) (args : Args) (client_id client_secret : Text) where
  -- The exchange that a verdict other than an error rests on: a form with the credentials, and its
  -- answer, which rejects them, or which accepts them: a success of the token endpoint, or of the
  -- introspection endpoint with the field `active`.
  abbrev pub SentForm : Request → Type 0
  SentForm (fetch url) = ⊥
  SentForm (submit_form url header form) =
      (method : AuthMethod) × (header ≡ authorization method client_id client_secret)
      × ((form ≡ introspection_form method client_id client_secret)
          ⊎ (form ≡ token_form args method client_id client_secret))

  abbrev pub AcceptedForm : ℕ → Text → Request → Type 0
  AcceptedForm status body (fetch url) = ⊥
  AcceptedForm status body (submit_form url header form) =
      (method : AuthMethod) × (header ≡ authorization method client_id client_secret)
      × (((form ≡ introspection_form method client_id client_secret) × IsActive json status body)
          ⊎ (form ≡ token_form args method client_id client_secret))

  abbrev pub HasRejection : List Exchange → Type 0
  HasRejection t =
      (r : Request) × (status : ℕ) × (body : Option Text) × SentForm r
      × Rejects json status (or_empty body)
      × Happened (r, answered status body) t

  abbrev pub HasAcceptance : List Exchange → Type 0
  HasAcceptance t =
      (r : Request) × (status : ℕ) × (body : Option Text) × AcceptedForm status (or_empty body) r
      × (200 ≤ status)
      × (status < 300)
      × Happened (r, answered status body) t

  abbrev pub Rests : Verdict → List Exchange → Type 0
  Rests (valid m) t = HasAcceptance t
  Rests (invalid m) t = HasRejection t
  Rests (error m) t = Unit

  abbrev pub Sound : Verdict × List Exchange → Type 0
  Sound p = AllAllowed args p.1 × Rests p.0 p.1

  judged_form :
      (Accepts : ℕ → Text → Type 0) (classify : ℕ → Text → Verdict) (unsent : Message) (r : Request)
      (a : Answer) (t : List Exchange)
      → ((status : ℕ) (body : Text) → Judges json Accepts status body (classify status body))
      → SentForm r
      → ((status : ℕ) (body : Text) → Accepts status body → AcceptedForm status body r)
      → Rests (judge json classify unsent a) ((r, a) ∷ t)
  judged_form Accepts classify unsent r no_answer t j sent accepted = tt
  judged_form Accepts classify unsent r (answered status body) t j sent accepted =
      by (classify status (or_empty body)) (j status (or_empty body))
    where
      by :
          (v : Verdict)
          → Judges json Accepts status (or_empty body) v
          → Rests v ((r, answered status body) ∷ t)
      by (valid m) (low, high, ok_body) =
          (r, status, body, accepted status (or_empty body) ok_body, low, high, inl refl)
      by (invalid m) rejects = (r, status, body, sent, rejects, inl refl)
      by (error m) k = tt

  module _ (agent : Agent) where
    introspection_request-Sound :
        (endpoint : Text) (method : AuthMethod) (t : List Exchange)
        → IsAllowed args endpoint
        → AllAllowed args t
        → Sound (introspection_request json agent args client_id client_secret endpoint method t)
    unfolding introspection_request
    introspection_request-Sound endpoint method t allowed all = (
      (allowed, all),
      judged_form (IsActive json) (classify_introspection json)
          (Message.introspection_unsent endpoint)
          (submit_form endpoint (authorization method client_id client_secret)
            (introspection_form method client_id client_secret))
          (agent t (
            submit_form endpoint (authorization method client_id client_secret)
              (introspection_form method client_id client_secret)))
          t (classify_introspection-Judges json) (method, refl, inl refl)
          (λ status body active. (method, refl, inl (refl, active))),
    )

    token_request-Sound :
        (endpoint : Text) (method : AuthMethod) (t : List Exchange)
        → IsAllowed args endpoint
        → AllAllowed args t
        → Sound (token_request json agent args client_id client_secret endpoint method t)
    unfolding token_request
    token_request-Sound endpoint method t allowed all = (
      (allowed, all),
      judged_form (λ _ _. Unit) (classify_token json) (Message.token_unsent endpoint)
          (submit_form endpoint (authorization method client_id client_secret)
            (token_form args method client_id client_secret))
          (agent t (
            submit_form endpoint (authorization method client_id client_secret)
              (token_form args method client_id client_secret)))
          t (classify_token-Judges json) (method, refl, inr refl)
          (λ status body u. (method, refl, inr refl)),
    )

  -- A rejection by one method is kept for the end of the loop.
  again_Sound :
      (methods : List AuthMethod) (m : Message) (req : AuthMethod → Step Verdict)
      (t : List Exchange)
      → ((method : AuthMethod) (t : List Exchange) → AllAllowed args t → Sound (req method t))
      → AllAllowed args t
      → HasRejection t
      → Sound (try_methods methods (some m) req t)
  unfolding try_methods
  again_Sound [] m req t k all h = (all, h)
  again_Sound (method ∷ methods) m req t k all h =
      by (req method t).0 (req method t).1 (k method t all) (λ n t1. again_Sound methods n req t1 k)
    where
      by :
          (v : Verdict) (t1 : List Exchange)
          → Sound (v, t1)
          → ((n : Message) (t2 : List Exchange)
              → AllAllowed args t2
              → HasRejection t2
              → Sound (try_methods methods (some n) req t2))
          → Sound (elim v as (λ x. Verdict × List Exchange) [
            | valid n ↦ (Verdict.valid n, t1)
            | error n ↦ (Verdict.error n, t1)
            | invalid n ↦ try_methods methods (some n) req t1
          ])
      by (valid n) t1 s again = s
      by (error n) t1 s again = s
      by (invalid n) t1 s again = again n t1 s.0 s.1

  first_Sound :
      (method : AuthMethod) (methods : List AuthMethod) (req : AuthMethod → Step Verdict)
      (t : List Exchange)
      → ((method : AuthMethod) (t : List Exchange) → AllAllowed args t → Sound (req method t))
      → AllAllowed args t
      → Sound (try_methods (method ∷ methods) none req t)
  unfolding try_methods
  first_Sound method methods req t k all = by (req method t).0 (req method t).1 (k method t all)
    where
      by :
          (v : Verdict) (t1 : List Exchange)
          → Sound (v, t1)
          → Sound (elim v as (λ x. Verdict × List Exchange) [
            | valid n ↦ (Verdict.valid n, t1)
            | error n ↦ (Verdict.error n, t1)
            | invalid n ↦ try_methods methods (some n) req t1
          ])
      by (valid n) t1 s = s
      by (error n) t1 s = s
      by (invalid n) t1 s = again_Sound methods n req t1 k s.0 s.1

  -- Some method is to be tried.
  abbrev HasMethod : Result (List AuthMethod) Message → Type 0
  HasMethod (ok []) = ⊥
  HasMethod (ok (m ∷ ms)) = Unit
  HasMethod (err e) = Unit

  some_methods-HasMethod :
      (key : Text) (supported : List Text) (ms : List AuthMethod)
      → HasMethod (some_methods json key supported ms)
  some_methods-HasMethod key supported [] = tt
  some_methods-HasMethod key supported (m ∷ ms) = tt

  methods_of-HasMethod :
      (key : Text) (supported : List Text) → HasMethod (methods_of json key supported)
  unfolding methods_of
  methods_of-HasMethod key [] = tt
  methods_of-HasMethod key (s ∷ supported) = some_methods-HasMethod key (s ∷ supported) _

  module _ (agent : Agent) where
    with_methods-Sound :
        (req : AuthMethod → Step Verdict) (methods : Result (List AuthMethod) Message)
        (t : List Exchange)
        → HasMethod methods
        → ((method : AuthMethod) (t : List Exchange) → AllAllowed args t → Sound (req method t))
        → AllAllowed args t
        → Sound (with_methods json agent args client_id client_secret req methods t)
    with_methods-Sound req (err e) t h k all = (all, tt)
    with_methods-Sound req (ok []) t h k all = absurd h
    with_methods-Sound req (ok (m ∷ ms)) t h k all = first_Sound m ms req t k all

    probe-Sound :
        (not_https : Message) (endpoint : Text) (req : AuthMethod → Step Verdict)
        (methods : Result (List AuthMethod) Message) (t : List Exchange)
        → HasMethod methods
        → (IsAllowed args endpoint
            → (method : AuthMethod) (t : List Exchange) → AllAllowed args t
            → Sound (req method t))
        → AllAllowed args t
        → Sound (probe json agent args client_id client_secret not_https endpoint req methods t)
    unfolding probe is_allowed
    probe-Sound not_https endpoint req methods t h k all =
        if-cases Sound (not (starts_with (codes "https://") endpoint || args.allow_insecure_http)) _
          _ (λ u. (all, tt)) (λ u. with_methods-Sound req methods t h (k (allowed u)) all)
      where
        allowed :
            not (starts_with (codes "https://") endpoint || args.allow_insecure_http) ≡ false
            → IsAllowed args endpoint
        allowed u = some_true (starts_with (codes "https://") endpoint) args.allow_insecure_http u

    with_token_endpoint-Sound :
        (url : Text) (doc : J) (o : Option Text) (t : List Exchange)
        → AllAllowed args t
        → Sound (with_token_endpoint json agent args client_id client_secret url doc o t)
    unfolding negotiated_methods
    with_token_endpoint-Sound url doc none t all = (all, tt)
    with_token_endpoint-Sound url doc (some endpoint) t all =
        probe-Sound (Message.token_not_https endpoint) endpoint
          (token_request json agent args client_id client_secret endpoint) _ t
          (methods_of-HasMethod (codes "token_endpoint_auth_methods_supported") _)
          (λ allowed method t1 all1. token_request-Sound agent endpoint method t1 allowed all1) all

    with_introspection_endpoint-Sound :
        (url : Text) (doc : J) (o : Option Text) (t : List Exchange)
        → AllAllowed args t
        → Sound (with_introspection_endpoint json agent args client_id client_secret url doc o t)
    unfolding negotiated_methods
    with_introspection_endpoint-Sound url doc none t all =
        with_token_endpoint-Sound url doc (text_at json (some doc) (codes "token_endpoint")) t all
    with_introspection_endpoint-Sound url doc (some endpoint) t all =
        probe-Sound (Message.introspection_not_https endpoint) endpoint
          (introspection_request json agent args client_id client_secret endpoint) _ t
          (methods_of-HasMethod (codes "introspection_endpoint_auth_methods_supported") _)
          (λ allowed method t1 all1.
            introspection_request-Sound agent endpoint method t1 allowed all1)
          all

    with_doc-Sound :
        (url : Text) (o : Option J) (t : List Exchange)
        → AllAllowed args t
        → Sound (with_doc json agent args client_id client_secret url o t)
    with_doc-Sound url none t all = (all, tt)
    with_doc-Sound url (some doc) t all = with_introspection_endpoint-Sound url doc _ t all

    with_answer-Sound :
        (url : Text) (a : Answer) (t : List Exchange)
        → AllAllowed args t
        → Sound (with_answer json agent args client_id client_secret url a t)
    with_answer-Sound url no_answer t all = (all, tt)
    with_answer-Sound url (answered status none) t all =
        if-cases Sound (not (is_ok_status status)) _ _ (λ u. (all, tt)) (λ u. (all, tt))
    with_answer-Sound url (answered status (some body)) t all =
        if-cases Sound (not (is_ok_status status)) _ _ (λ u. (all, tt))
          (λ u. with_doc-Sound url (json.from_str body) t all)

    -- For any agent and any JSON reader, the verdict on a check rests on what was exchanged: it is valid
    -- only after a success of the token endpoint for a form with the credentials, or a success of the
    -- introspection endpoint with the field `active`; it is invalid only after an answer that rejects
    -- the credentials, with the code invalid_client or with the status 401 or 403 and no code, and
    -- never on a success, a status of 500 or more, or 429; and each form went to an https address,
    -- unless plain http is allowed.
    pub check-Sound : Sound (check json agent args client_id client_secret [])
    unfolding check
    check-Sound =
        if-cases Sound (not (is_allowed args (trim_slashes args.issuer))) _ _ (λ u. (tt, tt))
          (λ u.
            with_answer-Sound
              (trim_slashes args.issuer ++ codes "/.well-known/openid-configuration")
              (agent []
                (fetch (trim_slashes args.issuer ++ codes "/.well-known/openid-configuration")))
              _ tt)
