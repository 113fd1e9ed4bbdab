-- ===== src/Oidc/Check/Judged.antt =====
-- What a verdict of packages/oidc-credential-validator/src/main.rs rests on.
use foundrix.Base.{
  ℕ, ◌≤◌, ◌<◌, ◌≡◌, ◌≢◌, refl, ap, ◌⊎◌, inl, inr, arith, Bool, true, false, if-cases, if◌then◌else◌,
  List, [], ◌∷◌, Option, none, some, any, Text, codes, text_eq, text_eq_iff,
}
use foundrix.Oidc.Verdict.{Message, Verdict, valid, invalid, error}
use foundrix.Oidc.Requests.{
  is_ok_status, is_trouble, is_refused_login, OauthError, unnamed, invalid_client, refused_grant,
  other_error, oauth_error, introspection_error, token_error, Json,
}
use foundrix.Oidc.Check.{text_at, bool_at, classify_introspection, classify_token}

-- The names that refuse the grant.
abbrev refused_names : List Text
refused_names =
    codes "unsupported_grant_type"
    ∷ codes "unauthorized_client"
    ∷ codes "invalid_scope"
    ∷ codes "invalid_grant"
    ∷ codes "invalid_request"
    ∷ []

-- The code invalid_client comes from this text only, and no code from no text.
oauth_error-OauthError :
    (e : Option Text)
    → (oauth_error e ≡ invalid_client → e ≡ some (codes "invalid_client"))
      × (oauth_error e ≡ unnamed → e ≡ none)
unfolding oauth_error
oauth_error-OauthError none = (λ h. cc, λ h. refl)
oauth_error-OauthError (some e) =
    by (text_eq e (codes "invalid_client")) (any (text_eq e) refused_names)
      (text_eq_iff e (codes "invalid_client")).0
  where
    by :
        (b c : Bool)
        → (b ≡ true → e ≡ codes "invalid_client")
        → ((if b then invalid_client else if c then refused_grant else other_error) ≡ invalid_client
            → ◌≡◌ {A = Option Text} (some e) (some (codes "invalid_client")))
          × ((if b then invalid_client else if c then refused_grant else other_error) ≡ unnamed
              → ◌≡◌ {A = Option Text} (some e) none)
    by true c k = (λ h. ap some (k refl), λ h. cc)
    by false true k = (λ h. cc, λ h. cc)
    by false false k = (λ h. cc, λ h. cc)

module _ {J : Type 0} (json : Json J) where
  -- An answer that rejects the credentials: no success or trouble on the server, with the error code
  -- invalid_client, or without an error code and with the status 401 or 403.
  abbrev pub Rejects : ℕ → Text → Type 0
  Rejects status body =
      ((status < 200) ⊎ (300 ≤ status))
      × (status < 500)
      × (status ≢ 429)
      × ((text_at json (json.from_str body) (codes "error") ≡ some (codes "invalid_client"))
          ⊎ ((text_at json (json.from_str body) (codes "error") ≡ none)
              × ((status ≡ 401) ⊎ (status ≡ 403))))

  abbrev pub IsActive : ℕ → Text → Type 0
  IsActive status body = (b : Bool) × (bool_at json (json.from_str body) (codes "active") ≡ some b)

  abbrev pub Judges : (ℕ → Text → Type 0) → ℕ → Text → Verdict → Type 0
  Judges Accepts status body (valid m) = (200 ≤ status) × (status < 300) × Accepts status body
  Judges Accepts status body (invalid m) = Rejects status body
  Judges Accepts status body (error m) = Unit

  token_error-Judges :
      (status : ℕ) (body : Text) (x : OauthError)
      → oauth_error (text_at json (json.from_str body) (codes "error")) ≡ x
      → is_ok_status status ≡ false
      → is_trouble status ≡ false
      → Judges
          (λ _ _. Unit)
          status
          body
          (token_error status (text_at json (json.from_str body) (codes "error")) x)
  unfolding token_error
  token_error-Judges status body invalid_client h u v =
      (ground arith, ground arith, ground arith, inl ((oauth_error-OauthError _).0 h))
  token_error-Judges status body refused_grant h u v = tt
  token_error-Judges status body other_error h u v = tt
  token_error-Judges status body unnamed h u v =
      if-cases (Judges (λ _ _. Unit) status body) (is_refused_login status) _ _
        (λ k. (
          ground arith,
          ground arith,
          ground arith,
          inr ((oauth_error-OauthError _).1 h, ground arith),
        ))
        (λ k. tt)

  pub classify_token-Judges :
      (status : ℕ) (body : Text)
      → Judges (λ _ _. Unit) status body (classify_token json status body)
  unfolding classify_token
  classify_token-Judges status body =
      if-cases (Judges (λ _ _. Unit) status body) (is_ok_status status) _ _
        (λ u. (ground arith, ground arith, tt))
        (λ u.
          if-cases (Judges (λ _ _. Unit) status body) (is_trouble status) _ _ (λ v. tt)
            (λ v. token_error-Judges status body _ refl u v))

  introspection_error-Judges :
      (status : ℕ) (body : Text) (x : OauthError)
      → oauth_error (text_at json (json.from_str body) (codes "error")) ≡ x
      → is_ok_status status ≡ false
      → is_trouble status ≡ false
      → Judges IsActive status body
          (introspection_error status (text_at json (json.from_str body) (codes "error")) x)
  unfolding introspection_error
  introspection_error-Judges status body invalid_client h u v =
      (ground arith, ground arith, ground arith, inl ((oauth_error-OauthError _).0 h))
  introspection_error-Judges status body refused_grant h u v = tt
  introspection_error-Judges status body other_error h u v = tt
  introspection_error-Judges status body unnamed h u v =
      if-cases (Judges IsActive status body) (is_refused_login status) _ _
        (λ k. (
          ground arith,
          ground arith,
          ground arith,
          inr ((oauth_error-OauthError _).1 h, ground arith),
        ))
        (λ k. tt)

  pub classify_introspection-Judges :
      (status : ℕ) (body : Text)
      → Judges IsActive status body (classify_introspection json status body)
  unfolding classify_introspection
  classify_introspection-Judges status body =
      if-cases (Judges IsActive status body) (is_ok_status status) _ _
        (λ u. active (bool_at json (json.from_str body) (codes "active")) refl u)
        (λ u.
          if-cases (Judges IsActive status body) (is_trouble status) _ _ (λ v. tt)
            (λ v. introspection_error-Judges status body _ refl u v))
    where
      active :
          (o : Option Bool)
          → bool_at json (json.from_str body) (codes "active") ≡ o
          → is_ok_status status ≡ true
          → Judges IsActive status body (elim o as (λ x. Verdict) [
            | some b ↦ Verdict.valid Message.introspection_accepted
            | none ↦ Verdict.error (Message.introspection_without_active status)
          ])
      active (some b) q u = (ground arith, ground arith, (b, q))
      active none q u = tt
