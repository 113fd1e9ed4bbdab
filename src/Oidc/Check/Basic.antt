-- ===== src/Oidc/Check/Basic.antt =====
-- What a server makes of the Basic header of packages/oidc-credential-validator/src/main.rs.
use foundrix.Base.{
  ℕ, ◌<◌, ◌≡◌, ◌≢◌, refl, arith, List, ◌∷◌, ◌++◌, Option, none, some, All, All-append, All-map,
  Text, codes, strip_prefix, split_once,
}
use foundrix.Oidc.Encode.{bytes, escape_bytes, form_urlencode}
use foundrix.Base.TextLaws.{split_once-append}
use foundrix.Oidc.Requests.{basic_credentials}
use foundrix.Oidc.Encode.Base64.{IsByte, read_base64, read_base64-base64}
use foundrix.Oidc.Encode.Form.{
  IsSafe, IsChar, read_form, read_form-escape_bytes, escape_bytes-IsSafe, bytes-IsByte, bytes-ascii,
}

-- What a server makes of a Basic header: the bytes of the identifier and of the secret.
abbrev both_forms : Option (Text × Text) → Option (List ℕ × List ℕ)
both_forms none = none
both_forms (some (a, b)) = some (read_form a, read_form b)

abbrev read_credentials : Option Text → Option (List ℕ × List ℕ)
read_credentials none = none
read_credentials (some encoded) = both_forms (split_once b':' (read_base64 encoded))

unfoldable pub read_basic : Text → Option (List ℕ × List ℕ)
unfolding strip_prefix split_once read_base64 read_form
read_basic header = read_credentials (strip_prefix (codes "Basic ") header)

-- A server that reads a Basic header as RFC 6749 says gets the bytes of the identifier and of the
-- secret, whatever characters they have: also a colon in either does not move the boundary.
pub read_basic-basic_credentials :
    (client_id client_secret : Text)
    → All IsChar client_id
    → All IsChar client_secret
    → read_basic (basic_credentials client_id client_secret)
      ≡ some (bytes client_id, bytes client_secret)
unfolding read_basic basic_credentials form_urlencode strip_prefix codes
read_basic-basic_credentials client_id client_secret hi hs =
    rw
      (
        bytes-ascii pair ascii,
        read_base64-base64 pair (bytes_of pair ascii),
        split_once-append b':' left right no_colon,
        read_form-escape_bytes (bytes client_id) (bytes-IsByte client_id hi),
        read_form-escape_bytes (bytes client_secret) (bytes-IsByte client_secret hs),
      )
      refl
  where
    left : Text
    left = escape_bytes (bytes client_id)

    right : Text
    right = escape_bytes (bytes client_secret)

    pair : Text
    pair = left ++ b':' ∷ right

    safe_left : All IsSafe left
    safe_left = escape_bytes-IsSafe (bytes client_id) (bytes-IsByte client_id hi)

    safe_right : All IsSafe right
    safe_right = escape_bytes-IsSafe (bytes client_secret) (bytes-IsByte client_secret hs)

    no_colon : All (λ c. c ≢ b':') left
    no_colon = All-map {P = IsSafe} {Q = λ c. c ≢ b':'} (λ c x. x.1) left safe_left

    ascii : All (λ c. c < 128) pair
    ascii =
        All-append (λ c. c < 128) left (b':' ∷ right)
          (All-map {P = IsSafe} {Q = λ c. c < 128} (λ c x. x.0) left safe_left)
          (omega arith, All-map {P = IsSafe} {Q = λ c. c < 128} (λ c x. x.0) right safe_right)

    bytes_of : (s : Text) → All (λ c. c < 128) s → All IsByte s
    bytes_of s h = All-map {P = λ c. c < 128} {Q = IsByte} (λ c x. omega (arith, x)) s h
