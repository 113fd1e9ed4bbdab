-- ===== src/Oidc/Args.antt =====
-- packages/oidc-credential-validator/src/main.rs: the arguments.
pub mod Help
use foundrix.Base.{
  ℕ, ◌^◌, ◌-◌, Bool, true, false, List, [], ◌∷◌, Option, none, some, if◌then◌else◌, Text, codes,
  text_eq, parse_unsigned, Result, ok, err,
}

pub record Args : Type 0 where
  pub issuer : Text
  pub client_id_field : Text
  pub client_secret_field : Text
  pub scope : Option Text
  pub timeout : ℕ
  pub allow_insecure_http : Bool

-- The variables of `parse_args`.
pub record Options : Type 0 where
  pub issuer : Option Text
  pub client_id_field : Text
  pub client_secret_field : Text
  pub scope : Option Text
  pub timeout : ℕ
  pub allow_insecure_http : Bool

-- An error, or the help text and an exit.
pub data Stop : Type 0 where
  needs_a_value unknown_argument : Text → Stop
  not_a_number : Text → Stop
  issuer_required help : Stop

-- What an argument is: an option with a value, the switch, a call for help, or none of these.
pub data Flag : Type 0 where
  issuer_flag id_flag secret_flag scope_flag timeout_flag : Flag

pub data Arg : Type 0 where
  option : Flag → Arg
  insecure help_arg other_arg : Arg

unfoldable pub arg_of : Text → Arg
unfolding text_eq
arg_of a =
    if text_eq a (codes "--issuer")
    then option issuer_flag
    else if text_eq a (codes "--client-id-field")
    then option id_flag
    else if text_eq a (codes "--client-secret-field")
    then option secret_flag
    else if text_eq a (codes "--scope")
    then option scope_flag
    else if text_eq a (codes "--timeout-secs")
    then option timeout_flag
    else if text_eq a (codes "--allow-insecure-http")
    then insecure
    else if text_eq a (codes "-h")
    then help_arg
    else if text_eq a (codes "--help")
    then help_arg
    else other_arg

abbrev pub set_timeout : Text → Options → Option ℕ → Result Options Stop
set_timeout v o none = err (not_a_number v)
set_timeout v o (some n) = ok (record o { timeout = n })

-- The value of an option is put into its variable.
unfoldable pub set_option : Flag → Text → Options → Result Options Stop
unfolding parse_unsigned
set_option issuer_flag v o = ok (record o { issuer = some v })
set_option id_flag v o = ok (record o { client_id_field = v })
set_option secret_flag v o = ok (record o { client_secret_field = v })
set_option scope_flag v o = ok (record o { scope = some v })
set_option timeout_flag v o = set_timeout v o (parse_unsigned 10 (2 ^ 64 - 1) v)

abbrev pub and_then : Result Options Stop → (Options → Result Options Stop) → Result Options Stop
and_then (ok o) k = k o
and_then (err e) k = err e

-- The loop over the arguments.
unfoldable pub parse_loop : List Text → Options → Result Options Stop
unfolding arg_of set_option
parse_loop [] o = ok o
parse_loop (a ∷ []) o = elim (arg_of a) [
  | option f ↦ err (needs_a_value a)
  | insecure ↦ ok (record o { allow_insecure_http = true })
  | help_arg ↦ err help
  | other_arg ↦ err (unknown_argument a)
]
parse_loop (a ∷ v ∷ argv) o = elim (arg_of a) [
  | option f ↦ and_then (set_option f v o) (λ p. parse_loop argv p)
  | insecure ↦ parse_loop (v ∷ argv) (record o { allow_insecure_http = true })
  | help_arg ↦ err help
  | other_arg ↦ err (unknown_argument a)
]

abbrev pub defaults : Options
defaults = record {
  issuer = none;
  client_id_field = codes "CLIENT_ID";
  client_secret_field = codes "CLIENT_SECRET";
  scope = none;
  timeout = 15;
  allow_insecure_http = false;
}

abbrev pub with_issuer : Options → Option Text → Result Args Stop
with_issuer o none = err issuer_required
with_issuer o (some issuer) = ok (record {
  issuer = issuer;
  client_id_field = o.client_id_field;
  client_secret_field = o.client_secret_field;
  scope = o.scope;
  timeout = o.timeout;
  allow_insecure_http = o.allow_insecure_http;
})

abbrev pub finish : Result Options Stop → Result Args Stop
finish (err e) = err e
finish (ok o) = with_issuer o o.issuer

unfoldable pub parse_args : List Text → Result Args Stop
unfolding parse_loop
parse_args argv = finish (parse_loop argv defaults)
