-- ===== src/Oidc/Run.antt =====
-- packages/oidc-credential-validator/src/main.rs: main, from the arguments and the input to the verdict.
use foundrix.Base.{
  ◌≡◌, refl, List, [], ◌∷◌, Option, none, some, Text, text_eq, Map, get, Result, ok, err,
}
use foundrix.Oidc.Args.{Args, Stop, help, parse_args}
use foundrix.Oidc.Args.Help.{AsksHelp, parse_args-AsksHelp}
use foundrix.Oidc.Verdict.{Message, Verdict, valid, invalid, error}
use foundrix.Oidc.Requests.{Agent, Exchange, Json}
use foundrix.Oidc.Check.{check}
use foundrix.Oidc.Check.Sound.{Sound, check-Sound}

-- The help text and an exit, or a verdict with what was exchanged.
pub data Outcome : Type 0 where
  usage : Outcome
  judged : Verdict → List Exchange → Outcome

abbrev pub undecided : Message → Outcome
undecided m = judged (Verdict.error m) []

-- The reader of a request gives its fields.
module _ {J : Type 0} (json : Json J) (agent : Agent)
    (from_request : Text → Option (Map Text Text)) where
  abbrev pub outcome_of : Verdict × List Exchange → Outcome
  outcome_of (v, t) = judged v t

  abbrev pub with_secret : Args → Text → Option Text → Outcome
  with_secret args client_id none = undecided (Message.no_field args.client_secret_field)
  with_secret args client_id (some client_secret) =
      outcome_of (check json agent args client_id client_secret [])

  abbrev pub with_id : Args → Map Text Text → Option Text → Outcome
  with_id args fields none = undecided (Message.no_field args.client_id_field)
  with_id args fields (some client_id) =
      with_secret args client_id (get text_eq args.client_secret_field fields)

  abbrev pub with_request : Args → Option (Map Text Text) → Outcome
  with_request args none = undecided Message.not_a_request
  with_request args (some fields) = with_id args fields (get text_eq args.client_id_field fields)

  abbrev pub with_input : Args → Option Text → Outcome
  with_input args none = undecided Message.reading_stdin
  with_input args (some input) = with_request args (from_request input)

  -- A call for help is no error.
  abbrev pub stopped : Stop → Outcome
  stopped help = usage
  stopped s = undecided (Message.bad_invocation s)

  abbrev pub with_args : Option Text → Result Args Stop → Outcome
  with_args stdin (ok args) = with_input args stdin
  with_args stdin (err s) = stopped s

  unfoldable pub main : List Text → Option Text → Outcome
  unfolding parse_args check get text_eq
  main argv stdin = with_args stdin (parse_args argv)

  -- What a valid or an invalid verdict of the program goes back to: arguments that were accepted, a
  -- request with the two fields, and a check of them.
  abbrev pub Checked : List Text → Option Text → Verdict → List Exchange → Type 0
  Checked argv stdin v t =
      (args : Args) × (input : Text) × (fields : Map Text Text) × (client_id client_secret : Text)
      × (parse_args argv ≡ ok args)
      × (stdin ≡ some input)
      × (from_request input ≡ some fields)
      × (get text_eq args.client_id_field fields ≡ some client_id)
      × (get text_eq args.client_secret_field fields ≡ some client_secret)
      × (check json agent args client_id client_secret [] ≡ (v, t))
      × Sound json args client_id client_secret (v, t)

  -- The help, for arguments that ask for it, an outcome that decides nothing, without an exchange, or one that goes back to a check.
  abbrev pub IsJudged : List Text → Option Text → Outcome → Type 0
  IsJudged argv stdin usage = AsksHelp argv
  IsJudged argv stdin (judged (error m) []) = Unit
  IsJudged argv stdin (judged (error m) (x ∷ t)) = Checked argv stdin (Verdict.error m) (x ∷ t)
  IsJudged argv stdin (judged (valid m) t) = Checked argv stdin (Verdict.valid m) t
  IsJudged argv stdin (judged (invalid m) t) = Checked argv stdin (Verdict.invalid m) t

  Checked-IsJudged :
      (argv : List Text) (stdin : Option Text) (v : Verdict) (t : List Exchange)
      → Checked argv stdin v t
      → IsJudged argv stdin (judged v t)
  Checked-IsJudged argv stdin (error m) [] h = tt
  Checked-IsJudged argv stdin (error m) (x ∷ t) h = h
  Checked-IsJudged argv stdin (valid m) t h = h
  Checked-IsJudged argv stdin (invalid m) t h = h

  module _ (argv : List Text) (stdin : Option Text) where
    with_secret-IsJudged :
        (args : Args) (input : Text) (fields : Map Text Text) (client_id : Text) (o : Option Text)
        → parse_args argv ≡ ok args
        → stdin ≡ some input
        → from_request input ≡ some fields
        → get text_eq args.client_id_field fields ≡ some client_id
        → get text_eq args.client_secret_field fields ≡ o
        → IsJudged argv stdin (with_secret args client_id o)
    with_secret-IsJudged args input fields client_id none a b c d e = tt
    with_secret-IsJudged args input fields client_id (some client_secret) a b c d e =
        Checked-IsJudged argv stdin (check json agent args client_id client_secret []).0
          (check json agent args client_id client_secret []).1
          (
            args,
            input,
            fields,
            client_id,
            client_secret,
            a,
            b,
            c,
            d,
            e,
            refl,
            check-Sound json args client_id client_secret agent,
          )

    with_id-IsJudged :
        (args : Args) (input : Text) (fields : Map Text Text) (o : Option Text)
        → parse_args argv ≡ ok args
        → stdin ≡ some input
        → from_request input ≡ some fields
        → get text_eq args.client_id_field fields ≡ o
        → IsJudged argv stdin (with_id args fields o)
    with_id-IsJudged args input fields none a b c d = tt
    with_id-IsJudged args input fields (some client_id) a b c d =
        with_secret-IsJudged args input fields client_id _ a b c d refl

    with_request-IsJudged :
        (args : Args) (input : Text) (o : Option (Map Text Text))
        → parse_args argv ≡ ok args
        → stdin ≡ some input
        → from_request input ≡ o
        → IsJudged argv stdin (with_request args o)
    with_request-IsJudged args input none a b c = tt
    with_request-IsJudged args input (some fields) a b c =
        with_id-IsJudged args input fields _ a b c refl

    with_input-IsJudged :
        (args : Args) (o : Option Text)
        → parse_args argv ≡ ok args
        → stdin ≡ o
        → IsJudged argv stdin (with_input args o)
    with_input-IsJudged args none a b = tt
    with_input-IsJudged args (some input) a b = with_request-IsJudged args input _ a b refl

    stopped-IsJudged : (s : Stop) → parse_args argv ≡ err s → IsJudged argv stdin (stopped s)
    stopped-IsJudged help a = parse_args-AsksHelp argv a
    stopped-IsJudged (Stop.needs_a_value f) a = tt
    stopped-IsJudged (Stop.unknown_argument f) a = tt
    stopped-IsJudged (Stop.not_a_number f) a = tt
    stopped-IsJudged Stop.issuer_required a = tt

    with_args-IsJudged :
        (r : Result Args Stop) → parse_args argv ≡ r → IsJudged argv stdin (with_args stdin r)
    with_args-IsJudged (ok args) a = with_input-IsJudged args stdin a refl
    with_args-IsJudged (err s) a = stopped-IsJudged s a

  -- Whatever the arguments, the input and the agent: the help is shown only if the first argument
  -- that is neither the switch nor an option with its value is `-h` or `--help`; a verdict that is
  -- valid or invalid, and an error after an exchange, go back to accepted arguments, a request with
  -- both fields and a sound check of them.
  pub main-IsJudged :
      (argv : List Text) (stdin : Option Text) → IsJudged argv stdin (main argv stdin)
  unfolding main
  main-IsJudged argv stdin = with_args-IsJudged argv stdin (parse_args argv) refl
