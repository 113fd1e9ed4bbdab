-- ===== src/Oidc/Args/Help.antt =====
-- When packages/oidc-credential-validator/src/main.rs stops its arguments for the help text.
use foundrix.Base.{
  ℕ, ◌^◌, ◌-◌, ◌≡◌, ◌⊎◌, inl, inr, true, List, [], ◌∷◌, Option, none, some, Bool-cases, Text, codes,
  text_eq, text_eq_iff, parse_unsigned, Result, ok, err,
}
use foundrix.Oidc.Args.{
  Options, Stop, help, Flag, Arg, option, insecure, help_arg, other_arg, issuer_flag, id_flag,
  secret_flag, scope_flag, timeout_flag, arg_of, set_timeout, set_option, and_then, parse_loop,
  with_issuer, finish, parse_args, defaults,
}

-- The options that take a value.
abbrev pub flag_name : Flag → Text
flag_name issuer_flag = codes "--issuer"
flag_name id_flag = codes "--client-id-field"
flag_name secret_flag = codes "--client-secret-field"
flag_name scope_flag = codes "--scope"
flag_name timeout_flag = codes "--timeout-secs"

-- The first argument that is neither the switch nor an option with its value is `-h` or `--help`.
pub data AsksHelp : List Text → Type 0 where
  asked :
      (a : Text) (argv : List Text) → (a ≡ codes "-h") ⊎ (a ≡ codes "--help") → AsksHelp (a ∷ argv)
  after_switch :
      (a : Text) (argv : List Text)
      → a ≡ codes "--allow-insecure-http"
      → AsksHelp argv
      → AsksHelp (a ∷ argv)
  after_option :
      (f : Flag) (a v : Text) (argv : List Text)
      → a ≡ flag_name f
      → AsksHelp argv
      → AsksHelp (a ∷ v ∷ argv)

abbrev Named : Text → Arg → Type 0
Named a (option f) = a ≡ flag_name f
Named a insecure = a ≡ codes "--allow-insecure-http"
Named a help_arg = (a ≡ codes "-h") ⊎ (a ≡ codes "--help")
Named a other_arg = Unit

arg_of-Named : (a : Text) → Named a (arg_of a)
unfolding arg_of
arg_of-Named a = elim (Bool-cases (text_eq a (codes "--issuer"))) [
  | inl e ↦ rw e ((text_eq_iff a (codes "--issuer")).0 e)
  | inr e0 ↦ rw e0 (elim (Bool-cases (text_eq a (codes "--client-id-field"))) [
    | inl e ↦ rw e ((text_eq_iff a (codes "--client-id-field")).0 e)
    | inr e1 ↦ rw e1 (elim (Bool-cases (text_eq a (codes "--client-secret-field"))) [
      | inl e ↦ rw e ((text_eq_iff a (codes "--client-secret-field")).0 e)
      | inr e2 ↦ rw e2 (elim (Bool-cases (text_eq a (codes "--scope"))) [
        | inl e ↦ rw e ((text_eq_iff a (codes "--scope")).0 e)
        | inr e3 ↦ rw e3 (elim (Bool-cases (text_eq a (codes "--timeout-secs"))) [
          | inl e ↦ rw e ((text_eq_iff a (codes "--timeout-secs")).0 e)
          | inr e4 ↦ rw e4 (elim (Bool-cases (text_eq a (codes "--allow-insecure-http"))) [
            | inl e ↦ rw e ((text_eq_iff a (codes "--allow-insecure-http")).0 e)
            | inr e5 ↦ rw e5 (elim (Bool-cases (text_eq a (codes "-h"))) [
              | inl e ↦ rw e (inl ((text_eq_iff a (codes "-h")).0 e))
              | inr e6 ↦ rw e6 (elim (Bool-cases (text_eq a (codes "--help"))) [
                | inl e ↦ rw e (inr ((text_eq_iff a (codes "--help")).0 e))
                | inr e7 ↦ rw e7 tt
              ])
            ])
          ])
        ])
      ])
    ])
  ])
]

-- Setting an option is not a call for help: what stops is the rest.
option-help :
    (f : Flag) (v : Text) (o : Options) (k : Options → Result Options Stop)
    → and_then (set_option f v o) k ≡ err help
    → (p : Options) × (k p ≡ err help)
unfolding set_option
option-help issuer_flag v o k e = (_, e)
option-help id_flag v o k e = (_, e)
option-help secret_flag v o k e = (_, e)
option-help scope_flag v o k e = (_, e)
option-help timeout_flag v o k e = by (parse_unsigned 10 (2 ^ 64 - 1) v) e
  where
    by :
        (n : Option ℕ)
        → and_then (set_timeout v o n) k ≡ err help
        → (p : Options) × (k p ≡ err help)
    by none e = cc
    by (some n) e = (_, e)

last-AsksHelp :
    (a : Text) (o : Options) (k : Arg)
    → Named a k
    → elim k [
      | option f ↦ err (Stop.needs_a_value a)
      | insecure ↦ ok (record o { allow_insecure_http = true })
      | help_arg ↦ err help
      | other_arg ↦ err (Stop.unknown_argument a)
    ]
      ≡ err help
    → AsksHelp (a ∷ [])
last-AsksHelp a o (option f) n e = cc
last-AsksHelp a o insecure n e = cc
last-AsksHelp a o help_arg n e = asked a [] n
last-AsksHelp a o other_arg n e = cc

next-AsksHelp :
    (a v : Text) (argv : List Text) (o : Options) (k : Arg)
    → Named a k
    → ((p : Options) → parse_loop argv p ≡ err help → AsksHelp argv)
    → ((p : Options) → parse_loop (v ∷ argv) p ≡ err help → AsksHelp (v ∷ argv))
    → elim k [
      | option f ↦ and_then (set_option f v o) (λ p. parse_loop argv p)
      | insecure ↦ parse_loop (v ∷ argv) (record o { allow_insecure_http = true })
      | help_arg ↦ err help
      | other_arg ↦ err (Stop.unknown_argument a)
    ]
      ≡ err help
    → AsksHelp (a ∷ v ∷ argv)
next-AsksHelp a v argv o (option f) n skip next e =
    let (p, rest) = option-help f v o (λ p. parse_loop argv p) e in
    after_option f a v argv n (skip p rest)
next-AsksHelp a v argv o insecure n skip next e = after_switch a (v ∷ argv) n (next _ e)
next-AsksHelp a v argv o help_arg n skip next e = asked a (v ∷ argv) n
next-AsksHelp a v argv o other_arg n skip next e = cc

parse_loop-AsksHelp :
    (argv : List Text) (o : Options) → parse_loop argv o ≡ err help → AsksHelp argv
unfolding parse_loop
parse_loop-AsksHelp [] o e = cc
parse_loop-AsksHelp (a ∷ []) o e = last-AsksHelp a o (arg_of a) (arg_of-Named a) e
parse_loop-AsksHelp (a ∷ v ∷ argv) o e =
    next-AsksHelp a v argv o (arg_of a) (arg_of-Named a) (parse_loop-AsksHelp argv)
      (parse_loop-AsksHelp (v ∷ argv)) e

finish-help : (r : Result Options Stop) → finish r ≡ err help → r ≡ err help
finish-help (err e) h = cc
finish-help (ok o) h = absurd (by o.issuer h)
  where
    by : (i : Option Text) → with_issuer o i ≡ err help → ⊥
    by none h = cc
    by (some i) h = cc

-- The arguments stop for the help only where it is asked for.
pub parse_args-AsksHelp : (argv : List Text) → parse_args argv ≡ err help → AsksHelp argv
unfolding parse_args
parse_args-AsksHelp argv e = parse_loop-AsksHelp argv defaults (finish-help _ e)
