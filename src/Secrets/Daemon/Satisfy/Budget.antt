-- ===== src/Secrets/Daemon/Satisfy/Budget.antt =====
-- What is left of the messages and of the runs of the validator: a wait takes a message.
use foundrix.Base.{
  ℕ, if-cases, find, text_eq, is_empty, zero, suc, ◌+◌, ◌≤◌, ◌<◌, ◌==◌, ◌≡◌, refl, inl, inr, false,
  List, [], ◌∷◌, Option, none, some, arith, Option-cases, Bool-cases, Result-cases, length,
  if◌then◌else◌, Text, Dict,
}
use foundrix.Secrets.Spec.{FieldSpec, SecretSpec}
use foundrix.Secrets.Stored.{accept_submission}
use foundrix.Secrets.Verdict.{Verdict, is_error, invalid_verdict, valid_verdict}
use foundrix.Secrets.Daemon.Ui.{
  Reason, ClientMsg, submit, edit, bad_submission, mutate, set_state, set_prompt,
}
use foundrix.Secrets.Daemon.Validator.{check_present, missing_verdict}
use foundrix.Secrets.Daemon.Ask.{
  World, Progress, arrived, parked, failed, no_fuel, ◌>>=◌, ask, keep_public, wait_for_submission,
  next_id, post_prompt, take_answer,
}

-- The inputs that are still to come.
abbrev pub size : World → ℕ
size w = length w.ui.submissions + length w.runs

-- The fuel lasts, and a world that is arrived at has the property.
abbrev pub Ends : {A : Type 0} → (World → Type 0) → Progress A → Type 0
Ends P (arrived a w) = P w
Ends P (parked w) = Unit
Ends P (failed e w) = Unit
Ends P no_fuel = ⊥

pub bind-Ends :
    {A B : Type 0} (P Q : World → Type 0) (f : A → World → Progress B) (p : Progress A)
    → Ends P p
    → ((a : A) (w : World) → P w → Ends Q (f a w))
    → Ends Q (p >>= f)
bind-Ends P Q f (arrived a w) h k = k a w h
bind-Ends P Q f (parked w) h k = tt
bind-Ends P Q f (failed e w) h k = tt
bind-Ends P Q f no_fuel h k = h

wait-shorter :
    (id : ℕ) (msgs : List ClientMsg) (values : List (Text × Text)) (rest : List ClientMsg)
    → wait_for_submission id msgs ≡ some (values, rest)
    → length rest < length msgs
unfolding wait_for_submission
wait-shorter id [] values rest h = cc
wait-shorter id (submit n vs ∷ msgs) values rest h = elim (Bool-cases (n == id)) [
  | inl e ↦ ground (arith, e)
  | inr e ↦ ground (arith, e, wait-shorter id msgs values rest)
]
wait-shorter id (edit s ∷ msgs) values rest h = omega (arith, wait-shorter id msgs values rest h)

-- An answer that is accepted has used up a message.
pub ask-Ends :
    (fuel : ℕ) (spec : SecretSpec) (reason : Reason) (known : Dict Text) (n : ℕ) (w : World)
    → size w ≤ n
    → length w.ui.submissions < fuel
    → Ends (λ w'. size w' < n) (ask fuel spec reason known w)
unfolding ask post_prompt take_answer set_prompt set_state mutate
ask-Ends zero spec reason known n w le lt = omega arith
ask-Ends (suc fuel) spec reason known n w le lt =
    elim (Option-cases (wait_for_submission (next_id w.ui) w.ui.submissions)) [
      | inl e ↦ rw (e, Ends) tt
      | inr ((values, rest), e) ↦
          let shorter = wait-shorter (next_id w.ui) w.ui.submissions values rest e in
          rw (e, Ends)
            (elim (Result-cases (accept_submission spec values)) [
              | inl (v, a) ↦ rw (a, Ends) (omega (arith, shorter))
              | inr (x, a) ↦
                  rw (a, Ends)
                    (ask-Ends fuel spec (bad_submission x) (keep_public spec values) n _
                      (omega (arith, shorter)) (omega (arith, shorter)))
            ])
    ]

abbrev Decides : Verdict → Type 0
Decides v = is_error v.status ≡ false

pub present_or_missing :
    (fields : List FieldSpec) (values : List (Text × Text))
    → is_error (check_present fields values).status ≡ false
unfolding check_present missing_verdict invalid_verdict valid_verdict
present_or_missing [] values = refl
present_or_missing (f ∷ fs) values =
    by (find (λ kv. text_eq kv.0 f.name) values) (present_or_missing fs values)
  where
    by :
        (o : Option (Text × Text))
        → is_error (check_present fs values).status ≡ false
        → Decides (elim o [
          | none ↦ missing_verdict f.name
          | some kv ↦ if is_empty kv.1 then missing_verdict f.name else check_present fs values
        ])
    by none h = refl
    by (some kv) h = if-cases Decides (is_empty kv.1) _ _ (λ _. refl) (λ _. h)
