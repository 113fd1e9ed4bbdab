-- ===== src/Secrets/Daemon/Satisfy/Decided.antt =====
-- What `ask` and `validate_until_decided` leave alone, and what they give.
use foundrix.Base.{
  ℕ, zero, suc, ◌+◌, ◌%◌, ◌^◌, ◌≡◌, refl, ◌∙◌, ◌⊎◌, inl, inr, true, false, List, [], ◌∷◌, Option,
  none, some, Bool-cases, Option-cases, Result-cases, Text, Dict, Result, ltb,
}
use foundrix.Secrets.Spec.{SecretSpec}
use foundrix.Secrets.Stored.{accept_submission}
use foundrix.Secrets.Verdict.{ValidatorResponse, Verdict, valid, is_error}
use foundrix.Secrets.Daemon.Ui.{Reason, Origin, bad_submission}
use foundrix.Secrets.Daemon.Validator.{Validator, request, check_present, read_run}
use foundrix.Secrets.Daemon.Ask.{
  World, Progress, arrived, parked, failed, no_fuel, ◌>>=◌, ask, post_prompt, take_answer, drained,
  next_id, wait_for_submission, keep_public,
}
use foundrix.Secrets.Daemon.Satisfy.{
  run_validator, validate_by, validate, validate_until_decided, show_validating, show_decided,
  show_undecided,
}

-- A condition on what is given and on the world where a part of the daemon gets to.
abbrev pub Reached : {A : Type 0} → (A → World → Type 0) → (World → Type 0) → Progress A → Type 0
Reached Q K (arrived a w) = Q a w
Reached Q K (parked w) = K w
Reached Q K (failed e w) = K w
Reached Q K no_fuel = Unit

pub bind-Reached :
    {A B : Type 0} (Q : A → World → Type 0) (R : B → World → Type 0) (K L : World → Type 0)
    (f : A → World → Progress B) (p : Progress A)
    → Reached Q K p
    → ((w : World) → K w → L w)
    → ((a : A) (w : World) → Q a w → Reached R L (f a w))
    → Reached R L (p >>= f)
bind-Reached Q R K L f (arrived a w) h weaken k = k a w h
bind-Reached Q R K L f (parked w) h weaken k = weaken w h
bind-Reached Q R K L f (failed e w) h weaken k = weaken w h
bind-Reached Q R K L f no_fuel h weaken k = tt

-- The run stands in the list.
abbrev pub HasRun : Validator → List Validator → Type 0
HasRun r [] = ⊥
HasRun r (x ∷ xs) = (x ≡ r) ⊎ HasRun r xs

-- Nothing is written, and the runs that are left were there before.
pub record Quiet (w w' : World) : Type 0 where
  pub same_disk : w'.disk ≡ w.disk
  pub fewer_runs : (r : Validator) → HasRun r w'.runs → HasRun r w.runs

pub Quiet-refl : (w : World) → Quiet w w
Quiet-refl w = record { same_disk = refl; fewer_runs = λ r h. h }

pub Quiet-trans : (u v w : World) → Quiet u v → Quiet v w → Quiet u w
Quiet-trans u v w p q = record {
  same_disk = q.same_disk ∙ p.same_disk;
  fewer_runs = λ r h. p.fewer_runs r (q.fewer_runs r h);
}

pub ask-Quiet :
    (fuel : ℕ) (spec : SecretSpec) (reason : Reason) (known : Dict Text) (w0 w : World)
    → Quiet w0 w
    → Reached (λ _. Quiet w0) (Quiet w0) (ask fuel spec reason known w)
unfolding ask post_prompt take_answer drained
ask-Quiet zero spec reason known w0 w q = tt
ask-Quiet (suc fuel) spec reason known w0 w q =
    elim (Option-cases (wait_for_submission (next_id w.ui) w.ui.submissions)) [
      | inl e ↦ rw (e, Reached) (record { same_disk = q.same_disk; fewer_runs = q.fewer_runs })
      | inr ((values, rest), e) ↦
          rw (e, Reached)
            (elim (Result-cases (accept_submission spec values)) [
              | inl (v, a) ↦
                  rw (a, Reached) (record { same_disk = q.same_disk; fewer_runs = q.fewer_runs })
              | inr (x, a) ↦
                  rw (a, Reached)
                    (ask-Quiet fuel spec (bad_submission x) (keep_public spec values) w0 _
                      (record { same_disk = q.same_disk; fewer_runs = q.fewer_runs }))
            ])
    ]

module _ (from_str : Text → Result ValidatorResponse Text) (timeout_secs euid egid : ℕ)
    (pid : Text) where
  -- One of the runs of the secret's validator finds these values good: the run's answer to the
  -- secret's command line and to a request with these values reads as valid. Or the secret has no
  -- validator and all its fields are there.
  abbrev pub Proven : SecretSpec → List (Text × Text) → List Validator → Type 0
  Proven spec values runs =
      ((spec.validate_command ≡ none) × ((check_present spec.fields values).status ≡ valid))
      ⊎ ((program : Text) × (args : List Text) × (run : Validator) × (spec.validate_command
            ≡ some (program ∷ args))
          × HasRun run runs
          × ((read_run from_str timeout_secs program values
                (run program args (request values))).status
              ≡ valid))

  -- A verdict of the validator is the reading of one run, and nothing is written for it.
  abbrev Judged : SecretSpec → List (Text × Text) → World → Verdict → World → Type 0
  Judged spec values w v w' = Quiet w w' × (v.status ≡ valid → Proven spec values w.runs)

  module _ (spec : SecretSpec) (values : List (Text × Text)) (w : World) where
    run_validator-Judged :
        (program : Text) (args : List Text) (runs : List Validator)
        → spec.validate_command ≡ some (program ∷ args)
        → w.runs ≡ runs
        → Reached
            (Judged spec values w)
            (Quiet w)
            (run_validator from_str timeout_secs euid egid pid program args values runs w)
    unfolding run_validator
    run_validator-Judged program args [] c e = Quiet-refl w
    run_validator-Judged program args (run ∷ runs) c e = (
      record { same_disk = refl; fewer_runs = λ r h. rw e (inr h) },
      λ h. inr (program, args, run, c, rw e (inl refl), h),
    )

    validate_by-Judged :
        (c : Option (List Text))
        → spec.validate_command ≡ c
        → Reached
            (Judged spec values w)
            (Quiet w)
            (validate_by from_str timeout_secs euid egid pid spec values c w)
    unfolding validate_by
    validate_by-Judged none e = (Quiet-refl w, λ h. inl (e, h))
    validate_by-Judged (some []) e = Quiet-refl w
    validate_by-Judged (some (program ∷ args)) e = run_validator-Judged program args w.runs e refl

    validate-Judged :
        Reached
          (Judged spec values w)
          (Quiet w)
          (validate from_str timeout_secs euid egid pid spec values w)
    unfolding validate
    validate-Judged = validate_by-Judged spec.validate_command refl

  Proven-mono :
      (spec : SecretSpec) (values : List (Text × Text)) (w0 w : World)
      → Quiet w0 w
      → Proven spec values w.runs
      → Proven spec values w0.runs
  Proven-mono spec values w0 w q (inl h) = inl h
  Proven-mono spec values w0 w q (inr (program, args, run, c, h, v)) =
      inr (program, args, run, c, q.fewer_runs run h, v)

  -- A verdict that is no error, of a run that was still to come, with nothing written meanwhile.
  abbrev pub Decided : SecretSpec → List (Text × Text) → World → Verdict → World → Type 0
  Decided spec values w v w' =
      Quiet w w' × (v.status ≡ valid → Proven spec values w.runs) × (is_error v.status ≡ false)

  show_decided-Quiet :
      (w0 w : World) (n : ℕ)
      → Quiet w0 w
      → Quiet w0 (show_decided from_str timeout_secs euid egid pid n w)
  show_decided-Quiet w0 w n q = elim (Bool-cases (ltb 1 n)) [
    | inl e ↦ rw e (record { same_disk = q.same_disk; fewer_runs = q.fewer_runs })
    | inr e ↦ rw e q
  ]

  -- One round: a decision ends the loop, and an error makes another round.
  decide :
      (spec : SecretSpec) (values : List (Text × Text)) (attempt : ℕ) (w0 w : World)
      (again : World → Progress Verdict) (v : Verdict) (w' : World)
      → Quiet w0 w
      → Judged spec values w v w'
      → ((u : World) → Quiet w0 u → Reached (Decided spec values w0) (Quiet w0) (again u))
      → Reached (Decided spec values w0) (Quiet w0) (elim (is_error v.status) [
        | false ↦ arrived v (show_decided from_str timeout_secs euid egid pid attempt w')
        | true ↦
            again (show_undecided from_str timeout_secs euid egid pid spec v.message attempt w')
      ])
  decide spec values attempt w0 w again v w' q j ih = elim (Bool-cases (is_error v.status)) [
    | inl e ↦
        rw (e, Reached) (ih _ (record { same_disk = q'.same_disk; fewer_runs = q'.fewer_runs }))
    | inr e ↦
        rw (e, Reached)
          (show_decided-Quiet w0 w' attempt q', λ h. Proven-mono spec values w0 w q (j.1 h), e)
  ]
    where
      q' : Quiet w0 w'
      q' = Quiet-trans w0 w w' q j.0

  -- Wherever the loop gets to within its fuel, from a world to which nothing was written, nothing is
  -- written; when it arrives, its verdict is not an error, and is valid only if one of the runs, given
  -- the command line of the spec and a request with these values, answers that they are valid (or,
  -- without a validator, if they are all present).
  pub validate_until_decided-Decided :
      (fuel : ℕ) (spec : SecretSpec) (values : List (Text × Text)) (what : Origin) (before : ℕ)
      (w0 w : World)
      → Quiet w0 w
      → Reached (Decided spec values w0) (Quiet w0) (
          validate_until_decided from_str timeout_secs euid egid pid fuel spec values what before w)
  unfolding validate_until_decided
  validate_until_decided-Decided zero spec values what before w0 w q = tt
  validate_until_decided-Decided (suc fuel) spec values what before w0 w q =
      bind-Reached (Judged spec values w1) (Decided spec values w0) (Quiet w1) (Quiet w0) _ _
        (validate-Judged spec values w1) (λ w'. Quiet-trans w0 w1 w' q1)
        (λ v w' j.
          decide spec values ((before + 1) % 2 ^ 32) w0 w1 _ v w' q1 j (λ u.
            validate_until_decided-Decided fuel spec values what ((before + 1) % 2 ^ 32) w0 u))
    where
      w1 : World
      w1 = show_validating from_str timeout_secs euid egid pid spec what w

      q1 : Quiet w0 w1
      q1 = record { same_disk = q.same_disk; fewer_runs = q.fewer_runs }
