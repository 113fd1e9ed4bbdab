-- ===== src/Secrets/Daemon/Satisfy/Ends.antt =====
-- The loops of the daemon do not run out of fuel when there is more of it than messages and runs.
use foundrix.Base.{
  ℕ, zero, suc, ◌+◌, ◌%◌, ◌^◌, ◌≤◌, ◌<◌, ◌≡◌, refl, ◌⊎◌, inl, inr, Bool, true, false, List, [], ◌∷◌,
  Option, none, some, arith, Bool-cases, length, ltb, Text, Dict, Result, ok, err,
}
use foundrix.Secrets.Spec.{SecretSpec}
use foundrix.Secrets.Stored.{StoredState, absent, complete, incomplete}
use foundrix.Secrets.Verdict.{
  ValidatorStatus, ValidatorResponse, Verdict, valid, invalid, error, is_error,
}
use foundrix.Secrets.Daemon.Ui.{Reason, Origin, mutate, set_state, set_secret, set_blocked}
use foundrix.Secrets.Daemon.Validator.{Validator}
use foundrix.Secrets.Daemon.Disk.{Disk, Ids, WriteError}
use foundrix.Secrets.Daemon.Ask.{
  World, Failure, Progress, arrived, parked, failed, no_fuel, ◌>>=◌, keep_public,
}
use foundrix.Secrets.Daemon.Satisfy.{
  validate, validate_by, run_validator, show_validating, show_decided, show_asking,
  validate_until_decided, store, stored, prompt_until_accepted, by_stored_status, satisfy_from,
  satisfy_read, satisfy,
}
use foundrix.Secrets.Daemon.Satisfy.Budget.{size, Ends, bind-Ends, ask-Ends, present_or_missing}

module _ (from_str : Text → Result ValidatorResponse Text) (timeout_secs euid egid : ℕ)
    (pid : Text) where
  -- A verdict has used up a run, or it is a decision without a validator.
  abbrev Spent : ℕ → ℕ → Verdict → World → Type 0
  Spent n r v w = (size w ≤ n) × ((length w.runs < r) ⊎ (is_error v.status ≡ false))

  -- A validation is over, with such a verdict.
  abbrev Judges : ℕ → ℕ → Progress Verdict → Type 0
  Judges n r (arrived v w) = Spent n r v w
  Judges n r (parked w) = Unit
  Judges n r (failed e w) = Unit
  Judges n r no_fuel = ⊥

  run_validator-Judges :
      (program : Text) (args : List Text) (values : List (Text × Text)) (runs : List Validator)
      (n : ℕ) (w : World)
      → length w.ui.submissions + length runs ≤ n
      → Judges n
          (length runs)
          (run_validator from_str timeout_secs euid egid pid program args values runs w)
  unfolding run_validator
  run_validator-Judges program args values [] n w le = tt
  run_validator-Judges program args values (run ∷ runs) n w le = (omega arith, inl (omega arith))

  validate_by-Judges :
      (spec : SecretSpec) (values : List (Text × Text)) (c : Option (List Text)) (n : ℕ) (w : World)
      → size w ≤ n
      → Judges n (length w.runs) (validate_by from_str timeout_secs euid egid pid spec values c w)
  unfolding validate_by
  validate_by-Judges spec values none n w le = (le, inr (present_or_missing spec.fields values))
  validate_by-Judges spec values (some []) n w le = tt
  validate_by-Judges spec values (some (program ∷ args)) n w le =
      run_validator-Judges program args values w.runs n w le

  validate-Judges :
      (spec : SecretSpec) (values : List (Text × Text)) (n : ℕ) (w : World)
      → size w ≤ n
      → Judges n (length w.runs) (validate from_str timeout_secs euid egid pid spec values w)
  unfolding validate
  validate-Judges spec values n w le = validate_by-Judges spec values spec.validate_command n w le

  size-show_decided :
      (attempt : ℕ) (w : World)
      → size (show_decided from_str timeout_secs euid egid pid attempt w) ≡ size w
  unfolding set_blocked mutate
  size-show_decided attempt w = elim (Bool-cases (ltb 1 attempt)) [
    | inl e ↦ rw e refl
    | inr e ↦ rw e refl
  ]

  -- One round: a verdict that is an error has used up a run.
  round-Ends :
      (attempt n r : ℕ) (again : Verdict → World → Progress Verdict) (p : Progress Verdict)
      → Judges n r p
      → ((v : Verdict) (w : World)
          → size w ≤ n
          → length w.runs < r
          → Ends (λ w'. size w' ≤ n) (again v w))
      → Ends
          (λ w'. size w' ≤ n)
          (p >>= λ verdict w'. elim (is_error verdict.status) [
            | false ↦ arrived verdict (show_decided from_str timeout_secs euid egid pid attempt w')
            | true ↦ again verdict w'
          ])
  round-Ends attempt n r again (arrived v w) (le, spent) k = by (is_error v.status) refl
    where
      by :
          (b : Bool)
          → is_error v.status ≡ b
          → Ends
              (λ w'. size w' ≤ n)
              (elim b [
                | false ↦ arrived v (show_decided from_str timeout_secs euid egid pid attempt w)
                | true ↦ again v w
              ])
      by false e = rw (size-show_decided attempt w) le
      by true e = elim spent [ inl lt ↦ k v w le lt | inr f ↦ cc ]
  round-Ends attempt n r again (parked w) h k = tt
  round-Ends attempt n r again (failed e w) h k = tt
  round-Ends attempt n r again no_fuel h k = h

  validate_until_decided-Ends :
      (fuel : ℕ) (spec : SecretSpec) (values : List (Text × Text)) (what : Origin) (before n : ℕ)
      (w : World)
      → size w ≤ n
      → length w.runs < fuel
      → Ends
          (λ w'. size w' ≤ n)
          (validate_until_decided from_str timeout_secs euid egid pid fuel spec values what before
            w)
  unfolding validate_until_decided set_secret set_state set_blocked mutate
  validate_until_decided-Ends zero spec values what before n w le lt = omega arith
  validate_until_decided-Ends (suc fuel) spec values what before n w le lt =
      round-Ends _ n (length w.runs) _ _
        (validate-Judges spec values n
          (show_validating from_str timeout_secs euid egid pid spec what w) le)
        (λ v w' le' lt'.
          validate_until_decided-Ends fuel spec values what ((before + 1) % 2 ^ 32) n _ le'
            (omega arith))

  stored-Ends :
      (spec : SecretSpec) (n : ℕ) (w : World) (r : Result (Unit {0}) WriteError × Disk)
      → size w ≤ n
      → Ends (λ w'. size w' ≤ n) (stored from_str timeout_secs euid egid pid spec w r)
  unfolding set_secret set_state mutate
  stored-Ends spec n w (ok a, d) le = le
  stored-Ends spec n w (err e, d) le = tt

  store-Ends :
      (spec : SecretSpec) (ids : Ids) (values : List (Text × Text)) (n : ℕ) (w : World)
      → size w ≤ n
      → Ends (λ w'. size w' ≤ n) (store from_str timeout_secs euid egid pid spec ids values w)
  unfolding store
  store-Ends spec ids values n w le = stored-Ends spec n w _ le

  -- A round of prompting has used up a message.
  prompt-Ends :
      (budget fuel : ℕ) (spec : SecretSpec) (ids : Ids) (known : Dict Text) (reason : Reason)
      (n : ℕ) (w : World)
      → size w ≤ n
      → n < budget
      → size w < fuel
      → Ends
          (λ w'. size w' ≤ n)
          (prompt_until_accepted from_str timeout_secs euid egid pid budget fuel spec ids known
            reason w)
  unfolding prompt_until_accepted set_secret set_state mutate
  prompt-Ends budget zero spec ids known reason n w le lb lf = omega arith
  prompt-Ends budget (suc fuel) spec ids known reason n w le lb lf =
      bind-Ends (λ w1. size w1 < size w) (λ w'. size w' ≤ n) _ _
        (ask-Ends budget spec reason known (size w) _ (omega arith) (omega arith))
        (λ values w1 below.
          bind-Ends (λ w2. size w2 ≤ size w1) (λ w'. size w' ≤ n) _ _
            (validate_until_decided-Ends budget spec values Origin.entered_credentials 0 (size w1)
              w1 (omega arith) (omega arith))
            (λ v w2 le2. by values v w2 v.status (omega (arith, below, le2)) (
              prompt-Ends budget fuel spec ids (keep_public spec values)
                (Reason.entered_rejected v.message) n
                (show_asking from_str timeout_secs euid egid pid spec
                  (Reason.entered_rejected v.message) w2)
                (omega (arith, below, le2)) lb (omega (arith, below, le2)))))
    where
      by :
          (values : List (Text × Text)) (v : Verdict) (w2 : World) (s : ValidatorStatus)
          → size w2 ≤ n
          → Ends
              (λ w'. size w' ≤ n)
              (prompt_until_accepted from_str timeout_secs euid egid pid budget fuel spec ids
                (keep_public spec values)
                (Reason.entered_rejected v.message)
                (show_asking from_str timeout_secs euid egid pid spec
                  (Reason.entered_rejected v.message)
                  w2))
          → Ends
              (λ w'. size w' ≤ n)
              (elim s [
                | valid ↦ store from_str timeout_secs euid egid pid spec ids values w2
                | invalid ↦
                    prompt_until_accepted from_str timeout_secs euid egid pid budget fuel spec ids
                      (keep_public spec values)
                      (Reason.entered_rejected v.message)
                      (show_asking from_str timeout_secs euid egid pid spec
                        (Reason.entered_rejected v.message)
                        w2)
                | error ↦ failed Failure.unreachable w2
              ])
      by values v w2 valid le2 again = store-Ends spec ids values n w2 le2
      by values v w2 invalid le2 again = again
      by values v w2 error le2 again = tt

  status-Ends :
      (budget : ℕ) (spec : SecretSpec) (ids : Ids) (values : List (Text × Text)) (v : Verdict)
      (s : ValidatorStatus) (n : ℕ) (w : World)
      → size w ≤ n
      → n < budget
      → Ends
          (λ w'. size w' ≤ n)
          (by_stored_status from_str timeout_secs euid egid pid budget spec ids values v s w)
  unfolding by_stored_status set_secret set_state mutate
  status-Ends budget spec ids values v valid n w le lb = le
  status-Ends budget spec ids values v invalid n w le lb =
      prompt-Ends budget budget spec ids _ _ n _ le lb (omega arith)
  status-Ends budget spec ids values v error n w le lb = tt

  satisfy_from-Ends :
      (budget : ℕ) (spec : SecretSpec) (ids : Ids) (s : StoredState) (n : ℕ) (w : World)
      → size w ≤ n
      → n < budget
      → Ends
          (λ w'. size w' ≤ n)
          (satisfy_from from_str timeout_secs euid egid pid budget spec ids s w)
  unfolding satisfy_from set_state mutate
  satisfy_from-Ends budget spec ids absent n w le lb =
      prompt-Ends budget budget spec ids _ _ n _ le lb (omega arith)
  satisfy_from-Ends budget spec ids (incomplete missing usable) n w le lb =
      prompt-Ends budget budget spec ids _ _ n _ le lb (omega arith)
  satisfy_from-Ends budget spec ids (complete values) n w le lb =
      bind-Ends (λ w'. size w' ≤ n) (λ w'. size w' ≤ n) _ _
        (validate_until_decided-Ends budget spec values Origin.stored_credentials 0 n w le
          (omega arith))
        (λ v w' le'. status-Ends budget spec ids values v v.status n w' le' lb)

  satisfy_read-Ends :
      (budget : ℕ) (spec : SecretSpec) (ids : Ids) (r : Option (Option Text)) (n : ℕ) (w : World)
      → size w ≤ n
      → n < budget
      → Ends
          (λ w'. size w' ≤ n)
          (satisfy_read from_str timeout_secs euid egid pid budget spec ids r w)
  unfolding satisfy_read
  satisfy_read-Ends budget spec ids none n w le lb = tt
  satisfy_read-Ends budget spec ids (some text) n w le lb =
      satisfy_from-Ends budget spec ids _ n w le lb

  -- With a budget above the number of messages and validator runs that are still to come, `satisfy`
  -- does not run out of fuel: it gets to its end, with no more of them than before, or to a wait or
  -- an error.
  pub satisfy-Ends :
      (budget : ℕ) (spec : SecretSpec) (ids : Ids) (w : World)
      → size w < budget
      → Ends
          (λ w'. size w' ≤ size w)
          (satisfy from_str timeout_secs euid egid pid budget spec ids w)
  unfolding satisfy set_secret set_state mutate
  satisfy-Ends budget spec ids w lb =
      satisfy_read-Ends budget spec ids _ (size w) _ (omega arith) lb
