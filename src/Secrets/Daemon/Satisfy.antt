-- ===== src/Secrets/Daemon/Satisfy.antt =====
-- packages/operator-secrets/src/bin/daemon.rs: the state machine of one secret, the boot session
-- over all of them, and the edit session.
pub mod Decided
pub mod Proven
pub mod Budget
pub mod Ends
use foundrix.Base.{
  ℕ, zero, suc, ◌+◌, ◌%◌, ◌^◌, true, false, List, [], ◌∷◌, Option, none, some, find, ltb, ◌==◌,
  if◌then◌else◌, Text, text_eq, Dict, lookup, collect, Result, ok, err,
}
use foundrix.Secrets.Spec.{FieldSpec, SecretSpec}
use foundrix.Secrets.Env.{parse_env_file}
use foundrix.Secrets.Stored.{StoredState, absent, complete, incomplete, classify_stored}
use foundrix.Secrets.Verdict.{
  ValidatorStatus, ValidatorResponse, Verdict, valid, invalid, error, is_error,
}
use foundrix.Secrets.Daemon.Ui.{
  SecretState, Reason, Origin, Detail, Phase, Message, ClientMsg, set_state, set_secret,
  set_blocked, set_choosing, set_done,
}
use foundrix.Secrets.Daemon.Validator.{Validator, request, check_present, read_run}
use foundrix.Secrets.Daemon.Disk.{
  Disk, File, succeeds, fails, WriteError, Ids, write_secret, next_outcome, later_outcomes,
}
use foundrix.Secrets.Daemon.Ask.{
  World, Failure, Progress, arrived, parked, failed, no_fuel, ◌>>=◌, show, keep_public,
  wait_for_choice, ask, drained,
}

abbrev pub content_of : Option File → Option Text
content_of none = none
content_of (some f) = some f.content

-- A read of a file: none for an error other than a missing file.
unfoldable pub read_file : Text → Disk → Option (Option Text)
read_file path d = elim (next_outcome d.outcomes) [
  | fails n ↦ none
  | succeeds ↦ some (content_of (d.files path))
]

abbrev pub after_read : World → World
after_read w = record w { disk = record w.disk { outcomes = later_outcomes w.disk.outcomes } }

abbrev pub parsed : Option Text → Option (Dict Text)
parsed none = none
parsed (some text) = some (parse_env_file text)

-- The stored values of the fields that are not sensitive.
unfoldable pub public_values : List FieldSpec → List (Text × Text) → List (Text × Text)
public_values [] values = []
public_values (f ∷ fs) values =
    if f.sensitive
    then public_values fs values
    else elim (find (λ kv. text_eq kv.0 f.name) values) [
      | none ↦ public_values fs values
      | some kv ↦ kv ∷ public_values fs values
    ]

unfoldable pub public_stored : List FieldSpec → Dict Text → List (Text × Text)
public_stored [] stored = []
public_stored (f ∷ fs) stored =
    if f.sensitive then public_stored fs stored else elim (lookup f.name stored) [
      | none ↦ public_stored fs stored
      | some v ↦ (f.name, v) ∷ public_stored fs stored
    ]

module _ (from_str : Text → Result ValidatorResponse Text) (timeout_secs euid egid : ℕ)
    (pid : Text) where
  -- The validator is run with its arguments, the values go in as its request, and the run is
  -- awaited.
  unfoldable pub run_validator :
      Text → List Text → List (Text × Text) → List Validator → World → Progress Verdict
  unfolding request
  run_validator program args values [] w = parked w
  run_validator program args values (run ∷ runs) w =
      arrived (read_run from_str timeout_secs program values (run program args (request values)))
        (record w { runs = runs })

  unfoldable pub validate_by :
      SecretSpec → List (Text × Text) → Option (List Text) → World → Progress Verdict
  unfolding run_validator
  validate_by spec values none w = arrived (check_present spec.fields values) w
  validate_by spec values (some []) w = failed (Failure.empty_command spec.name) w
  validate_by spec values (some (program ∷ args)) w = run_validator program args values w.runs w

  -- `validate`
  unfoldable pub validate : SecretSpec → List (Text × Text) → World → Progress Verdict
  unfolding validate_by
  validate spec values w = validate_by spec values spec.validate_command w

  -- The screens while the validator runs, when it has decided, and when it could not.
  abbrev pub show_validating : SecretSpec → Origin → World → World
  show_validating spec what =
      show (set_secret spec.name SecretState.validating (Detail.validating_values what))

  abbrev pub show_decided : ℕ → World → World
  show_decided attempt w = if ltb 1 attempt then show (set_blocked false) w else w

  abbrev pub show_undecided : SecretSpec → Text → ℕ → World → World
  show_undecided spec message attempt = show (λ ui.
      set_state Phase.undecided_phase (Message.validator_undecided spec.name message attempt) (
        set_blocked true
          (set_secret spec.name SecretState.undecided (Detail.cannot_decide message) ui)))

  -- The attempts are counted in a u32, from the number of those that came before.
  unfoldable pub validate_until_decided :
      ℕ → SecretSpec → List (Text × Text) → Origin → ℕ → World → Progress Verdict
  unfolding validate
  validate_until_decided zero spec values what before w = no_fuel
  validate_until_decided (suc fuel) spec values what before w =
      let attempt = (before + 1) % 2 ^ 32 in
      let again = λ (v : Verdict) (w' : World).
        validate_until_decided fuel spec values what attempt
          (show_undecided spec v.message attempt w') in
      validate spec values (show_validating spec what w) >>= λ verdict w'.
      elim (is_error verdict.status) [
        | false ↦ arrived verdict (show_decided attempt w')
        | true ↦ again verdict w'
      ]

  -- The answer is written: the last step for an accepted one.
  abbrev pub stored : SecretSpec → World → Result (Unit {0}) WriteError × Disk → Progress (Unit {0})
  stored spec w (err e, d) = failed (Failure.cannot_write spec.path e) (record w { disk = d })
  stored spec w (ok a, d) = arrived tt (
      show
        (λ ui.
          set_state Phase.check (Message.written_to spec.name spec.path)
            (set_secret spec.name SecretState.satisfied Detail.accepted_and_written ui))
        (record w { disk = d }))

  unfoldable pub store : SecretSpec → Ids → List (Text × Text) → World → Progress (Unit {0})
  store spec ids values w = stored spec w (write_secret euid egid pid spec ids values w.disk)

  abbrev pub show_asking : SecretSpec → Reason → World → World
  show_asking spec reason = show (set_state Phase.prompting (Message.asking spec.name reason))

  -- `prompt_until_accepted`: one fuel for its own rounds, and the budget for the loops inside.
  unfoldable pub prompt_until_accepted :
      ℕ → ℕ → SecretSpec → Ids → Dict Text → Reason → World → Progress (Unit {0})
  unfolding store
  prompt_until_accepted budget zero spec ids known reason w = no_fuel
  prompt_until_accepted budget (suc fuel) spec ids known reason w =
      let again = λ (values : List (Text × Text)) (v : Verdict) (w' : World).
        prompt_until_accepted budget fuel spec ids (keep_public spec values)
          (Reason.entered_rejected v.message)
          (show_asking spec (Reason.entered_rejected v.message) w') in
      ask budget spec reason known
        (show (set_secret spec.name SecretState.needs_input (Detail.because reason)) w)
      >>= λ values w1.
          validate_until_decided budget spec values Origin.entered_credentials 0 w1
          >>= λ verdict w2. elim verdict.status [
            | valid ↦ store spec ids values w2
            | invalid ↦ again values verdict w2
            | error ↦ failed Failure.unreachable w2
          ]

  -- What follows the verdict on the stored values.
  unfoldable pub by_stored_status :
      ℕ
      → SecretSpec
      → Ids
      → List (Text × Text)
      → Verdict
      → ValidatorStatus
      → World
      → Progress (Unit {0})
  unfolding prompt_until_accepted
  by_stored_status budget spec ids values verdict valid w = arrived tt (
      show
        (λ ui.
          set_state Phase.check (Message.credentials_valid spec.name)
            (set_secret spec.name SecretState.satisfied Detail.stored_valid ui))
        w)
  by_stored_status budget spec ids values verdict invalid w =
      prompt_until_accepted budget budget spec ids (collect (public_values spec.fields values))
        (Reason.stored_rejected verdict.message)
        (show_asking spec (Reason.stored_rejected verdict.message) w)
  by_stored_status budget spec ids values verdict error w = failed Failure.unreachable w

  -- What follows the classification of the stored file.
  unfoldable pub satisfy_from : ℕ → SecretSpec → Ids → StoredState → World → Progress (Unit {0})
  unfolding prompt_until_accepted validate_until_decided by_stored_status
  satisfy_from budget spec ids absent w =
      prompt_until_accepted budget budget spec ids [] Reason.nothing_stored
        (show (set_state Phase.prompting (Message.not_stored spec.name)) w)
  satisfy_from budget spec ids (incomplete missing usable) w =
      prompt_until_accepted budget budget spec ids (keep_public spec usable)
        (Reason.stored_incomplete missing) (show_asking spec (Reason.stored_incomplete missing) w)
  satisfy_from budget spec ids (complete values) w =
      validate_until_decided budget spec values Origin.stored_credentials 0 w >>= λ verdict w'.
      by_stored_status budget spec ids values verdict verdict.status w'

  unfoldable pub satisfy_read :
      ℕ → SecretSpec → Ids → Option (Option Text) → World → Progress (Unit {0})
  unfolding satisfy_from
  satisfy_read budget spec ids none w = failed (Failure.cannot_read spec.path) w
  satisfy_read budget spec ids (some text) w =
      satisfy_from budget spec ids (classify_stored spec (parsed text)) w

  abbrev pub show_checking : SecretSpec → World → World
  show_checking spec = show (λ ui.
      set_state Phase.check (Message.checking_stored spec.name)
        (set_secret spec.name SecretState.checking Detail.reading_stored ui))

  -- `satisfy`
  unfoldable pub satisfy : ℕ → SecretSpec → Ids → World → Progress (Unit {0})
  unfolding satisfy_read read_file
  satisfy budget spec ids w =
      satisfy_read budget spec ids (read_file spec.path w.disk) (after_read (show_checking spec w))

  -- The boot session of `run`: every secret in turn, and the last frame.
  unfoldable pub satisfy_all : ℕ → List (SecretSpec × Ids) → World → Progress (Unit {0})
  unfolding satisfy
  satisfy_all budget [] w =
      arrived tt (show (λ ui. set_state Phase.finished Message.all_satisfied (set_done ui)) w)
  satisfy_all budget ((s, ids) ∷ rest) w =
      satisfy budget s ids w >>= λ _ w'. satisfy_all budget rest w'

  -- The detail that an edit session shows of a stored file, which is not validated.
  abbrev pub listed : Text → StoredState → SecretState × Detail
  listed path absent = (SecretState.needs_input, Detail.not_stored_yet)
  listed path (incomplete missing usable) =
      (SecretState.needs_input, Detail.because (Reason.stored_incomplete missing))
  listed path (complete values) = (SecretState.satisfied, Detail.stored_in path)

  -- `read_to_string(…).ok()`
  abbrev pub read_ok : Option (Option Text) → Option Text
  read_ok none = none
  read_ok (some text) = text

  unfoldable pub list_stored : List (SecretSpec × Ids) → World → World
  unfolding read_file
  list_stored [] w = w
  list_stored ((s, ids) ∷ rest) w =
      let (state, note) =
        listed s.path (classify_stored s (parsed (read_ok (read_file s.path w.disk)))) in
      list_stored rest (show (set_secret s.name state note) (after_read w))

  abbrev pub or_no_values : Option (Dict Text) → Dict Text
  or_no_values none = []
  or_no_values (some m) = m

  -- The chosen secret is asked for again.
  unfoldable pub re_enter : ℕ → SecretSpec → Ids → World → Progress (Unit {0})
  unfolding prompt_until_accepted read_file
  re_enter budget s ids w =
      prompt_until_accepted budget budget s ids
        (collect
          (public_stored s.fields (or_no_values (parsed (read_ok (read_file s.path w.disk))))))
        Reason.operator_request
        (show (set_state Phase.prompting (Message.re_entering s.name)) (after_read w))
      >>= λ _ w'.
          arrived tt
            (show (λ ui. set_state Phase.finished (Message.updated s.name) (set_done ui)) w')

  abbrev pub choosing : World → World
  choosing = show (λ ui. set_state Phase.choose Message.select_secret (set_choosing true ui))

  unfoldable pub edit_chosen :
      ℕ → List (SecretSpec × Ids) → World → Option (Text × List ClientMsg) → Progress (Unit {0})
  unfolding re_enter
  edit_chosen budget specs w none = parked (drained w)
  edit_chosen budget specs w (some (chosen, rest)) =
      let w' = record w { ui = set_choosing false (record w.ui { submissions = rest }) } in
      elim (find (λ s. text_eq s.0.name chosen) specs) [
        | none ↦ failed (Failure.no_such_secret chosen) w'
        | some (s, ids) ↦ re_enter budget s ids w'
      ]

  -- `edit_session`
  unfoldable pub edit_session : ℕ → List (SecretSpec × Ids) → World → Progress (Unit {0})
  unfolding edit_chosen list_stored
  edit_session budget specs w =
      let w' = choosing (list_stored specs w) in
      edit_chosen budget specs w' (wait_for_choice w'.ui.submissions)
