-- ===== src/Secrets/Daemon/Tests.antt =====
-- The daemon of packages/operator-secrets on a concrete disk, with a validator and an answer.
use foundrix.Secrets.Spec.{field, FieldSpec, SecretSpec, parse_mode, is_octal_digit}
use foundrix.Secrets.Env.{check_field_value}
use foundrix.Base.{
  is_whitespace, collect, collect_from, insert, trim, ℕ, ◌≤◌, arith, Option, if◌then◌else◌, text_eq,
  lookup, ◌≡◌, refl, true, false, List, [], ◌∷◌, ◌++◌, none, some, All, Text, codes, Result, ok,
  parse_unsigned,
}
use foundrix.Secrets.Daemon.Satisfy.{
  satisfy_read, satisfy_from, prompt_until_accepted, read_file, validate, validate_by,
  run_validator, store, satisfy, validate_until_decided,
}
use foundrix.Secrets.Daemon.Ask.{
  ask, post_prompt, take_answer, next_id, wait_for_submission, keep_public, World, Progress,
  arrived, parked, failed, no_fuel,
}
use foundrix.Secrets.Stored.{accept_submission, classify_stored}
use foundrix.Secrets.Daemon.Validator.{request, read_run, read_output, Run, ended, Validator}
use foundrix.Secrets.Daemon.Ui.{
  set_state, set_secret, set_prompt, set_blocked, mutate, Snapshot, Phase, Message, Origin, submit,
}
use foundrix.Secrets.Verdict.{parse_validator_output, ValidatorResponse, valid, invalid}
use foundrix.Secrets.Daemon.Disk.{
  File, Files, Disk, succeeds, fails, Ids, split_path, tmp_path, write_secret,
}
use foundrix.Secrets.Daemon.Disk.Atomic.{Post, Sight}
use foundrix.Secrets.Daemon.Disk.Replaced.{written_file, write_secret-Sight}
use foundrix.Secrets.Daemon.Satisfy.Decided.{
  Reached, Quiet, Quiet-refl, Decided, validate_until_decided-Decided,
}
use foundrix.Secrets.Daemon.Satisfy.Budget.{Ends, size}
use foundrix.Secrets.Daemon.Satisfy.Ends.{satisfy-Ends}
use foundrix.Secrets.Daemon.Satisfy.Proven.{Kept, Satisfied, satisfy-Satisfied}

abbrev api_key : FieldSpec
api_key = record { name = codes "API_KEY"; description = []; sensitive = true }

abbrev mailer : SecretSpec
mailer = record {
  name = codes "mailer";
  description = codes "Mail relay key";
  fields = api_key ∷ [];
  path = codes "/var/credentials/mailer.env";
  owner = codes "mailer";
  group = none;
  mode = codes "0400";
  validate_command = some (codes "/bin/validate" ∷ []);
}

abbrev values : List (Text × Text)
values = (codes "API_KEY", codes "k-17") ∷ []

abbrev mail_ids : Ids
mail_ids = record { uid = 991; gid = 991 }

-- The wanted key is the only good one: the validator looks at the field of its request.
abbrev judged : Option Text → Run
judged none = ended (codes "{\"status\":\"invalid\"}") [] none
judged (some key) = elim (text_eq key (codes "k-17")) [
  | true ↦ ended (codes "{\"status\":\"valid\"}") [] none
  | false ↦ ended (codes "{\"status\":\"invalid\"}") [] none
]

abbrev check_key : Validator
check_key program args r = judged (lookup (codes "API_KEY") r.fields)

-- A rename that fails after the temporary file was written.
abbrev disk : Disk
disk = record {
  files = λ p. none;
  history = [];
  outcomes = succeeds ∷ succeeds ∷ succeeds ∷ succeeds ∷ succeeds ∷ succeeds ∷ fails 0 ∷ [];
}

abbrev screen : Snapshot
screen = record {
  phase = Phase.no_phase;
  message = Message.no_message;
  blocked = false;
  secrets = [];
  prompt = none;
  done = false;
  choosing = false;
}

-- A wrong answer and a right one wait, for the first prompt and for the second, and nothing fails
-- on the disk.
abbrev world : World
world = record {
  ui = record {
    snapshot = screen;
    sent = [];
    submissions = submit 2 ((codes "API_KEY", codes "k-18") ∷ []) ∷ submit 3 values ∷ [];
    next_prompt_id = 1;
  };
  runs = check_key ∷ check_key ∷ [];
  disk = record disk { outcomes = [] };
}

-- The two answers that the validator gives, read as JSON.
abbrev reader : Text → Result ValidatorResponse Text
reader s =
    if text_eq s (codes "{\"status\":\"valid\"}")
    then ok (record { status = valid; message = none })
    else ok (record { status = invalid; message = none })

satisfy-Satisfied_example :
    Reached
      (λ _. Satisfied reader 30 0 0 (codes "77") mailer mail_ids world)
      (Kept reader 30 0 0 (codes "77") mailer mail_ids world)
      (satisfy reader 30 0 0 (codes "77") 5 mailer mail_ids world)
satisfy-Satisfied_example = satisfy-Satisfied reader 30 0 0 (codes "77") mailer mail_ids 5 world

satisfy-Ends_example :
    Ends (λ w'. size w' ≤ 4) (satisfy reader 30 0 0 (codes "77") 5 mailer mail_ids world)
satisfy-Ends_example = satisfy-Ends reader 30 0 0 (codes "77") 5 mailer mail_ids world (omega arith)

validate_until_decided-Decided_example :
    Reached (Decided reader 30 0 0 (codes "77") mailer values world) (Quiet world) (
      validate_until_decided reader 30 0 0
        (codes "77")
        5
        mailer
        values
        Origin.entered_credentials
        0
        world)
validate_until_decided-Decided_example =
    validate_until_decided-Decided reader 30 0 0 (codes "77") 5 mailer values
      Origin.entered_credentials 0 world world (Quiet-refl world)

mailer_parts : split_path mailer.path ≡ some (codes "/var/credentials", codes "mailer.env")
unfolding split_path codes
mailer_parts = refl

mailer_mode : parse_mode mailer.mode ≡ some 0o400
unfolding parse_mode codes is_octal_digit parse_unsigned
mailer_mode = refl

write_secret-Sight_example :
    let new = written_file mail_ids 0o400 values in
    let tmp = tmp_path (codes "77") (codes "/var/credentials") (codes "mailer.env") in
    let seen = λ (history : List Files).
      (recent : List Files) × (history ≡ recent ++ [])
      × All (Sight mailer.path tmp none new none) recent in
    Post
      (λ _ d'. seen d'.history × (d'.files mailer.path ≡ some new))
      (λ d'. seen d'.history × (d'.files mailer.path ≡ none))
      (write_secret 0 0 (codes "77") mailer mail_ids values disk)
write_secret-Sight_example =
    write_secret-Sight 0 0 (codes "77") mailer mail_ids values disk (codes "/var/credentials")
      (codes "mailer.env") 0o400 mailer_parts mailer_mode

-- Where a part of the daemon arrives: the stored file, and what is left of the inputs.
abbrev end_of : Progress (Unit {0}) → Option (Option File × ℕ)
end_of (arrived a w) = some (w.disk.files mailer.path, size w)
end_of (parked w) = none
end_of (failed e w) = none
end_of no_fuel = none

-- The wrong key is refused and the right one written, and both answers and both runs are used up.
mailer_written :
    end_of (satisfy reader 30 0 0 (codes "77") 5 mailer mail_ids world)
    ≡ some (some (written_file mail_ids 0o400 values), 0)
unfolding satisfy satisfy_read satisfy_from prompt_until_accepted read_file ask post_prompt
    take_answer next_id wait_for_submission accept_submission validate_until_decided validate
    validate_by run_validator request collect collect_from insert lookup store write_secret codes
    text_eq parse_mode is_octal_digit parse_unsigned split_path classify_stored keep_public
    set_state set_secret set_prompt set_blocked mutate read_run read_output parse_validator_output
    trim field check_field_value is_whitespace
mailer_written = refl
