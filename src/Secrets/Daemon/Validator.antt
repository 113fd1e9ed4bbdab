-- ===== src/Secrets/Daemon/Validator.antt =====
-- packages/operator-secrets/src/bin/daemon.rs, `validate` and `redact_values`. What the validator's
-- process does with its command line and its request is an input: whether it starts, what it writes
-- and how it ends.
use foundrix.Base.{
  ℕ, zero, suc, ◌-◌, Bool, true, false, ◌&&◌, List, [], ◌∷◌, ◌++◌, Option, none, some, ltb, leb,
  if◌then◌else◌, Dict, collect, length, is_empty, find, Text, codes, text_eq, starts_with, trim,
  decimal, Result,
}
use foundrix.Secrets.Spec.{FieldSpec}
use foundrix.Secrets.Verdict.{
  ValidatorResponse, Verdict, is_error, error_verdict, valid_verdict, invalid_verdict,
  parse_validator_output,
}

-- One run of a validator: it cannot be started (the texts are those of the errors), it does not
-- answer in time, or it ends, having written to stdout and stderr. A clean end has no exit text.
pub data Run : Type 0 where
  not_serialized not_spawned : Text → Run
  no_stdin timed_out : Run
  ended : Text → Text → Option Text → Run

-- What goes to the validator on stdin, as one JSON object.
pub record ValidatorRequest : Type 0 where
  pub fields : Dict Text

unfoldable pub request : List (Text × Text) → ValidatorRequest
request values = record { fields = collect values }

-- What a validator does at one of its runs: its program and its arguments, the request that it is
-- given on stdin, and how the run goes.
abbrev pub Validator : Type 0
Validator = Text → List Text → ValidatorRequest → Run

-- `str::contains`
unfoldable pub contains : Text → Text → Bool
contains v [] = is_empty v
contains v (c ∷ s) = if starts_with v (c ∷ s) then true else contains v s

-- `str::replace`, with the number of characters of a match that are still to be passed over.
unfoldable pub replace_from : Text → Text → ℕ → Text → Text
replace_from v by n [] = []
replace_from v by (suc n) (c ∷ s) = replace_from v by n s
replace_from v by zero (c ∷ s) = elim (starts_with v (c ∷ s)) [
  | true ↦ by ++ replace_from v by (length v - 1) s
  | false ↦ c ∷ replace_from v by zero s
]

abbrev pub redacted : Text
redacted = 0xab ∷ b'r' ∷ b'e' ∷ b'd' ∷ b'a' ∷ b'c' ∷ b't' ∷ b'e' ∷ b'd' ∷ 0xbb ∷ []

-- One round of the loop of `redact_values`.
unfoldable pub redact : Text → Text → Text
unfolding contains replace_from
redact v out = if leb 4 (length v) && contains v out then replace_from v redacted 0 out else out

unfoldable pub redact_values : Text → List (Text × Text) → Text
unfolding redact
redact_values out [] = out
redact_values out ((k, v) ∷ values) = redact_values (redact v out) values

unfoldable pub take : ℕ → Text → Text
take zero s = []
take (suc n) [] = []
take (suc n) (c ∷ s) = c ∷ take n s

-- The first 400 characters, and an ellipsis where there are more.
unfoldable pub truncate : Text → Text
unfolding take
truncate e = if ltb 400 (length e) then take 400 e ++ 0x2026 ∷ [] else take 400 e

abbrev pub with_exit : Text → Option Text → Text
with_exit message none = message
with_exit message (some code) = message ++ codes " (" ++ code ++ codes ")"

unfoldable pub with_stderr : Text → Text → List (Text × Text) → Text
unfolding redact_values truncate
with_stderr detail err values =
    if is_empty err
    then detail
    else detail ++ codes "; stderr: " ++ truncate (redact_values err values)

unfoldable pub missing_verdict : Text → Verdict
unfolding invalid_verdict
missing_verdict name = invalid_verdict (
    codes "field "
    ++ name
    ++ codes
        " is missing or empty (no validator configured; all declared fields must be present and non-empty)")

-- The fields of a secret without a validator: each present and not empty.
unfoldable pub check_present : List FieldSpec → List (Text × Text) → Verdict
unfolding missing_verdict valid_verdict
check_present [] values = valid_verdict
check_present (f ∷ fs) values = elim (find (λ kv. text_eq kv.0 f.name) values) [
  | none ↦ missing_verdict f.name
  | some kv ↦ if is_empty kv.1 then missing_verdict f.name else check_present fs values
]

module _ (from_str : Text → Result ValidatorResponse Text) (timeout_secs : ℕ) where
  -- The verdict on a run that ended, with the diagnostics where it could not decide.
  unfoldable pub read_output : List (Text × Text) → Text → Text → Option Text → Verdict
  unfolding with_stderr
  read_output values out err exit =
      let verdict = parse_validator_output from_str (trim out) in
      if is_error verdict.status
      then record verdict {
        message = with_stderr (with_exit verdict.message exit) (trim err) values;
      }
      else verdict

  unfoldable pub read_run : Text → List (Text × Text) → Run → Verdict
  unfolding read_output error_verdict
  read_run program values (Run.not_serialized e) =
      error_verdict (codes "serializing validator request: " ++ e)
  read_run program values (Run.not_spawned e) =
      error_verdict (codes "spawning validator " ++ program ++ codes ": " ++ e)
  read_run program values Run.no_stdin = error_verdict (codes "validator has no stdin pipe")
  read_run program values Run.timed_out = error_verdict (
      codes "validator did not answer within " ++ decimal timeout_secs ++ codes "s — cannot decide")
  read_run program values (Run.ended out err exit) = read_output values out err exit
