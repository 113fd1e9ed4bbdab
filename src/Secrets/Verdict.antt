-- ===== src/Secrets/Verdict.antt =====
-- packages/operator-secrets/src/lib.rs, the validator's protocol: reading its output.
use foundrix.Base.{
  [], ◌++◌, Option, none, some, if◌then◌else◌, is_empty, Text, codes, trim, Result, ok, err, Bool,
  true, false,
}

pub data ValidatorStatus : Type 0 where
  valid invalid error : ValidatorStatus

pub record ValidatorResponse : Type 0 where
  pub status : ValidatorStatus
  pub message : Option Text

pub record Verdict : Type 0 where
  pub status : ValidatorStatus
  pub message : Text

abbrev pub is_error : ValidatorStatus → Bool
is_error valid = false
is_error invalid = false
is_error error = true

unfoldable pub error_verdict : Text → Verdict
error_verdict m = record { status = error; message = m }

unfoldable pub valid_verdict : Verdict
valid_verdict = record { status = valid; message = [] }

unfoldable pub invalid_verdict : Text → Verdict
invalid_verdict m = record { status = invalid; message = m }

abbrev pub message_or_empty : Option Text → Text
message_or_empty none = []
message_or_empty (some m) = m

-- `parse_validator_output`, over the JSON reader, which gives the response or its own error text.
module _ (from_str : Text → Result ValidatorResponse Text) where
  unfoldable pub parse_validator_output : Text → Verdict
  unfolding error_verdict
  parse_validator_output stdout =
      if is_empty (trim stdout)
      then error_verdict (codes "validator produced no output")
      else elim (from_str (trim stdout)) [
        | ok r ↦ record { status = r.status; message = message_or_empty r.message }
        | err e ↦ error_verdict (codes "validator output is not a verdict object: " ++ e)
      ]
