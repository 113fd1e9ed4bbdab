-- ===== src/Oidc/Verdict.antt =====
-- packages/oidc-credential-validator/src/main.rs: the verdict and its print. A message is a constructor
-- with what its text names.
use foundrix.Base.{ℕ, List, Option, none, some, if◌then◌else◌, is_empty, Text, codes}
use foundrix.Oidc.Args.{Stop}

pub data Message : Type 0 where
  bad_invocation : Stop → Message
  reading_stdin not_a_request : Message
  no_field : Text → Message
  issuer_not_https introspection_not_https token_not_https : Text → Message
  discovery_status : Text → ℕ → Message
  discovery_not_json discovery_unread discovery_unfetched : Text → Message
  no_endpoint : Text → Message
  no_method : Text → List Text → Message
  credentials_rejected : Message
  introspection_unsent token_unsent : Text → Message
  introspection_accepted : Message
  introspection_without_active introspection_undecided : ℕ → Message
  introspection_rejected : ℕ → Option Text → Message
  introspection_answered : ℕ → Option Text → Message
  token_accepted token_undecided : ℕ → Message
  token_rejected token_refused token_answered : ℕ → Option Text → Message

pub data Verdict : Type 0 where
  valid invalid error : Message → Verdict

pub record Response : Type 0 where
  pub status : Text
  pub message : Option Text

-- The object that `emit` prints, with the text of each message.
module _ (text : Message → Text) where
  abbrev pub message_of : Message → Option Text
  message_of m = if is_empty (text m) then none else some (text m)

  unfoldable pub emit : Verdict → Response
  emit (valid m) = record { status = codes "valid"; message = message_of m }
  emit (invalid m) = record { status = codes "invalid"; message = message_of m }
  emit (error m) = record { status = codes "error"; message = message_of m }
