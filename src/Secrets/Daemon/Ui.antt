-- ===== src/Secrets/Daemon/Ui.antt =====
-- packages/operator-secrets/src/lib.rs and src/bin/daemon.rs, the hub of the user interface: the
-- snapshot that every client sees, and the methods of `Ui` that change it. A text that the daemon
-- formats is a constructor with the values that the text names.
use foundrix.Base.{ℕ, Bool, true, false, List, [], ◌∷◌, Option, none, if◌then◌else◌, Text, text_eq}
use foundrix.Secrets.Stored.{Missing, PromptField, SubmitError}

pub data SecretState : Type 0 where
  pending checking needs_input validating satisfied undecided : SecretState

-- Why the daemon asks.
pub data Reason : Type 0 where
  nothing_stored operator_request : Reason
  stored_incomplete : List Missing → Reason
  bad_submission : SubmitError → Reason
  stored_rejected entered_rejected : Text → Reason

-- What the operator's values are, in the text of a status.
pub data Origin : Type 0 where
  stored_credentials entered_credentials : Origin

-- The detail of a secret's status.
pub data Detail : Type 0 where
  no_detail reading_stored stored_valid accepted_and_written not_stored_yet : Detail
  validating_values : Origin → Detail
  cannot_decide stored_in : Text → Detail
  because : Reason → Detail

pub record SecretStatus : Type 0 where
  pub name : Text
  pub description : Text
  pub state : SecretState
  pub detail : Detail

pub record Prompt : Type 0 where
  pub id : ℕ
  pub secret : Text
  pub description : Text
  pub reason : Reason
  pub fields : List PromptField

pub data Phase : Type 0 where
  no_phase check prompting undecided_phase choose finished : Phase

-- The headline, with the secret that it speaks of.
pub data Message : Type 0 where
  no_message select_secret all_satisfied : Message
  checking_stored not_stored credentials_valid re_entering updated : Text → Message
  asking : Text → Reason → Message
  submission_rejected : Text → SubmitError → Message
  validator_undecided : Text → Text → ℕ → Message
  written_to : Text → Text → Message

pub record Snapshot : Type 0 where
  pub phase : Phase
  pub message : Message
  pub blocked : Bool
  pub secrets : List SecretStatus
  pub prompt : Option Prompt
  pub done : Bool
  pub choosing : Bool

pub data ClientMsg : Type 0 where
  submit : ℕ → List (Text × Text) → ClientMsg
  edit : Text → ClientMsg

-- `Ui`: the snapshot, the snapshots sent to the clients (the last one first), the messages of the
-- clients that wait in the channel, and the number of prompts so far.
pub record Ui : Type 0 where
  pub snapshot : Snapshot
  pub sent : List Snapshot
  pub submissions : List ClientMsg
  pub next_prompt_id : ℕ

unfoldable pub mutate : (Snapshot → Snapshot) → Ui → Ui
mutate f ui = record ui { snapshot = f ui.snapshot; sent = f ui.snapshot ∷ ui.sent }

-- `Ui::state`
unfoldable pub set_state : Phase → Message → Ui → Ui
unfolding mutate
set_state phase message = mutate (λ s. record s { phase = phase; message = message })

-- The first status of that name gets the new state and detail.
unfoldable pub update_status : Text → SecretState → Detail → List SecretStatus → List SecretStatus
update_status name state note [] = []
update_status name state note (e ∷ es) =
    if text_eq e.name name
    then record e { state = state; detail = note } ∷ es
    else e ∷ update_status name state note es

unfoldable pub set_secret : Text → SecretState → Detail → Ui → Ui
unfolding mutate
set_secret name state note =
    mutate (λ s. record s { secrets = update_status name state note s.secrets })

-- `Ui::blocked`
unfoldable pub set_blocked : Bool → Ui → Ui
unfolding mutate
set_blocked b = mutate (λ s. record s { blocked = b })

unfoldable pub set_prompt : Option Prompt → Ui → Ui
unfolding mutate
set_prompt p = mutate (λ s. record s { prompt = p })

unfoldable pub set_choosing : Bool → Ui → Ui
unfolding mutate
set_choosing b = mutate (λ s. record s { choosing = b })

-- The last change of a run: all is done.
unfoldable pub set_done : Ui → Ui
unfolding mutate
set_done = mutate (λ s. record s { done = true; blocked = false; prompt = none })
