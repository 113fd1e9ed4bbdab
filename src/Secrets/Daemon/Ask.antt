-- ===== src/Secrets/Daemon/Ask.antt =====
-- packages/operator-secrets/src/bin/daemon.rs, `Ui::ask` and the two waits. The messages of the
-- clients are an input: a wait that finds no more of them is parked. A loop takes fuel.
use foundrix.Base.{
  ℕ, zero, suc, ◌+◌, ◌%◌, ◌^◌, Bool, false, List, [], ◌∷◌, Option, none, some, not, filter, ◌==◌,
  if◌then◌else◌, Text, Dict, collect, ok, err,
}
use foundrix.Secrets.Spec.{FieldSpec, SecretSpec, field}
use foundrix.Secrets.Stored.{prompt_fields, accept_submission}
use foundrix.Secrets.Daemon.Ui.{
  Ui, Reason, bad_submission, Prompt, prompting, submission_rejected, ClientMsg, submit, edit,
  set_state, set_prompt,
}
use foundrix.Secrets.Daemon.Validator.{Validator}
use foundrix.Secrets.Daemon.Disk.{Disk, WriteError}

-- The daemon's state and its inputs: what the validators do at their next runs, and the disk.
pub record World : Type 0 where
  pub ui : Ui
  pub runs : List Validator
  pub disk : Disk

pub data Failure : Type 0 where
  cannot_read : Text → Failure
  cannot_write : Text → WriteError → Failure
  no_such_secret : Text → Failure
  empty_command : Text → Failure
  unreachable : Failure

-- How far a part of the daemon gets: to its end, to a wait for a message or for a validator, or to
-- an error that ends the daemon.
pub data Progress (A : Type 0) : Type 0 where
  arrived : A → World → Progress A
  parked : World → Progress A
  failed : Failure → World → Progress A
  no_fuel : Progress A

infixl 5 ◌>>=◌
abbrev pub ◌>>=◌ : {A B : Type 0} → Progress A → (A → World → Progress B) → Progress B
arrived a w >>= f = f a w
parked w >>= f = parked w
failed e w >>= f = failed e w
no_fuel >>= f = no_fuel

-- A change of the user interface.
abbrev pub show : (Ui → Ui) → World → World
show f w = record w { ui = f w.ui }

abbrev pub is_public : Option FieldSpec → Bool
is_public none = false
is_public (some f) = not f.sensitive

-- The values of declared fields that are not sensitive.
unfoldable pub keep_public : SecretSpec → List (Text × Text) → Dict Text
keep_public spec values = collect (filter (λ kv. is_public (field spec kv.0)) values)

-- The first answer to this prompt, and the messages behind it; the others are dropped.
unfoldable pub wait_for_submission :
    ℕ → List ClientMsg → Option (List (Text × Text) × List ClientMsg)
wait_for_submission id [] = none
wait_for_submission id (submit prompt_id values ∷ rest) =
    if prompt_id == id then some (values, rest) else wait_for_submission id rest
wait_for_submission id (edit secret ∷ rest) = wait_for_submission id rest

unfoldable pub wait_for_choice : List ClientMsg → Option (Text × List ClientMsg)
wait_for_choice [] = none
wait_for_choice (submit prompt_id values ∷ rest) = wait_for_choice rest
wait_for_choice (edit secret ∷ rest) = some (secret, rest)

unfoldable pub next_id : Ui → ℕ
next_id ui = (ui.next_prompt_id + 1) % 2 ^ 64

unfoldable pub make_prompt : SecretSpec → Reason → Dict Text → ℕ → Prompt
make_prompt spec reason known id = record {
  id = id;
  secret = spec.name;
  description = spec.description;
  reason = reason;
  fields = prompt_fields spec known;
}

-- A new prompt is on every screen.
unfoldable pub post_prompt : SecretSpec → Reason → Dict Text → World → World
unfolding next_id make_prompt
post_prompt spec reason known w = record w {
  ui =
      set_prompt (some (make_prompt spec reason known (next_id w.ui)))
        (record w.ui { next_prompt_id = next_id w.ui });
}

-- The answer is taken from the channel, and the prompt from the screens.
unfoldable pub take_answer : List ClientMsg → World → World
take_answer rest w = record w { ui = set_prompt none (record w.ui { submissions = rest }) }

unfoldable pub drained : World → World
drained w = record w { ui = record w.ui { submissions = [] } }

unfoldable pub ask : ℕ → SecretSpec → Reason → Dict Text → World → Progress (List (Text × Text))
unfolding post_prompt take_answer drained
ask zero spec reason known w = no_fuel
ask (suc fuel) spec reason known w = elim (wait_for_submission (next_id w.ui) w.ui.submissions) [
  | none ↦ parked (drained (post_prompt spec reason known w))
  | some (values, rest) ↦ elim (accept_submission spec values) [
    | ok v ↦ arrived v (take_answer rest (post_prompt spec reason known w))
    | err e ↦ ask fuel spec (bad_submission e) (keep_public spec values) (
        show (set_state prompting (submission_rejected spec.name e))
          (take_answer rest (post_prompt spec reason known w)))
  ]
]
