-- ===== src/VarDisk/World.antt =====
-- packages/var-disk-manager/src/bin/daemon.rs: the snapshot, the messages of the operator, the trace of
-- what the daemon ran and was told, the last first, and the steps over them. The host is a parameter.
-- A text that the daemon formats is a constructor with what it names.
use foundrix.Base.{ℕ, ◌==◌, Bool, List, [], ◌∷◌, Option, none, some, if◌then◌else◌, Text}
use foundrix.VarDisk.Classify.{DiskClass, BlockReason}
use foundrix.VarDisk.Commands.{Invocation}

pub data PromptKind : Type 0 where
  unlock_passphrase new_passphrase repeat_passphrase confirm : PromptKind

-- The texts of the prompts.
pub data Question : Type 0 where
  choose_passphrase repeat_it : Question
  passphrase_for : Text → Question
  create_subvolume_on : Text → Question
  format_empty : Text → Text → Question

pub record Prompt : Type 0 where
  pub id : ℕ
  pub kind : PromptKind
  pub text : Question

-- Why the boot will not proceed.
pub data Reason : Type 0 where
  planned : BlockReason → Reason
  declined_subvolume declined_format contents_unknown : Text → Reason
  unexpected_fs : Text → Text → Reason
  used_unknown : Reason
  too_small : ℕ → ℕ → Reason
  migration_complete : Text → Reason

pub data Phase : Type 0 where
  no_phase enumerate_phase classify_phase prompt_phase grow_phase format_phase unlock_phase
        legacy_phase migrate_phase provision_phase blocked_phase :
      Phase

pub data Message : Type 0 where
  no_message waiting_for_volumes classifying answer_y_or_n did_not_match unlocking unlocked labeling
        booting_unencrypted extending_luks making_fs inspecting copying cleaning_up provisioning
        provisioned :
      Message
  too_short : ℕ → Message
  enlarged partitioning making_luks : Text → Message
  ignoring : Text → Text → Message
  unlock_failed : Message
  blocked_by : Reason → Message

pub record DiskInfo : Type 0 where
  pub id : Text
  pub class : DiskClass
  pub detail : Text

pub record Snapshot : Type 0 where
  pub phase : Phase
  pub message : Message
  pub blocked : Bool
  pub disks : List DiskInfo
  pub progress : Option (ℕ × ℕ)
  pub prompt : Option Prompt

pub data ClientMsg : Type 0 where
  submit : ℕ → Text → ClientMsg

-- How a program ended: not started; its output lost; or with an exit code (none for a signal), its
-- output, its errors, and whether all of its input was taken.
pub data Reply : Type 0 where
  not_spawned lost : Reply
  ended : Option ℕ → Text → Text → Bool → Reply

pub data Event : Type 0 where
  ran : Invocation → Reply → Event
  looked : Text → Bool → Event
  answered : Question → Text → Event

-- One read of the pump of `copy_with_progress`: an error, or a number of bytes, whether they could be
-- written, and whether it is time for an update.
pub data Chunk : Type 0 where
  unread : Chunk
  piece : ℕ → Bool → Bool → Chunk

-- A copy: both programs started or not, the reads up to the end of the stream, and whether the two
-- ended well.
pub data Copy : Type 0 where
  not_started : Copy
  pumped : List Chunk → Bool → Bool → Copy

-- What the daemon finds outside, with a state of the machine: programs, files and directories.
pub record Host (S : Type 0) : Type 0 where
  pub run : Invocation → S → Reply × S
  pub exists : Text → S → Bool × S
  pub list_dir : Text → S → List Text × S
  pub create_dir : Text → S → Bool × S
  pub copy : S → Copy × S
  pub bind : S → Bool × S

pub record World (S : Type 0) : Type 0 where
  pub snapshot : Snapshot
  pub sent : List Snapshot
  pub messages : List ClientMsg
  pub next_prompt_id : ℕ
  pub trace : List Event
  pub host : S

pub data Failure : Type 0 where
  spawning : Invocation → Failure
  command_failed : Invocation → Option ℕ → Text → Failure
  writing_key : Invocation → Failure
  io_error : Text → Failure
  not_a_number : Text → Failure
  no_partition : Text → Failure
  copy_failed send_failed receive_failed : Failure
  bad_glob : Text → Failure
  tool_missing : Text → Failure
  no_volume : Failure

-- How far a part of the daemon gets: to its end, to a block that lasts, to a wait for an answer that
-- does not come, or to an error that ends the daemon.
pub data Progress (S A : Type 0) : Type 0 where
  arrived : A → World S → Progress S A
  blocks : World S → Progress S A
  waits : World S → Progress S A
  failed : Failure → World S → Progress S A
  no_fuel : Progress S A

abbrev pub Step : Type 0 → Type 0 → Type 0
Step S A = World S → Progress S A

abbrev pub continue : {S A B : Type 0} → (A → Step S B) → Progress S A → Progress S B
continue f (arrived a w) = f a w
continue f (blocks w) = blocks w
continue f (waits w) = waits w
continue f (failed e w) = failed e w
continue f no_fuel = no_fuel

infixl 5 ◌>>=◌ ◌>>◌
abbrev pub ◌>>=◌ : {S A B : Type 0} → Step S A → (A → Step S B) → Step S B
◌>>=◌ m f w = continue f (m w)

abbrev pub ◌>>◌ : {S A B : Type 0} → Step S A → Step S B → Step S B
m >> k = m >>= λ _. k

abbrev pub pure : {S A : Type 0} → A → Step S A
pure a w = arrived a w

abbrev pub fail : {S A : Type 0} → Failure → Step S A
fail e w = failed e w

-- The loop of `Ui::ask` over the messages: the first answer to this prompt and what is behind it.
unfoldable pub find_answer : ℕ → List ClientMsg → Option (Text × List ClientMsg)
find_answer id [] = none
find_answer id (submit prompt_id value ∷ ms) =
    if prompt_id == id then some (value, ms) else find_answer id ms
