-- ===== src/VarDisk/Host.antt =====
-- packages/var-disk-manager/src/bin/daemon.rs: the changes of the snapshot, the questions to the operator
-- and the subprocess helpers.
use foundrix.Base.{
  ℕ, suc, zero, ◌+◌, ◌%◌, ◌^◌, ◌==◌, ltb, Bool, true, false, not, ◌&&◌, List, [], ◌∷◌, Option, none,
  some, if◌then◌else◌, length, is_empty, Text, codes, text_eq, trim,
}
use foundrix.VarDisk.Classify.{parse_confirm}
use foundrix.VarDisk.Commands.{Cfg, Invocation, settle_call}
use foundrix.VarDisk.World.{
  PromptKind, Question, Prompt, Reason, Phase, Message, Snapshot, ClientMsg, Reply, Step, ◌>>=◌,
  ◌>>◌, pure, fail, find_answer, not_spawned, lost, ended, ran, looked, answered, arrived, blocks,
  waits, failed, no_fuel, Host, World, Failure,
}

module _ {S : Type 0} where
  -- `Ui::mutate`: every change is sent to the clients.
  unfoldable pub mutate : (Snapshot → Snapshot) → World S → World S
  mutate f w = record w { snapshot = f w.snapshot; sent = f w.snapshot ∷ w.sent }

  unfoldable pub state : Phase → Message → Step S (Unit {0})
  unfolding mutate
  state phase message w = arrived tt (mutate (λ s. record s { phase = phase; message = message }) w)

  unfoldable pub progress : ℕ → ℕ → World S → World S
  unfolding mutate
  progress copied total = mutate (λ s. record s { progress = some (copied, total) })

  -- `block_forever`; the broadcasts that repeat change nothing.
  unfoldable pub block_forever : {A : Type 0} → Reason → Step S A
  unfolding mutate
  block_forever reason w = blocks (
      mutate (λ s. record s { blocked = true; progress = none })
        (mutate (λ s. record s { phase = Phase.blocked_phase; message = Message.blocked_by reason })
          w))

  abbrev pub set_prompt : Option Prompt → World S → World S
  set_prompt p = mutate (λ s. record s { prompt = p })

  abbrev pub take_answer : Question → Option (Text × List ClientMsg) → Step S Text
  take_answer text none w = waits (record w { messages = [] })
  take_answer text (some (value, rest)) w =
      arrived value
        (set_prompt none (record w { messages = rest; trace = answered text value ∷ w.trace }))

  unfoldable pub next_id : World S → ℕ
  next_id w = (w.next_prompt_id + 1) % 2 ^ 64

  -- `Ui::ask`
  unfoldable pub ask : PromptKind → Question → Step S Text
  unfolding mutate find_answer next_id
  ask kind text w = take_answer text (find_answer (next_id w) w.messages) (
      set_prompt (some (record { id = next_id w; kind = kind; text = text }))
        (record w { next_prompt_id = next_id w }))

  -- The loop of `Ui::ask_confirm`: a round takes a message.
  unfoldable pub confirm_loop : ℕ → Question → Step S Bool
  unfolding ask state parse_confirm
  confirm_loop zero text = λ w. no_fuel
  confirm_loop (suc fuel) text = ask PromptKind.confirm text >>= λ answer.
      elim (parse_confirm answer) [
        | some agreed ↦ pure agreed
        | none ↦ state Phase.prompt_phase Message.answer_y_or_n >> confirm_loop fuel text
      ]

  unfoldable pub ask_confirm : Question → Step S Bool
  unfolding confirm_loop
  ask_confirm text w = confirm_loop (suc (length w.messages)) text w

  -- The loop of `ask_new_passphrase`.
  unfoldable pub passphrase_loop : ℕ → ℕ → Step S Text
  unfolding ask state text_eq
  passphrase_loop zero min = λ w. no_fuel
  passphrase_loop (suc fuel) min = ask PromptKind.new_passphrase Question.choose_passphrase >>= λ a.
      elim (ltb (length a) min) [
        | true ↦ state Phase.prompt_phase (Message.too_short min) >> passphrase_loop fuel min
        | false ↦ ask PromptKind.repeat_passphrase Question.repeat_it >>= λ b. elim (text_eq a b) [
          | true ↦ pure a
          | false ↦ state Phase.prompt_phase Message.did_not_match >> passphrase_loop fuel min
        ]
      ]

  unfoldable pub ask_new_passphrase : Cfg → Step S Text
  unfolding passphrase_loop
  ask_new_passphrase cfg w = passphrase_loop (suc (length w.messages)) cfg.min_passphrase_len w

abbrev pub is_success : Option ℕ → Bool
is_success none = false
is_success (some code) = code == 0

abbrev pub value_of : Option ℕ → Text → Option Text
value_of code v = if is_success code && not (is_empty v) then some v else none

module _ {S : Type 0} (h : Host S) where
  -- A program is run, whatever comes of it.
  unfoldable pub exec : Invocation → World S → Reply × World S
  exec i w = let (r, s) = h.run i w.host in (r, record w { trace = ran i r ∷ w.trace; host = s })

  abbrev pub exec_step : Invocation → Step S Reply
  exec_step i w = let (r, w1) = exec i w in arrived r w1

  abbrev pub ok_reply : Invocation → Reply → Step S Text
  ok_reply i not_spawned = fail (Failure.spawning i)
  ok_reply i lost = fail (Failure.spawning i)
  ok_reply i (ended code out errors written) =
      if is_success code then pure out else fail (Failure.command_failed i code (trim errors))

  unfoldable pub run_ok : Invocation → Step S Text
  unfolding exec trim
  run_ok i = exec_step i >>= ok_reply i

  -- A program that ends with an error has found nothing.
  abbrev pub value_reply : Invocation → Reply → Step S (Option Text)
  value_reply i not_spawned = fail (Failure.spawning i)
  value_reply i lost = fail (Failure.spawning i)
  value_reply i (ended code out errors written) = pure (value_of code (trim out))

  unfoldable pub probe_value : Invocation → Step S (Option Text)
  unfolding exec trim
  probe_value i = exec_step i >>= value_reply i

  abbrev pub stdin_reply : Invocation → Reply → Step S (Unit {0})
  stdin_reply i not_spawned = fail (Failure.spawning i)
  stdin_reply i lost = fail (Failure.io_error (codes "waiting"))
  stdin_reply i (ended code out errors written) =
      if is_success code
      then if written then pure tt else fail (Failure.writing_key i)
      else fail (Failure.command_failed i code (trim errors))

  -- `run_with_stdin`; the secret stands in the command line of this model.
  unfoldable pub run_with_stdin : Invocation → Step S (Unit {0})
  unfolding exec trim
  run_with_stdin i = exec_step i >>= stdin_reply i

  unfoldable pub settle : Step S (Unit {0})
  unfolding exec
  settle = exec_step settle_call >>= λ r. pure tt

  unfoldable pub exists : Text → Step S Bool
  exists path w =
      let (b, s) = h.exists path w.host in
      arrived b (record w { trace = looked path b ∷ w.trace; host = s })

  unfoldable pub create_dir_all : Text → Step S (Unit {0})
  create_dir_all path w =
      let (b, s) = h.create_dir path w.host in
      if b
      then arrived tt (record w { host = s })
      else failed (Failure.io_error path) (record w { host = s })
