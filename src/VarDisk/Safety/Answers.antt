-- ===== src/VarDisk/Safety/Answers.antt =====
-- The questions to the operator: each round takes a message, and the answer stands in the trace.
use foundrix.Base.{
  ℕ, zero, suc, ◌<◌, ◌≡◌, refl, arith, Bool, true, false, inl, List, [], ◌∷◌, Option, none, some,
  if◌then◌else◌, ◌==◌, length, ltb, Text, text_eq,
}
use foundrix.VarDisk.Classify.{parse_confirm}
use foundrix.VarDisk.Commands.{Cfg}
use foundrix.VarDisk.World.{
  Step, Event, answered, Question, PromptKind, Phase, Message, ClientMsg, submit, continue, pure,
  find_answer, ◌>>=◌, ◌>>◌, World,
}
use foundrix.VarDisk.Host.{
  mutate, set_prompt, take_answer, state, ask, next_id, confirm_loop, ask_confirm, passphrase_loop,
  ask_new_passphrase,
}
use foundrix.VarDisk.Safety.{Happened, IsSafe, Extends, Extends-cons, Good, Fine, Calm}

-- Fewer messages are left than there were.
abbrev Fewer : List ClientMsg → Option (Text × List ClientMsg) → Type 0
Fewer ms none = Unit
Fewer ms (some (value, rest)) = length rest < length ms

find_answer-Fewer : (id : ℕ) (ms : List ClientMsg) → Fewer ms (find_answer id ms)
unfolding find_answer
find_answer-Fewer id [] = tt
find_answer-Fewer id (submit prompt_id value ∷ ms) =
    by (prompt_id == id) (find_answer id ms) (find_answer-Fewer id ms)
  where
    by :
        (b : Bool) (o : Option (Text × List ClientMsg))
        → Fewer ms o
        → Fewer (submit prompt_id value ∷ ms) (if b then some (value, ms) else o)
    by true o f = omega arith
    by false none f = tt
    by false (some (v, rest)) f = omega arith

module _ {S B : Type 0} (cfg : Cfg) (t0 : List Event) where
  -- What follows a prompt has the answer in its trace and fewer messages to read.
  pub ask-Good :
      (kind : PromptKind) (text : Question) (R : B → List Event → Type 0) (f : Text → Step S B)
      (w : World S)
      → IsSafe cfg w.trace
      → Extends t0 w.trace
      → ((answer : Text) (w1 : World S)
          → length w1.messages < length w.messages
          → IsSafe cfg w1.trace
          → Extends t0 w1.trace
          → Happened (answered text answer) w1.trace
          → Good cfg t0 R (f answer w1))
      → Good cfg t0 R (continue f (ask kind text w))
  unfolding ask mutate
  ask-Good kind text R f w s e k =
      by (find_answer (next_id w) w.messages) (find_answer-Fewer (next_id w) w.messages)
    where
      asked : World S
      asked =
          set_prompt (some (record { id = next_id w; kind = kind; text = text }))
            (record w { next_prompt_id = next_id w })

      by :
          (o : Option (Text × List ClientMsg))
          → Fewer w.messages o
          → Good cfg t0 R (continue f (take_answer text o asked))
      by none less = (s, e)
      by (some (value, rest)) less = k value _ less s (Extends-cons _ t0 w.trace e) (inl refl)

-- The operator has given this answer to the question.
abbrev pub Agrees : Question → Bool → List Event → Type 0
Agrees text b t =
    (answer : Text) × (parse_confirm answer ≡ some b) × Happened (answered text answer) t

module _ {S : Type 0} (cfg : Cfg) (t0 : List Event) where
  confirm_loop-Good :
      (fuel : ℕ) (text : Question) (w : World S)
      → length w.messages < fuel
      → IsSafe cfg w.trace
      → Extends t0 w.trace
      → Good cfg t0 (Agrees text) (confirm_loop fuel text w)
  unfolding confirm_loop state mutate
  confirm_loop-Good zero text w n s e = omega (arith, n)
  confirm_loop-Good (suc fuel) text w n s e =
      ask-Good cfg t0 PromptKind.confirm text (Agrees text) next w s e (λ answer w1 less s1 e1 m.
        by answer w1 (parse_confirm answer) refl s1 e1 m
          (confirm_loop-Good fuel text (said w1) (omega (arith, less, n)) s1 e1))
    where
      next : Text → Step S Bool
      next answer = elim (parse_confirm answer) [
        | some agreed ↦ pure agreed
        | none ↦ state Phase.prompt_phase Message.answer_y_or_n >> confirm_loop fuel text
      ]

      said : World S → World S
      said = mutate (λ s. record s { phase = Phase.prompt_phase; message = Message.answer_y_or_n })

      by :
          (answer : Text) (w1 : World S) (o : Option Bool)
          → parse_confirm answer ≡ o
          → IsSafe cfg w1.trace
          → Extends t0 w1.trace
          → Happened (answered text answer) w1.trace
          → Good cfg t0
              (Agrees text)
              ((state Phase.prompt_phase Message.answer_y_or_n >> confirm_loop fuel text) w1)
          → Good cfg t0 (Agrees text) (
              (elim o as (λ x. Step S Bool) [
                | some agreed ↦ pure agreed
                | none ↦ state Phase.prompt_phase Message.answer_y_or_n >> confirm_loop fuel text
              ])
                w1)
      by answer w1 (some b) q s1 e1 m g = (s1, e1, (answer, q, m))
      by answer w1 none q s1 e1 m g = g

  pub ask_confirm-Fine : (text : Question) → Fine cfg t0 (Agrees text) (ask_confirm {S = S} text)
  unfolding ask_confirm
  ask_confirm-Fine text w s e = confirm_loop-Good (suc (length w.messages)) text w (omega arith) s e

  passphrase_loop-Good :
      (fuel min : ℕ) (w : World S)
      → length w.messages < fuel
      → IsSafe cfg w.trace
      → Extends t0 w.trace
      → Good cfg t0 (λ _ _. Unit) (passphrase_loop fuel min w)
  unfolding passphrase_loop state mutate
  passphrase_loop-Good zero min w n s e = omega (arith, n)
  passphrase_loop-Good (suc fuel) min w n s e =
      ask-Good cfg t0 PromptKind.new_passphrase Question.choose_passphrase (λ _ _. Unit) first w s e
        (λ a w1 less s1 e1 m.
          by_length a w1 (ltb (length a) min)
            (passphrase_loop-Good fuel min (said (Message.too_short min) w1)
              (omega (arith, less, n)) s1 e1)
            (ask-Good cfg t0 PromptKind.repeat_passphrase Question.repeat_it (λ _ _. Unit)
              (second a) w1 s1 e1
              (λ b w2 less2 s2 e2 m2. by_equal a w2 s2 e2 (text_eq a b) (
                passphrase_loop-Good fuel min (said Message.did_not_match w2)
                  (omega (arith, less, less2, n)) s2 e2))))
    where
      said : Message → World S → World S
      said message = mutate (λ s. record s { phase = Phase.prompt_phase; message = message })

      second : Text → Text → Step S Text
      second a b = elim (text_eq a b) [
        | true ↦ pure a
        | false ↦ state Phase.prompt_phase Message.did_not_match >> passphrase_loop fuel min
      ]

      first : Text → Step S Text
      first a = elim (ltb (length a) min) [
        | true ↦ state Phase.prompt_phase (Message.too_short min) >> passphrase_loop fuel min
        | false ↦ ask PromptKind.repeat_passphrase Question.repeat_it >>= second a
      ]

      by_length :
          (a : Text) (w1 : World S) (b : Bool)
          → Good cfg t0 (λ _ _. Unit) (passphrase_loop fuel min (said (Message.too_short min) w1))
          → Good cfg t0
              (λ _ _. Unit)
              ((ask PromptKind.repeat_passphrase Question.repeat_it >>= second a) w1)
          → Good cfg t0
              (λ _ _. Unit)
              ((elim b as (λ x. Step S Text) [
                | true ↦
                    state Phase.prompt_phase (Message.too_short min) >> passphrase_loop fuel min
                | false ↦ ask PromptKind.repeat_passphrase Question.repeat_it >>= second a
              ])
                w1)
      by_length a w1 true g k = g
      by_length a w1 false g k = k

      by_equal :
          (a : Text) (w1 : World S)
          → IsSafe cfg w1.trace
          → Extends t0 w1.trace
          → (b : Bool)
          → Good cfg t0 (λ _ _. Unit) (passphrase_loop fuel min (said Message.did_not_match w1))
          → Good cfg t0
              (λ _ _. Unit)
              ((elim b as (λ x. Step S Text) [
                | true ↦ pure a
                | false ↦ state Phase.prompt_phase Message.did_not_match >> passphrase_loop fuel min
              ])
                w1)
      by_equal a w1 s1 e1 true g = (s1, e1, tt)
      by_equal a w1 s1 e1 false g = g

  pub ask_new_passphrase-Calm : Calm cfg t0 (ask_new_passphrase {S = S} cfg)
  unfolding ask_new_passphrase
  ask_new_passphrase-Calm w s e =
      passphrase_loop-Good (suc (length w.messages)) cfg.min_passphrase_len w (omega arith) s e
