-- ===== src/VarDisk/Safety/Asking.antt =====
-- The passphrase loop of an unlock: each round takes a message, so that it never runs out of fuel.
use foundrix.Base.{ℕ, zero, suc, ◌<◌, arith, Bool, true, false, List, length, Text}
use foundrix.VarDisk.Commands.{Cfg, Invocation, part1, luks_open_call}
use foundrix.VarDisk.World.{
  Step, Event, Question, PromptKind, Phase, Message, pure, ◌>>=◌, ◌>>◌, Host, World,
}
use foundrix.VarDisk.Host.{mutate, state, exec, exec_step}
use foundrix.VarDisk.Unlock.{opens, unlock_loop, open_volume}
use foundrix.VarDisk.Safety.{IsSafe, Extends, Extends-cons, Good, Calm}
use foundrix.VarDisk.Safety.Outcomes.{harmless}
use foundrix.VarDisk.Safety.Harmless.{luks_open_harmless}
use foundrix.VarDisk.Safety.Answers.{ask-Good}

module _ {S : Type 0} (h : Host S) (cfg : Cfg) (t0 : List Event) where
  unlock_loop-Good :
      (fuel : ℕ) (luks_id : Text) (w : World S)
      → length w.messages < fuel
      → IsSafe cfg w.trace
      → Extends t0 w.trace
      → Good cfg t0 (λ _ _. Unit) (unlock_loop h cfg fuel luks_id w)
  unfolding unlock_loop state mutate exec
  unlock_loop-Good zero luks_id w n s e = omega (arith, n)
  unlock_loop-Good (suc fuel) luks_id w n s e =
      ask-Good cfg t0 PromptKind.unlock_passphrase (Question.passphrase_for luks_id) (λ _ _. Unit)
        next w s e
        (λ pw w1 less s1 e1 m.
          by pw (tried pw w1) (opens h cfg (h.run (attempt pw) w1.host).0)
            (harmless cfg (attempt pw) w1.trace (luks_open_harmless cfg (part1 cfg luks_id) pw), s1)
            (Extends-cons _ t0 w1.trace e1)
            (unlock_loop-Good fuel luks_id (said Message.unlock_failed (tried pw w1))
              (omega (arith, less, n))
              (
                harmless cfg (attempt pw) w1.trace (luks_open_harmless cfg (part1 cfg luks_id) pw),
                s1,
              )
              (Extends-cons _ t0 w1.trace e1)))
    where
      said : Message → World S → World S
      said message = mutate (λ s. record s { phase = Phase.unlock_phase; message = message })

      attempt : Text → Invocation
      attempt pw = luks_open_call cfg (part1 cfg luks_id) pw

      tried : Text → World S → World S
      tried pw w1 = (exec h (attempt pw) (said Message.unlocking w1)).1

      last : Text → Bool → Step S Text
      last pw b = elim b [
        | true ↦ pure pw
        | false ↦ state Phase.unlock_phase Message.unlock_failed >> unlock_loop h cfg fuel luks_id
      ]

      next : Text → Step S Text
      next pw = state Phase.unlock_phase Message.unlocking >> exec_step h (attempt pw) >>= λ r.
          last pw (opens h cfg r)

      by :
          (pw : Text) (w1 : World S) (b : Bool)
          → IsSafe cfg w1.trace
          → Extends t0 w1.trace
          → Good cfg t0
              (λ _ _. Unit)
              (unlock_loop h cfg fuel luks_id (said Message.unlock_failed w1))
          → Good cfg t0 (λ _ _. Unit) (last pw b w1)
      by pw w1 true s1 e1 g = (s1, e1, tt)
      by pw w1 false s1 e1 g = g

  pub open_volume-Calm : (luks_id : Text) → Calm cfg t0 (open_volume h cfg luks_id)
  unfolding open_volume
  open_volume-Calm luks_id w s e =
      unlock_loop-Good (suc (length w.messages)) luks_id w (omega arith) s e
