-- ===== src/VarDisk/Safety/Outcomes.antt =====
-- Single steps of the daemon keep the trace safe: an answer of a program, and what it teaches.
use foundrix.Base.{
  ℕ, ==_iff, ◌≡◌, ◌⊎◌, inr, arith, Bool-cases, is_empty, refl, ap, Bool, true, false, inl, List,
  Option, none, some, if◌then◌else◌, subst, Text, trim,
}
use foundrix.VarDisk.Commands.{Cfg, Invocation, erases}
use foundrix.VarDisk.World.{
  arrived, blocks, waits, failed, no_fuel, Step, Reply, not_spawned, lost, ended, Event, ran,
  Failure, pure, fail, Host, Progress,
}
use foundrix.VarDisk.Host.{
  value_of, is_success, exec, exec_step, ok_reply, run_ok, value_reply, stdin_reply,
}
use foundrix.VarDisk.Safety.{
  Happened, Happened-Extends, GaveNothing, IsAllowed, Extends, Extends-cons, Good, Fine, Calm,
  Fine-bind,
}

-- A program whose success is known.
abbrev pub Succeeded : Invocation → Text → List Event → Type 0
Succeeded i out t =
    (errors : Text) × (written : Bool) × Happened (ran i (ended (some 0) out errors written)) t

pub success-eq : (code : Option ℕ) → is_success code ≡ true → code ≡ some 0
success-eq none h = cc
success-eq (some c) h = ap some ((==_iff c 0).0 h)

pub harmless : (cfg : Cfg) (i : Invocation) (t : List Event) → erases i ≡ none → IsAllowed cfg i t
harmless cfg i t h device e = cc

module _ {S : Type 0} (h : Host S) (cfg : Cfg) (t0 : List Event) where
  pub exec_step-Fine :
      (i : Invocation)
      → ((t : List Event) → Extends t0 t → IsAllowed cfg i t)
      → Fine cfg t0 (λ r t. Happened (ran i r) t) (exec_step h i)
  unfolding exec
  exec_step-Fine i allowed w s e =
      ((allowed w.trace e, s), Extends-cons (ran i (h.run i w.host).0) t0 w.trace e, inl refl)

  ok_reply-Fine :
      (i : Invocation) (r : Reply)
      → Happened (ran i r) t0
      → Fine cfg t0 (Succeeded i) (ok_reply h i r)
  unfolding trim
  ok_reply-Fine i not_spawned m w s e = (s, e)
  ok_reply-Fine i lost m w s e = (s, e)
  ok_reply-Fine i (ended code out errors written) m w s e = by (is_success code) refl
    where
      by :
          (b : Bool)
          → is_success code ≡ b
          → Good cfg t0
              (Succeeded i)
              ((if b then (pure out) else (fail (Failure.command_failed i code (trim errors)))) w)
      by true q = (
        s,
        e,
        (
          errors,
          written,
          Happened-Extends _ t0 w.trace e
              (subst (λ c. Happened (ran i (ended c out errors written)) t0) (success-eq code q) m),
        ),
      )
      by false q = (s, e)

module _ {S : Type 0} (h : Host S) (cfg : Cfg) (t0 : List Event) where
  -- A program that had to succeed has run and succeeded.
  pub run_ok-Fine :
      (i : Invocation)
      → ((t : List Event) → Extends t0 t → IsAllowed cfg i t)
      → Fine cfg t0 (Succeeded i) (run_ok h i)
  unfolding run_ok
  run_ok-Fine i allowed =
      Fine-bind cfg t0 (λ r t. Happened (ran i r) t) (Succeeded i) (exec_step h i) (ok_reply h i)
        (exec_step-Fine h cfg t0 i allowed) (λ r t e m. ok_reply-Fine h cfg t i r m)

  pub weaken :
      {A : Type 0} (Q R : A → List Event → Type 0) (m : Step S A)
      → ((a : A) (t : List Event) → Q a t → R a t)
      → Fine cfg t0 Q m
      → Fine cfg t0 R m
  weaken {A} Q R m k f w s e = by (m w) (f w s e)
    where
      by : (p : Progress S A) → Good cfg t0 Q p → Good cfg t0 R p
      by (arrived a w1) (s1, e1, q) = (s1, e1, k a w1.trace q)
      by (blocks w1) g = g
      by (waits w1) g = g
      by (failed x w1) g = g
      by no_fuel g = g

  pub forget :
      {A : Type 0} (Q : A → List Event → Type 0) (m : Step S A) → Fine cfg t0 Q m → Calm cfg t0 m
  forget Q m f = weaken Q (λ _ _. Unit) m (λ a t q. tt) f

  pub run_ok-allowed :
      (i : Invocation)
      → ((t : List Event) → Extends t0 t → IsAllowed cfg i t)
      → Calm cfg t0 (run_ok h i)
  run_ok-allowed i allowed = forget (Succeeded i) (run_ok h i) (run_ok-Fine i allowed)

  pub run_ok-Calm : (i : Invocation) → erases i ≡ none → Calm cfg t0 (run_ok h i)
  run_ok-Calm i q = run_ok-allowed i (λ t e. harmless cfg i t q)

  pub stdin_reply-Fine :
      (i : Invocation) (r : Reply)
      → Happened (ran i r) t0
      → Fine cfg t0
          (λ _ t. (out errors : Text) × Happened (ran i (ended (some 0) out errors true)) t)
          (stdin_reply h i r)
  unfolding trim
  stdin_reply-Fine i not_spawned m w s e = (s, e)
  stdin_reply-Fine i lost m w s e = (s, e)
  stdin_reply-Fine i (ended code out errors written) m w s e = by (is_success code) written refl m
    where
      by :
          (b c : Bool)
          → is_success code ≡ b
          → Happened (ran i (ended code out errors c)) t0
          → Good cfg t0
              (λ _ t. (out errors : Text) × Happened (ran i (ended (some 0) out errors true)) t)
              ((if b
                  then (if c then (pure tt) else (fail (Failure.writing_key i)))
                  else (fail (Failure.command_failed i code (trim errors))))
                w)
      by true true q n = (
        s,
        e,
        (
          out,
          errors,
          Happened-Extends _ t0 w.trace e
              (subst (λ c. Happened (ran i (ended c out errors true)) t0) (success-eq code q) n),
        ),
      )
      by true false q n = (s, e)
      by false c q n = (s, e)

  value_of-none :
      (code : Option ℕ) (v : Text)
      → value_of code v ≡ none
      → (is_success code ≡ false) ⊎ (is_empty v ≡ true)
  value_of-none code v q = elim (Bool-cases (is_success code)) [
    | inr e ↦ inl e
    | inl e ↦ elim (Bool-cases (is_empty v)) [
      | inl e' ↦ inr e'
      | inr e' ↦ absurd (ground (arith, e, e', q))
    ]
  ]

  pub value_reply-Fine :
      (i : Invocation) (r : Reply)
      → Happened (ran i r) t0
      → Fine cfg t0 (λ v t. v ≡ none → GaveNothing i t) (value_reply h i r)
  unfolding trim
  value_reply-Fine i not_spawned m w s e = (s, e)
  value_reply-Fine i lost m w s e = (s, e)
  value_reply-Fine i (ended code out errors written) m w s e = (
    s,
    e,
    λ q. (
      ended code out errors written,
      value_of-none code (trim out) q,
      Happened-Extends _ t0 w.trace e m,
    ),
  )
