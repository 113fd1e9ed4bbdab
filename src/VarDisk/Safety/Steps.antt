-- ===== src/VarDisk/Safety/Steps.antt =====
-- Single steps of the daemon keep the trace safe: the programs that it runs, and the looks at paths.
use foundrix.Base.{
  ◌≡◌, refl, Bool, true, false, inl, List, none, some, if◌then◌else◌, Text, codes, text_eq,
}
use foundrix.VarDisk.Commands.{Cfg, Invocation, erases, settle_call}
use foundrix.VarDisk.World.{
  arrived, failed, ended, Event, ran, looked, Failure, Phase, Message, Reason, pure, fail, Host,
}
use foundrix.VarDisk.Host.{
  mutate, state, block_forever, exec, exec_step, value_reply, probe_value, stdin_reply,
  run_with_stdin, settle, exists, create_dir_all,
}
use foundrix.VarDisk.Safety.{
  Happened, GaveNothing, IsAllowed, Extends, Extends-cons, Good, Fine, Calm, Fine-bind,
}
use foundrix.VarDisk.Safety.Outcomes.{
  harmless, exec_step-Fine, forget, stdin_reply-Fine, value_reply-Fine,
}

module _ {S : Type 0} (h : Host S) (cfg : Cfg) (t0 : List Event) where
  -- A program that took a secret has run, taken it and succeeded.
  pub run_with_stdin-Fine :
      (i : Invocation)
      → ((t : List Event) → Extends t0 t → IsAllowed cfg i t)
      → Fine cfg t0
          (λ _ t. (out errors : Text) × Happened (ran i (ended (some 0) out errors true)) t)
          (run_with_stdin h i)
  unfolding run_with_stdin
  run_with_stdin-Fine i allowed =
      Fine-bind cfg t0 (λ r t. Happened (ran i r) t) _ (exec_step h i) (stdin_reply h i)
        (exec_step-Fine h cfg t0 i allowed) (λ r t e m. stdin_reply-Fine h cfg t i r m)

  pub run_with_stdin-Calm : (i : Invocation) → erases i ≡ none → Calm cfg t0 (run_with_stdin h i)
  run_with_stdin-Calm i q =
      forget h cfg t0 _ (run_with_stdin h i) (run_with_stdin-Fine i (λ t e. harmless cfg i t q))

  -- A probe without a value has found nothing.
  pub probe_value-Fine :
      (i : Invocation)
      → erases i ≡ none
      → Fine cfg t0 (λ v t. v ≡ none → GaveNothing i t) (probe_value h i)
  unfolding probe_value
  probe_value-Fine i q =
      Fine-bind cfg t0 (λ r t. Happened (ran i r) t) _ (exec_step h i) (value_reply h i)
        (exec_step-Fine h cfg t0 i (λ t e. harmless cfg i t q))
        (λ r t e m. value_reply-Fine h cfg t i r m)

  pub exec_step-Calm : (i : Invocation) → erases i ≡ none → Calm cfg t0 (exec_step h i)
  exec_step-Calm i q =
      forget h cfg t0 (λ r t. Happened (ran i r) t) (exec_step h i)
        (exec_step-Fine h cfg t0 i (λ t e. harmless cfg i t q))

  pub settle-Calm : Calm cfg t0 (settle h)
  unfolding settle exec erases settle_call codes text_eq
  settle-Calm w s e = ((harmless cfg settle_call w.trace refl, s), Extends-cons _ t0 w.trace e, tt)

  pub exists-Fine : (path : Text) → Fine cfg t0 (λ b t. Happened (looked path b) t) (exists h path)
  unfolding exists
  exists-Fine path w s e = (s, Extends-cons _ t0 w.trace e, inl refl)

  pub exists-Calm : (path : Text) → Calm cfg t0 (exists h path)
  exists-Calm path =
      forget h cfg t0 (λ b t. Happened (looked path b) t) (exists h path) (exists-Fine path)

  pub create_dir_all-Calm : (path : Text) → Calm cfg t0 (create_dir_all h path)
  unfolding create_dir_all
  create_dir_all-Calm path w s e = by (h.create_dir path w.host).0
    where
      by :
          (b : Bool)
          → Good cfg t0
              (λ _ _. Unit)
              (if b
                then arrived tt (record w { host = (h.create_dir path w.host).1 })
                else failed
                    (Failure.io_error path)
                    (record w { host = (h.create_dir path w.host).1 }))
      by true = (s, e, tt)
      by false = (s, e)

module _ {S : Type 0} (cfg : Cfg) (t0 : List Event) where
  pub state-Calm : (phase : Phase) (message : Message) → Calm cfg t0 (state {S = S} phase message)
  unfolding state mutate
  state-Calm p m w s e = (s, e, tt)

  -- Nothing is learned where a block lasts.
  pub block_forever-Fine :
      (A : Type 0) (Q : A → List Event → Type 0) (reason : Reason)
      → Fine cfg t0 Q (block_forever {S = S} {A = A} reason)
  unfolding block_forever mutate
  block_forever-Fine A Q reason w s e = (s, e)

  pub block_forever-Calm :
      (A : Type 0) (reason : Reason) → Calm cfg t0 (block_forever {S = S} {A = A} reason)
  block_forever-Calm A reason = block_forever-Fine A (λ _ _. Unit) reason

  pub done : Calm cfg t0 (pure {S = S} {A = Unit {0}} tt)
  done w s e = (s, e, tt)

  pub pure-Fine :
      {A : Type 0} (Q : A → List Event → Type 0) (a : A)
      → ((t : List Event) → Extends t0 t → Q a t)
      → Fine {S = S} cfg t0 Q (pure a)
  pure-Fine Q a q w s e = (s, e, q w.trace e)

  pub fail-Fine :
      (A : Type 0) (Q : A → List Event → Type 0) (x : Failure) → Fine {S = S} cfg t0 Q (fail x)
  fail-Fine A Q x w s e = (s, e)
