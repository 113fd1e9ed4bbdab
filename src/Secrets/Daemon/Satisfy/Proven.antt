-- ===== src/Secrets/Daemon/Satisfy/Proven.antt =====
-- The daemon writes a secret only with values that a run of its validator, given them, found valid.
use foundrix.Base.{
  ℕ, zero, suc, ◌≡◌, refl, ap, ◌∙◌, ◌⊎◌, inl, inr, List, Option, none, some, Text, Dict, Result, ok,
  err,
}
use foundrix.Secrets.Spec.{SecretSpec, parse_mode}
use foundrix.Secrets.Stored.{StoredState, absent, complete, incomplete}
use foundrix.Secrets.Verdict.{ValidatorStatus, ValidatorResponse, Verdict, valid, invalid, error}
use foundrix.Secrets.Daemon.Ui.{Reason, Origin}
use foundrix.Secrets.Daemon.Disk.{Disk, Ids, WriteError, write_secret}
use foundrix.Secrets.Daemon.Disk.Replaced.{Stored, written_file, write_secret-Stored}
use foundrix.Secrets.Daemon.Ask.{
  World, Failure, Progress, arrived, parked, failed, no_fuel, keep_public,
}
use foundrix.Secrets.Daemon.Satisfy.{
  show_asking, store, stored, prompt_until_accepted, by_stored_status, satisfy_from, satisfy_read,
  satisfy, read_file, after_read, show_checking,
}
use foundrix.Secrets.Daemon.Satisfy.Decided.{
  Reached, bind-Reached, Quiet, Quiet-refl, ask-Quiet, Proven, Decided,
  validate_until_decided-Decided,
}

module _ (from_str : Text → Result ValidatorResponse Text) (timeout_secs euid egid : ℕ) (pid : Text)
    (spec : SecretSpec) (ids : Ids) where
  -- The stored file is the old one, or one with values that were proven good in the meantime, in
  -- the written form, with the owner and the mode of the spec.
  abbrev pub Kept : World → World → Type 0
  Kept w w' = w'.disk.files spec.path ≡ w.disk.files spec.path

  abbrev pub Replaced : World → World → Type 0
  Replaced w w' =
      (values : List (Text × Text)) × (mode : ℕ) × (parse_mode spec.mode ≡ some mode)
      × Proven from_str timeout_secs euid egid pid spec values w.runs
      × (w'.disk.files spec.path ≡ some (written_file ids mode values))

  Quiet-Kept : (w w' : World) → Quiet w w' → Kept w w'
  Quiet-Kept w w' q = ap (λ (d : Disk). d.files spec.path) q.same_disk

  store-Replaced :
      (values : List (Text × Text)) (w0 w : World)
      → Quiet w0 w
      → Proven from_str timeout_secs euid egid pid spec values w0.runs
      → Reached
          (λ _. Replaced w0)
          (Kept w0)
          (store from_str timeout_secs euid egid pid spec ids values w)
  unfolding store
  store-Replaced values w0 w q p =
      result (write_secret euid egid pid spec ids values w.disk)
        (write_secret-Stored euid egid pid spec ids values w.disk)
    where
      result :
          (r : Result (Unit {0}) WriteError × Disk)
          → Stored spec ids values w.disk r
          → Reached
              (λ _. Replaced w0)
              (Kept w0)
              (stored from_str timeout_secs euid egid pid spec w r)
      result (ok a, d) (mode, m, f) = (values, mode, m, p, f)
      result (err e, d) f = f ∙ Quiet-Kept w0 w q

  -- What an answer's verdict leads to.
  by_verdict :
      (values : List (Text × Text)) (w0 : World) (again : World → Progress (Unit {0})) (v : Verdict)
      (w : World) (s : ValidatorStatus)
      → v.status ≡ s
      → Decided from_str timeout_secs euid egid pid spec values w0 v w
      → ((u : World) → Quiet w0 u → Reached (λ _. Replaced w0) (Kept w0) (again u))
      → Reached
          (λ _. Replaced w0)
          (Kept w0)
          (elim s [
            | valid ↦ store from_str timeout_secs euid egid pid spec ids values w
            | invalid ↦ again w
            | error ↦ failed Failure.unreachable w
          ])
  by_verdict values w0 again v w valid e d ih = store-Replaced values w0 w d.0 (d.1 e)
  by_verdict values w0 again v w invalid e d ih = ih w d.0
  by_verdict values w0 again v w error e d ih = Quiet-Kept w0 w d.0

  again : ℕ → ℕ → List (Text × Text) → Verdict → World → Progress (Unit {0})
  again budget fuel values v u =
      prompt_until_accepted from_str timeout_secs euid egid pid budget fuel spec ids
        (keep_public spec values) (Reason.entered_rejected v.message)
        (show_asking from_str timeout_secs euid egid pid spec (Reason.entered_rejected v.message) u)

  prompt-Replaced :
      (budget fuel : ℕ) (known : Dict Text) (reason : Reason) (w0 w : World)
      → Quiet w0 w
      → Reached
          (λ _. Replaced w0)
          (Kept w0)
          (prompt_until_accepted from_str timeout_secs euid egid pid budget fuel spec ids known
            reason w)
  unfolding prompt_until_accepted again
  prompt-Replaced budget zero known reason w0 w q = tt
  prompt-Replaced budget (suc fuel) known reason w0 w q =
      bind-Reached (λ _. Quiet w0) (λ _. Replaced w0) (Quiet w0) (Kept w0) _ _
        (ask-Quiet budget spec reason known w0 _
          (record { same_disk = q.same_disk; fewer_runs = q.fewer_runs }))
        (λ u. Quiet-Kept w0 u)
        (λ values w1 q1.
          bind-Reached (Decided from_str timeout_secs euid egid pid spec values w0)
            (λ _. Replaced w0) (Quiet w0) (Kept w0) _ _
            (validate_until_decided-Decided from_str timeout_secs euid egid pid budget spec values
              Origin.entered_credentials 0 w0 w1 q1)
            (λ u. Quiet-Kept w0 u)
            (λ v w2 d.
              by_verdict values w0 (again budget fuel values v) v w2 v.status refl d (λ u qu.
                prompt-Replaced budget fuel (keep_public spec values)
                  (Reason.entered_rejected v.message) w0
                  (show_asking from_str timeout_secs euid egid pid spec
                    (Reason.entered_rejected v.message) u)
                  (record { same_disk = qu.same_disk; fewer_runs = qu.fewer_runs }))))

  -- Satisfied without a word from the operator, or by an answer that was proven good.
  abbrev pub Satisfied : World → World → Type 0
  Satisfied w w' = Kept w w' ⊎ Replaced w w'

  weaken :
      (w0 : World) (p : Progress (Unit {0}))
      → Reached (λ _. Replaced w0) (Kept w0) p
      → Reached (λ _. Satisfied w0) (Kept w0) p
  weaken w0 (arrived a w) h = inr h
  weaken w0 (parked w) h = h
  weaken w0 (failed e w) h = h
  weaken w0 no_fuel h = h

  stored_verdict :
      (budget : ℕ) (values : List (Text × Text)) (w0 : World) (v : Verdict) (w : World)
      (s : ValidatorStatus)
      → v.status ≡ s
      → Decided from_str timeout_secs euid egid pid spec values w0 v w
      → Reached
          (λ _. Satisfied w0)
          (Kept w0)
          (by_stored_status from_str timeout_secs euid egid pid budget spec ids values v s w)
  unfolding by_stored_status
  stored_verdict budget values w0 v w valid e d = inl (Quiet-Kept w0 w d.0)
  stored_verdict budget values w0 v w invalid e d = weaken w0 _ (
      prompt-Replaced budget budget _ _ w0 _
        (record { same_disk = d.0.same_disk; fewer_runs = d.0.fewer_runs }))
  stored_verdict budget values w0 v w error e d = Quiet-Kept w0 w d.0

  satisfy_from-Satisfied :
      (budget : ℕ) (s : StoredState) (w0 w : World)
      → Quiet w0 w
      → Reached
          (λ _. Satisfied w0)
          (Kept w0)
          (satisfy_from from_str timeout_secs euid egid pid budget spec ids s w)
  unfolding satisfy_from
  satisfy_from-Satisfied budget absent w0 w q = weaken w0 _ (
      prompt-Replaced budget budget _ _ w0 _
        (record { same_disk = q.same_disk; fewer_runs = q.fewer_runs }))
  satisfy_from-Satisfied budget (incomplete missing usable) w0 w q = weaken w0 _ (
      prompt-Replaced budget budget _ _ w0 _
        (record { same_disk = q.same_disk; fewer_runs = q.fewer_runs }))
  satisfy_from-Satisfied budget (complete values) w0 w q =
      bind-Reached (Decided from_str timeout_secs euid egid pid spec values w0) (λ _. Satisfied w0)
        (Quiet w0) (Kept w0) _ _
        (validate_until_decided-Decided from_str timeout_secs euid egid pid budget spec values
          Origin.stored_credentials 0 w0 w q)
        (λ u. Quiet-Kept w0 u) (λ v w' d. stored_verdict budget values w0 v w' v.status refl d)

  satisfy_read-Satisfied :
      (budget : ℕ) (r : Option (Option Text)) (w0 w : World)
      → Quiet w0 w
      → Reached
          (λ _. Satisfied w0)
          (Kept w0)
          (satisfy_read from_str timeout_secs euid egid pid budget spec ids r w)
  unfolding satisfy_read
  satisfy_read-Satisfied budget none w0 w q = Quiet-Kept w0 w q
  satisfy_read-Satisfied budget (some text) w0 w q = satisfy_from-Satisfied budget _ w0 w q

  -- However the clients answer, the validator behaves and the file system fails: wherever `satisfy`
  -- gets to within its fuel, the stored file is the old one, unless it arrives having written values such
  -- that one of the runs, given the command line of the spec and a request with these very values,
  -- answers that they are valid (or, without a validator, that are all present), in the encoded
  -- form, under the owner, group and mode of the spec.
  pub satisfy-Satisfied :
      (budget : ℕ) (w : World)
      → Reached
          (λ _. Satisfied w)
          (Kept w)
          (satisfy from_str timeout_secs euid egid pid budget spec ids w)
  unfolding satisfy
  satisfy-Satisfied budget w =
      satisfy_read-Satisfied budget (read_file spec.path w.disk) w1 w1 (Quiet-refl w1)
    where
      w1 : World
      w1 = after_read (show_checking from_str timeout_secs euid egid pid spec w)
