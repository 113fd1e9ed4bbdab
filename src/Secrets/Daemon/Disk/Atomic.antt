-- ===== src/Secrets/Daemon/Disk/Atomic.antt =====
-- What another process can see while `write_secret` runs.
use foundrix.Base.{
  ℕ, ◌≡◌, refl, ap, subst, ◌∙◌, some-inj, ◌⊎◌, inl, inr, false, List, [], ◌∷◌, ◌++◌, Option, none,
  some, arith, All, Option-cases, Text, text_eq, text_eq_iff, text_eq_refl, Result, ok, err,
}
use foundrix.Secrets.Daemon.Disk.{
  File, Files, Outcome, succeeds, fails, Disk, WriteError, Io, ◌>>◌, continue, update, next_outcome,
  settle, perform, removed, call, no_effect, at, try_remove, try_remove_io, cleanup, or_cleanup,
  create_new, partial_write, move, take, replace_file,
}

-- A condition on the disk after a call, by its result.
abbrev pub Post :
    {A : Type 0} → (A → Disk → Type 0) → (Disk → Type 0) → Result A WriteError × Disk → Type 0
Post Q E (ok a, d) = Q a d
Post Q E (err e, d) = E d

abbrev pub Triple :
    {A : Type 0} → (Disk → Type 0) → Io A → (A → Disk → Type 0) → (Disk → Type 0) → Type 0
Triple P m Q E = (d : Disk) → P d → Post Q E (m d)

pub continue-Post :
    {A B : Type 0} (Q : A → Disk → Type 0) (R : B → Disk → Type 0) (E : Disk → Type 0)
    (f : A → Io B) (r : Result A WriteError × Disk)
    → Post Q E r
    → ((a : A) → Triple (Q a) (f a) R E)
    → Post R E (continue f r)
continue-Post Q R E f (ok a, d) h k = k a d h
continue-Post Q R E f (err e, d) h k = h

cleanup-Post :
    (Q : Unit {0} → Disk → Type 0) (E : Disk → Type 0) (tmp : Text)
    (r : Result (Unit {0}) WriteError × Disk)
    → Post Q E r
    → ((d : Disk) → E d → E (try_remove tmp d))
    → Post Q E (cleanup tmp r)
cleanup-Post Q E tmp (ok a, d) h k = h
cleanup-Post Q E tmp (err e, d) h k = k d h

-- The temporary file is the one found there, none, still private, or the finished one.
abbrev pub SafeTmp : File → Option File → Option File → Type 0
SafeTmp new found t =
    (t ≡ found) ⊎ (t ≡ none) ⊎ ((f : File) × (t ≡ some f) × (f.mode ≡ 0o600)) ⊎ (t ≡ some new)

-- What may be seen at any time: the old file or the finished one, and no open temporary file.
abbrev pub Sight : Text → Text → Option File → File → Option File → Files → Type 0
Sight path tmp old new found files =
    ((files path ≡ old) ⊎ (files path ≡ some new)) × SafeTmp new found (files tmp)

module _ (path tmp : Text) (apart : text_eq path tmp ≡ false) (old : Option File) (new : File)
    (start : List Files) where
  apart_sym : text_eq tmp path ≡ false
  apart_sym = ground (arith, text_eq_iff path tmp, text_eq_iff tmp path)

  -- What was seen since the start.
  abbrev pub Seen : Option File → List Files → Type 0
  Seen found history =
      (recent : List Files) × (history ≡ recent ++ start)
      × All (Sight path tmp old new found) recent

  -- The old file is in place, and the temporary file is as `T` says.
  pub record Before (found : Option File) (T : Option File → Type 0) (d : Disk) : Type 0 where
    pub seen : Seen found d.history
    pub kept : d.files path ≡ old
    pub temporary : T (d.files tmp)

  pub record After (found : Option File) (d : Disk) : Type 0 where
    pub seen : Seen found d.history
    pub replaced : d.files path ≡ some new

  abbrev pub Failed : Option File → Disk → Type 0
  Failed found = Before found (SafeTmp new found)

  settle-Before :
      (found : Option File) (T : Option File → Type 0) (files : Files) (d : Disk)
      → ((t : Option File) → T t → SafeTmp new found t)
      → Seen found d.history
      → files path ≡ old
      → T (files tmp)
      → Before found T (settle files d)
  unfolding settle
  settle-Before found T files d safe seen kept t = record {
    seen = (files ∷ seen.0, ap (◌∷◌ files) seen.1, ((inl kept, safe (files tmp) t), seen.2));
    kept = kept;
    temporary = t;
  }

  -- The rule for one call before the rename.
  module _ (found : Option File) (T U : Option File → Type 0)
      (safe : (t : Option File) → T t → SafeTmp new found t)
      (safe' : (t : Option File) → U t → SafeTmp new found t) (e : WriteError)
      (good : Files → Option Files) (bad : ℕ → Files → Files)
      (works : (files next : Files)
        → files path ≡ old
        → T (files tmp)
        → good files ≡ some next
        → (next path ≡ old) × U (next tmp))
      (breaks : (n : ℕ) (files : Files)
        → files path ≡ old
        → T (files tmp)
        → (bad n files path ≡ old) × SafeTmp new found (bad n files tmp)) where
    perform-Before :
        (d : Disk) (o : Outcome) (after : Option Files)
        → good d.files ≡ after
        → Before found T d
        → Post (λ _. Before found U) (Failed found) (perform e bad d o after)
    unfolding perform
    perform-Before d (fails n) after q b =
        let (kept, t) = breaks n d.files b.kept b.temporary in
        settle-Before found (SafeTmp new found) (bad n d.files) d (λ t h. h) b.seen kept t
    perform-Before d succeeds none q b =
        settle-Before found (SafeTmp new found) d.files d (λ t h. h) b.seen b.kept
          (safe (d.files tmp) b.temporary)
    perform-Before d succeeds (some files) q b =
        let (kept, t) = works d.files files b.kept b.temporary q in
        settle-Before found U files d safe' b.seen kept t

    call-Before : Triple (Before found T) (call e good bad) (λ _. Before found U) (Failed found)
    unfolding call
    call-Before d b = perform-Before d (next_outcome d.outcomes) (good d.files) refl b

  -- A call without an effect on the files.
  pub quiet-Before :
      (found : Option File) (T : Option File → Type 0)
      → ((t : Option File) → T t → SafeTmp new found t)
      → (e : WriteError)
      → Triple (Before found T) (call e some no_effect) (λ _. Before found T) (Failed found)
  quiet-Before found T safe e =
      call-Before found T T safe safe e some no_effect
        (λ files next k t q. subst (λ x. (x path ≡ old) × T (x tmp)) (some-inj q) (k, t))
        (λ n files k t. (k, safe (files tmp) t))

  removed-Sight :
      (found : Option File) (o : Outcome) (files : Files)
      → files path ≡ old
      → SafeTmp new found (files tmp)
      → (removed tmp o files path ≡ old) × SafeTmp new found (removed tmp o files tmp)
  unfolding removed
  removed-Sight found (fails n) files k t = (k, t)
  removed-Sight found succeeds files k t = (rw apart k, rw (text_eq_refl tmp) (inr (inl refl)))

  try_remove-Failed :
      (found : Option File) (d : Disk) → Failed found d → Failed found (try_remove tmp d)
  unfolding try_remove
  try_remove-Failed found d b =
      let (k, t) = removed-Sight found (next_outcome d.outcomes) d.files b.kept b.temporary in
      settle-Before found (SafeTmp new found) _ d (λ t h. h) b.seen k t

  -- There is a temporary file, and it is as `P` says.
  abbrev Holding : (File → Type 0) → Option File → Type 0
  Holding P t = (f : File) × (t ≡ some f) × P f

  -- The rule for a change of the temporary file.
  at-Before :
      (found : Option File) (P Q : File → Type 0)
      → ((t : Option File) → Holding P t → SafeTmp new found t)
      → ((t : Option File) → Holding Q t → SafeTmp new found t)
      → (e : WriteError) (change : File → File) (bad : ℕ → Files → Files)
      → ((f : File) → P f → Q (change f))
      → ((n : ℕ) (files : Files)
          → files path ≡ old
          → Holding P (files tmp)
          → (bad n files path ≡ old) × SafeTmp new found (bad n files tmp))
      → Triple
          (Before found (Holding P))
          (call e (at tmp change) bad)
          (λ _. Before found (Holding Q))
          (Failed found)
  at-Before found P Q safe safe' e change bad step breaks =
      call-Before found (Holding P) (Holding Q) safe safe' e (at tmp change) bad works breaks
    where
      works :
          (files next : Files)
          → files path ≡ old
          → Holding P (files tmp)
          → at tmp change files ≡ some next
          → (next path ≡ old) × Holding Q (next tmp)
      works files next k (f, t, p) q =
          subst (λ x. (x path ≡ old) × Holding Q (x tmp)) (some-inj (rw (t, at) at q))
            (rw apart k, (change f, rw (text_eq_refl tmp), step f p))

  -- The stages of the temporary file.
  abbrev Private : File → Type 0
  Private f = f.mode ≡ 0o600

  abbrev Written : File → Type 0
  Written f = (f.mode ≡ 0o600) × (f.content ≡ new.content)

  abbrev Owned : File → Type 0
  Owned f = (f.mode ≡ 0o600) × (f.content ≡ new.content) × (f.uid ≡ new.uid) × (f.gid ≡ new.gid)

  abbrev Finished : File → Type 0
  Finished f = f ≡ new

  safe-Private : (found t : Option File) → Holding Private t → SafeTmp new found t
  safe-Private found t (f, q, h) = inr (inr (inl (f, q, h)))

  safe-Finished : (found t : Option File) → Holding Finished t → SafeTmp new found t
  safe-Finished found t (f, q, h) = inr (inr (inr (q ∙ ap some h)))

  write-breaks :
      (found : Option File) (body : Text) (n : ℕ) (files : Files)
      → files path ≡ old
      → Holding Private (files tmp)
      → (partial_write tmp body n files path ≡ old)
        × SafeTmp new found (partial_write tmp body n files tmp)
  unfolding partial_write
  write-breaks found body n files k (f, q, h) =
      rw (q, partial_write)
        (rw apart k, inr (inr (inl (record f { content = take n body }, rw (text_eq_refl tmp), h))))

  create-works :
      (euid egid : ℕ) (files next : Files)
      → files path ≡ old
      → create_new euid egid tmp files ≡ some next
      → (next path ≡ old) × Holding Private (next tmp)
  unfolding create_new
  create-works euid egid files next k q = elim (Option-cases (files tmp)) [
    | inr (f, e) ↦ cc (rw (e, create_new) at q)
    | inl e ↦
        subst (λ x. (x path ≡ old) × Holding Private (x tmp)) (some-inj (rw (e, create_new) at q))
          (rw apart k, (fresh, rw (text_eq_refl tmp), refl))
  ]
    where
      fresh : File
      fresh = record { content = []; uid = euid; gid = egid; mode = 0o600 }

  -- The rename puts the finished file in place.
  rename-After :
      (found : Option File)
      → Triple
          (Before found (Holding Finished))
          (call WriteError.rename_tmp (move tmp path) no_effect)
          (λ _. After found)
          (Failed found)
  unfolding call
  rename-After found d b = go (next_outcome d.outcomes)
    where
      moved : Files
      moved = update (update d.files tmp none) path (some new)

      done : move tmp path d.files ≡ some moved
      done =
          let (f, q, same) = b.temporary in
          let e : d.files tmp ≡ some new = q ∙ ap some same in unfold move in rw (e, move)

      go :
          (o : Outcome)
          → Post
              (λ _. After found)
              (Failed found)
              (perform WriteError.rename_tmp no_effect d o (move tmp path d.files))
      go (fails n) =
          unfold perform in
          settle-Before found (SafeTmp new found) d.files d (λ t h. h) b.seen b.kept
            (safe-Finished found (d.files tmp) b.temporary)
      go succeeds = rw done (
          unfold perform settle in
          record {
            seen = (
              moved ∷ b.seen.0,
              ap (◌∷◌ moved) b.seen.1,
              (
                (inr (rw (text_eq_refl path)), inr (inl (rw (apart_sym, text_eq_refl tmp)))),
                b.seen.2,
              ),
            );
            replaced = rw (text_eq_refl path);
          })

  -- From any outcomes of the calls: the finished file if all succeed, and the old one if not.
  module _ (euid egid : ℕ) (pid : Text) (found : Option File) where
    safe-Written : (t : Option File) → Holding Written t → SafeTmp new found t
    safe-Written t (f, q, h) = safe-Private found t (f, q, h.0)

    safe-Owned : (t : Option File) → Holding Owned t → SafeTmp new found t
    safe-Owned t (f, q, h) = safe-Private found t (f, q, h.0)

    unchanged :
        (P : File → Type 0)
        → ((t : Option File) → Holding P t → SafeTmp new found t)
        → (n : ℕ) (files : Files) → files path ≡ old
        → Holding P (files tmp)
        → (files path ≡ old) × SafeTmp new found (files tmp)
    unchanged P safe n files k t = (k, safe (files tmp) t)

    -- From the written temporary file on.
    change_owner : Io (Unit {0})
    change_owner = do
      or_cleanup tmp (
          call WriteError.chown_tmp (at tmp (λ f. record f { uid = new.uid; gid = new.gid }))
            no_effect)
      or_cleanup tmp
          (call WriteError.chmod_tmp (at tmp (λ f. record f { mode = new.mode })) no_effect)
      or_cleanup tmp (call WriteError.rename_tmp (move tmp path) no_effect)

    rename-step :
        Triple
          (Before found (Holding Finished))
          (or_cleanup tmp (call WriteError.rename_tmp (move tmp path) no_effect))
          (λ _. After found)
          (Failed found)
    unfolding or_cleanup
    rename-step d b =
        cleanup-Post (λ _. After found) (Failed found) tmp _ (rename-After found d b)
          (try_remove-Failed found)

    chmod-step :
        Triple
          (Before found (Holding Owned))
          (or_cleanup tmp
            (call WriteError.chmod_tmp (at tmp (λ f. record f { mode = new.mode })) no_effect))
          (λ _. Before found (Holding Finished))
          (Failed found)
    unfolding or_cleanup
    chmod-step d b =
        cleanup-Post (λ _. Before found (Holding Finished)) (Failed found) tmp _
          (at-Before found Owned Finished safe-Owned (safe-Finished found) _ _ _ finish
            (unchanged Owned safe-Owned) d b)
          (try_remove-Failed found)
      where
        finish : (f : File) → Owned f → record f { mode = new.mode } ≡ new
        finish f (_, c, u, g) = λ i. record { content = c i; uid = u i; gid = g i; mode = new.mode }

    chown-step :
        Triple
          (Before found (Holding Written))
          (or_cleanup tmp (
            call WriteError.chown_tmp
              (at tmp (λ f. record f { uid = new.uid; gid = new.gid }))
              no_effect))
          (λ _. Before found (Holding Owned))
          (Failed found)
    unfolding or_cleanup
    chown-step d b =
        cleanup-Post (λ _. Before found (Holding Owned)) (Failed found) tmp _
          (at-Before found Written Owned safe-Written safe-Owned _ _ _
            (λ f h. (h.0, h.1, refl, refl)) (unchanged Written safe-Written) d b)
          (try_remove-Failed found)

    change_owner-After :
        Triple (Before found (Holding Written)) change_owner (λ _. After found) (Failed found)
    unfolding change_owner
    change_owner-After d b =
        continue-Post (λ _. Before found (Holding Owned)) (λ _. After found) (Failed found) _ _
          (chown-step d b)
          λ _ d1 b1.
            continue-Post (λ _. Before found (Holding Finished)) (λ _. After found) (Failed found) _
              _ (chmod-step d1 b1) λ _ d2 b2. rename-step d2 b2

    -- From the new, empty temporary file on.
    write_body : Io (Unit {0})
    write_body = do
      call WriteError.write_tmp (at tmp (λ f. record f { content = new.content }))
          (partial_write tmp new.content)
      call WriteError.sync_tmp some no_effect
      change_owner

    sync-step :
        Triple
          (Before found (Holding Written))
          (call WriteError.sync_tmp some no_effect >> change_owner)
          (λ _. After found)
          (Failed found)
    sync-step d b =
        continue-Post (λ _. Before found (Holding Written)) (λ _. After found) (Failed found)
          (λ _. change_owner) (call WriteError.sync_tmp some no_effect d)
          (quiet-Before found (Holding Written) safe-Written WriteError.sync_tmp d b)
          (λ _. change_owner-After)

    write_body-After :
        Triple (Before found (Holding Private)) write_body (λ _. After found) (Failed found)
    unfolding write_body
    write_body-After d b =
        continue-Post (λ _. Before found (Holding Written)) (λ _. After found) (Failed found) _ _
          (at-Before found Private Written (safe-Private found) safe-Written WriteError.write_tmp
            (λ f. record f { content = new.content }) (partial_write tmp new.content)
            (λ f h. (h, refl)) (write-breaks found new.content) d b)
          (λ _. sync-step)

    pub replace_file-After :
        Triple
          (Failed found)
          (replace_file euid egid pid path tmp
            (record { uid = new.uid; gid = new.gid })
            new.mode
            new.content)
          (λ _. After found)
          (Failed found)
    unfolding replace_file try_remove_io change_owner write_body
    replace_file-After d b =
        continue-Post (λ _. Before found (Holding Private)) (λ _. After found) (Failed found) _ _
          (call-Before found (SafeTmp new found) (Holding Private) (λ t h. h) (safe-Private found)
            WriteError.create_tmp (create_new euid egid tmp) no_effect
            (λ files next k t q. create-works euid egid files next k q) (λ n files k t. (k, t))
            (try_remove tmp d) (try_remove-Failed found d b))
          (λ _. write_body-After)
