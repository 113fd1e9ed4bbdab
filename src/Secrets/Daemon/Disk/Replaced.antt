-- ===== src/Secrets/Daemon/Disk/Replaced.antt =====
-- `write_secret` as a whole: the stored file is replaced at once or not at all.
use foundrix.Base.{
  ℕ, Result, ◌≤◌, ◌≡◌, ◌≢◌, refl, sym, subst, text_eq_iff, ap, ◌∙◌, inl, inr, false, List, [], ◌∷◌,
  ◌++◌, Option, none, some, arith, All, Option-cases, length, length-append, Text, text_eq,
  text_eq_ne, codes, ok, err, if◌then◌else◌, Bool-cases,
}
use foundrix.Secrets.Spec.{SecretSpec, parse_mode}
use foundrix.Secrets.Env.{encode_env_file}
use foundrix.Secrets.Daemon.Disk.{
  File, Files, Disk, Outcome, WriteError, ◌>>◌, perform, settle, succeeds, fails, next_outcome,
  call, no_effect, split_path, Ids, tmp_path, sync_dir, write_with_mode, write_in, write_secret,
  continue, replace_file,
}
use foundrix.Secrets.Daemon.Disk.Atomic.{
  Post, Triple, Sight, Seen, SafeTmp, Failed, After, continue-Post, quiet-Before,
  replace_file-After,
}

-- The parts of a path spell the path.
split_path-append : (p dir name : Text) → split_path p ≡ some (dir, name) → p ≡ dir ++ b'/' ∷ name
unfolding split_path
split_path-append [] dir name h = cc
split_path-append (c ∷ p) dir name h = elim (Option-cases (split_path p)) [
  | inl e ↦ ground (arith, e)
  | inr ((a, b), e) ↦ ground (arith, e, split_path-append p a b e)
]

abbrev tmp_base : Text → Text
tmp_base name = if text_eq name (codes "..") then codes "secret" else name

length-tmp_base : (name : Text) → length name ≤ length (tmp_base name)
unfolding codes
length-tmp_base name = elim (Bool-cases (text_eq name (codes ".."))) [
  | inl e ↦ rw (e, (text_eq_iff name (codes "..")).0 e) (omega arith)
  | inr e ↦ rw e (omega arith)
]

tmp_path-ne :
    (pid p dir name : Text)
    → split_path p ≡ some (dir, name)
    → text_eq p (tmp_path pid dir name) ≡ false
unfolding tmp_path
tmp_path-ne pid p dir name h = text_eq_ne _ _ longer
  where
    longer : p ≢ tmp_path pid dir name
    longer e = omega (
      arith,
      ap length (sym (split_path-append p dir name h) ∙ e),
      length-append dir (b'/' ∷ name),
      length-append dir (b'/' ∷ b'.' ∷ (tmp_base name ++ codes ".tmp." ++ pid)),
      length-append (tmp_base name ++ codes ".tmp.") pid,
      length-append (tmp_base name) (codes ".tmp."),
      length-tmp_base name,
    )

-- The file that `write_secret` writes.
abbrev pub written_file : Ids → ℕ → List (Text × Text) → File
written_file ids mode values = record {
  content = encode_env_file values;
  uid = ids.uid;
  gid = ids.gid;
  mode = mode;
}

module _ (euid egid : ℕ) (pid : Text) (spec : SecretSpec) (ids : Ids) (values : List (Text × Text))
    (tmp : Text) (apart : text_eq spec.path tmp ≡ false) (mode : ℕ) (old found : Option File)
    (start : List Files) where
  abbrev new_file : File
  new_file = written_file ids mode values

  abbrev Done : Disk → Type 0
  Done = After spec.path tmp apart old new_file start found

  abbrev Kept : Disk → Type 0
  Kept = Failed spec.path tmp apart old new_file start found

  write_with_mode-After :
      Triple Kept (write_with_mode euid egid pid spec ids values tmp (some mode)) (λ _. Done) Kept
  unfolding write_with_mode
  write_with_mode-After d b =
      continue-Post (λ _. Done) (λ _. Done) Kept (λ _. sync_dir euid egid pid)
        (replace_file euid egid pid spec.path tmp ids mode (encode_env_file values) d)
        (replace_file-After spec.path tmp apart old new_file start euid egid pid found d b)
        (λ _ d' a. record { seen = a.seen; replaced = a.replaced })

  write_all-After :
      Triple Kept
        (call WriteError.create_dir some no_effect
          >> write_with_mode euid egid pid spec ids values tmp (some mode))
        (λ _. Done)
        Kept
  write_all-After d b =
      continue-Post (λ _. Kept) (λ _. Done) Kept
        (λ _. write_with_mode euid egid pid spec ids values tmp (some mode))
        (call WriteError.create_dir some no_effect d)
        (quiet-Before spec.path tmp apart old new_file start found (SafeTmp new_file found)
          (λ t h. h) WriteError.create_dir d b)
        (λ _. write_with_mode-After)

  read_off :
      (r : Result (Unit {0}) WriteError × Disk)
      → Post (λ _. Done) Kept r
      → Post
          (λ _ d'.
            Seen spec.path tmp apart old new_file start found d'.history
            × (d'.files spec.path ≡ some new_file))
          (λ d'.
            Seen spec.path tmp apart old new_file start found d'.history
            × (d'.files spec.path ≡ old))
          r
  read_off (ok a, d) h = (h.seen, h.replaced)
  read_off (err e, d) h = (h.seen, h.kept)

-- Whatever calls fail, and after each of them: the path has the old file or the finished new one,
-- with its content, owner, group and mode, and the temporary file is the one found there, none,
-- one of mode 0600 or the finished one. If the result is a success the new file is in place, and
-- if it is an error the old one is.
pub write_secret-Sight :
    (euid egid : ℕ) (pid : Text) (spec : SecretSpec) (ids : Ids) (values : List (Text × Text))
    (d : Disk) (dir name : Text) (mode : ℕ)
    → split_path spec.path ≡ some (dir, name)
    → parse_mode spec.mode ≡ some mode
    → let new = written_file ids mode values in
      let tmp = tmp_path pid dir name in
      let old = d.files spec.path in
      let seen = λ (history : List Files).
        (recent : List Files) × (history ≡ recent ++ d.history)
        × All (Sight spec.path tmp old new (d.files tmp)) recent in
      Post
        (λ _ d'. seen d'.history × (d'.files spec.path ≡ some new))
        (λ d'. seen d'.history × (d'.files spec.path ≡ old))
        (write_secret euid egid pid spec ids values d)
unfolding write_secret
write_secret-Sight euid egid pid spec ids values d dir name mode parts octal =
    rw (parts, write_in, octal)
      (read_off euid egid pid spec ids values tmp apart mode (d.files spec.path) (d.files tmp)
        d.history _
        (write_all-After euid egid pid spec ids values tmp apart mode (d.files spec.path)
          (d.files tmp) d.history d start))
  where
    tmp : Text
    tmp = tmp_path pid dir name

    apart : text_eq spec.path tmp ≡ false
    apart = tmp_path-ne pid spec.path dir name parts

    start :
        Failed spec.path tmp apart
          (d.files spec.path)
          (written_file ids mode values)
          d.history
          (d.files tmp)
          d
    start = record { seen = ([], refl, tt); kept = refl; temporary = inl refl }

call_quiet-files :
    (e : WriteError) (d : Disk) (o : Outcome)
    → Post
        (λ _ d'. d'.files ≡ d.files)
        (λ d'. d'.files ≡ d.files)
        (perform e no_effect d o (some d.files))
unfolding perform settle
call_quiet-files e d (fails n) = refl
call_quiet-files e d succeeds = refl

-- The result of `write_secret` and the stored file, for any spec: after a success the mode of the
-- spec was octal and the new file is there, and after an error the old one.
abbrev pub Stored :
    SecretSpec → Ids → List (Text × Text) → Disk → Result (Unit {0}) WriteError × Disk → Type 0
Stored spec ids values d =
    Post
      (λ _ d'.
        (mode : ℕ) × (parse_mode spec.mode ≡ some mode)
        × (d'.files spec.path ≡ some (written_file ids mode values)))
      (λ d'. d'.files spec.path ≡ d.files spec.path)

module _ (euid egid : ℕ) (pid : Text) (spec : SecretSpec) (ids : Ids) (values : List (Text × Text))
    (d : Disk) where
  refused :
      (tmp : Text) (r : Result (Unit {0}) WriteError × Disk)
      → Post (λ _ d'. d'.files ≡ d.files) (λ d'. d'.files ≡ d.files) r
      → Stored spec ids values d
          (continue (λ _. write_with_mode euid egid pid spec ids values tmp none) r)
  refused tmp (ok a, d') h = unfold write_with_mode in ap (λ (f : Files). f spec.path) h
  refused tmp (err e, d') h = ap (λ (f : Files). f spec.path) h

  accepted :
      (mode : ℕ) (S T : Disk → Type 0) (r : Result (Unit {0}) WriteError × Disk)
      → parse_mode spec.mode ≡ some mode
      → Post
          (λ _ d'. S d' × (d'.files spec.path ≡ some (written_file ids mode values)))
          (λ d'. T d' × (d'.files spec.path ≡ d.files spec.path))
          r
      → Stored spec ids values d r
  accepted mode S T (ok a, d') m h = (mode, m, h.1)
  accepted mode S T (err e, d') m h = h.1

  pub write_secret-Stored : Stored spec ids values d (write_secret euid egid pid spec ids values d)
  unfolding write_secret
  write_secret-Stored = elim (Option-cases (split_path spec.path)) [
    | inl e ↦ rw (e, write_in, Post) refl
    | inr ((dir, name), e) ↦ elim (Option-cases (parse_mode spec.mode)) [
      | inl m ↦
          rw (e, write_in)
            (subst
              (λ o. Stored spec ids values d (
                (call WriteError.create_dir some no_effect
                    >> write_with_mode euid egid pid spec ids values (tmp_path pid dir name) o)
                  d))
              (sym m)
              (refused (tmp_path pid dir name) _ (
                unfold call in call_quiet-files WriteError.create_dir d (next_outcome d.outcomes))))
      | inr (mode, m) ↦
          accepted mode _ _ _ m
            (write_secret-Sight euid egid pid spec ids values d dir name mode e m)
    ]
  ]
