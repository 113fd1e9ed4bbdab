-- ===== src/Secrets/Daemon/Disk.antt =====
-- packages/operator-secrets/src/bin/daemon.rs, `write_secret`, over a model of the file system in
-- which any system call can fail. A path names a file; directories are not modelled, but the calls
-- on them can fail. The history holds the files as they are after each call, the last ones first:
-- it is what another process can see. A path that ends in a slash is not modelled.
pub mod Atomic
pub mod Replaced
use foundrix.Base.{
  ℕ, zero, suc, List, [], ◌∷◌, ◌++◌, Option, none, some, if◌then◌else◌, ◌==◌, Text, codes, text_eq,
  Result, ok, err,
}
use foundrix.Secrets.Spec.{SecretSpec, parse_mode}
use foundrix.Secrets.Env.{encode_env_file}

pub record File : Type 0 where
  pub content : Text
  pub uid : ℕ
  pub gid : ℕ
  pub mode : ℕ

abbrev pub Files : Type 0
Files = Text → Option File

-- How a system call goes. A write that fails has written so many characters.
pub data Outcome : Type 0 where
  succeeds : Outcome
  fails : ℕ → Outcome

-- The calls beyond the listed outcomes succeed.
pub record Disk : Type 0 where
  pub files : Files
  pub history : List Files
  pub outcomes : List Outcome

pub data WriteError : Type 0 where
  no_parent create_dir bad_mode create_tmp write_tmp sync_tmp chown_tmp chmod_tmp rename_tmp :
      WriteError

abbrev pub Io : Type 0 → Type 0
Io A = Disk → Result A WriteError × Disk

abbrev pub continue :
    {A B : Type 0} → (A → Io B) → Result A WriteError × Disk → Result B WriteError × Disk
continue f (ok a, d) = f a d
continue f (err e, d) = (err e, d)

infixl 5 ◌>>=◌ ◌>>◌
abbrev pub ◌>>=◌ : {A B : Type 0} → Io A → (A → Io B) → Io B
◌>>=◌ m f d = continue f (m d)

abbrev pub ◌>>◌ : {B : Type 0} → Io (Unit {0}) → Io B → Io B
m >> k = m >>= λ _. k

abbrev pub update : Files → Text → Option File → Files
update files p f q = if text_eq q p then f else files q

abbrev pub next_outcome : List Outcome → Outcome
next_outcome [] = succeeds
next_outcome (o ∷ os) = o

abbrev pub later_outcomes : List Outcome → List Outcome
later_outcomes [] = []
later_outcomes (o ∷ os) = os

-- The disk after a call that leaves these files.
unfoldable pub settle : Files → Disk → Disk
settle files d = record {
  files = files;
  history = files ∷ d.history;
  outcomes = later_outcomes d.outcomes;
}

-- A call by its outcome, with the files that it leaves if it can be done at all.
unfoldable pub perform :
    WriteError
    → (ℕ → Files → Files)
    → Disk
    → Outcome
    → Option Files
    → Result (Unit {0}) WriteError × Disk
unfolding settle
perform e bad d (fails n) after = (err e, settle (bad n d.files) d)
perform e bad d succeeds none = (err e, settle d.files d)
perform e bad d succeeds (some files) = (ok tt, settle files d)

-- A call with its effect if it succeeds and if it fails; a call whose file is missing fails.
unfoldable pub call : WriteError → (Files → Option Files) → (ℕ → Files → Files) → Io (Unit {0})
unfolding perform
call e good bad d = perform e bad d (next_outcome d.outcomes) (good d.files)

abbrev pub no_effect : ℕ → Files → Files
no_effect n files = files

-- An operation on the file at a path, as the file system has it.
abbrev pub at : Text → (File → File) → Files → Option Files
at p change files = elim (files p) [
  | none ↦ none
  | some f ↦ some (update files p (some (change f)))
]

-- `let _ = remove_file(…)`: the result is not looked at.
unfoldable pub removed : Text → Outcome → Files → Files
removed p (fails n) files = files
removed p succeeds files = update files p none

unfoldable pub try_remove : Text → Disk → Disk
unfolding settle removed
try_remove p d = settle (removed p (next_outcome d.outcomes) d.files) d

unfoldable pub try_remove_io : Text → Io (Unit {0})
unfolding try_remove
try_remove_io p d = (ok tt, try_remove p d)

abbrev pub cleanup :
    Text → Result (Unit {0}) WriteError × Disk → Result (Unit {0}) WriteError × Disk
cleanup tmp (ok a, d) = (ok a, d)
cleanup tmp (err e, d) = (err e, try_remove tmp d)

-- `.map_err(cleanup)`: on a failure the temporary file is removed.
unfoldable pub or_cleanup : Text → Io (Unit {0}) → Io (Unit {0})
or_cleanup tmp m d = cleanup tmp (m d)

-- `create_new(true).mode(0o600)`: a file of the daemon's own user, if there is none yet.
unfoldable pub create_new : ℕ → ℕ → Text → Files → Option Files
create_new euid egid p files = elim (files p) [
  | some f ↦ none
  | none ↦
      some (update files p (some (record { content = []; uid = euid; gid = egid; mode = 0o600 })))
]

unfoldable pub take : ℕ → Text → Text
take zero s = []
take (suc n) [] = []
take (suc n) (c ∷ s) = c ∷ take n s

-- A write that fails leaves a part of the text.
unfoldable pub partial_write : Text → Text → ℕ → Files → Files
partial_write p body n files = elim (files p) [
  | none ↦ files
  | some f ↦ update files p (some (record f { content = take n body }))
]

unfoldable pub move : Text → Text → Files → Option Files
move from to files = elim (files from) [
  | none ↦ none
  | some f ↦ some (update (update files from none) to (some f))
]

-- The text before the last slash and the text after it.
unfoldable pub split_path : Text → Option (Text × Text)
split_path [] = none
split_path (c ∷ s) = elim (split_path s) [
  | some (dir, name) ↦ some (c ∷ dir, name)
  | none ↦ if c == b'/' then some ([], s) else none
]

pub record Ids : Type 0 where
  pub uid : ℕ
  pub gid : ℕ

-- The name of the temporary file, in the directory of the file. `..` is no file name.
unfoldable pub tmp_path : Text → Text → Text → Text
tmp_path pid dir name =
    dir
    ++ b'/'
      ∷ (b'.'
          ∷ ((if text_eq name (codes "..") then codes "secret" else name) ++ codes ".tmp." ++ pid))

module _ (euid egid : ℕ) (pid : Text) where
  -- `write_secret` from the creation of the temporary file on.
  unfoldable pub replace_file : Text → Text → Ids → ℕ → Text → Io (Unit {0})
  unfolding call or_cleanup try_remove_io create_new partial_write move
  replace_file path tmp ids mode body = do
    try_remove_io tmp
    call create_tmp (create_new euid egid tmp) no_effect
    call write_tmp (at tmp (λ f. record f { content = body })) (partial_write tmp body)
    call sync_tmp some no_effect
    or_cleanup tmp
        (call chown_tmp (at tmp (λ f. record f { uid = ids.uid; gid = ids.gid })) no_effect)
    or_cleanup tmp (call chmod_tmp (at tmp (λ f. record f { mode = mode })) no_effect)
    or_cleanup tmp (call rename_tmp (move tmp path) no_effect)

  abbrev pub sync_dir : Io (Unit {0})
  sync_dir d = (ok tt, record d { outcomes = later_outcomes d.outcomes })

  unfoldable pub write_with_mode :
      SecretSpec → Ids → List (Text × Text) → Text → Option ℕ → Io (Unit {0})
  unfolding replace_file
  write_with_mode spec ids values tmp none d = (err bad_mode, d)
  write_with_mode spec ids values tmp (some mode) d =
      (replace_file spec.path tmp ids mode (encode_env_file values) >> sync_dir) d

  unfoldable pub write_in :
      SecretSpec → Ids → List (Text × Text) → Option (Text × Text) → Io (Unit {0})
  unfolding write_with_mode call tmp_path
  write_in spec ids values none d = (err no_parent, d)
  write_in spec ids values (some (dir, name)) d =
      (call create_dir some no_effect
          >> write_with_mode spec ids values (tmp_path pid dir name) (parse_mode spec.mode))
        d

  unfoldable pub write_secret : SecretSpec → Ids → List (Text × Text) → Io (Unit {0})
  unfolding write_in split_path
  write_secret spec ids values = write_in spec ids values (split_path spec.path)
