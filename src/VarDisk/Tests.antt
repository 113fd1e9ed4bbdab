-- ===== src/VarDisk/Tests.antt =====
-- Runs of packages/var-disk-manager on concrete inputs, and the theorems at such inputs.
use foundrix.Base.{
  ℕ, ◌≡◌, refl, ◌↔◌, Bool, true, false, List, [], ◌∷◌, ◌++◌, Option, none, some, if◌then◌else◌,
  Text, codes, text_eq, contains, exchanged,
}
use foundrix.VarDisk.Classify.{
  DiskClass, legacy, blank, DiskProbe, Plan, plan, plan_lists, plan_single, ids_of,
  split_prefix_glob,
}
use foundrix.VarDisk.Classify.Laws.{Justified, SamePlan, plan-Justified, plan-Reordered}
use foundrix.VarDisk.Classify.Glob.{IsGlob, split_prefix_glob_iff}
use foundrix.VarDisk.Commands.{Cfg, Invocation, settle_call}
use foundrix.VarDisk.World.{
  arrived, Reply, ended, Phase, Message, submit, piece, pumped, Host, World, Progress,
}
use foundrix.VarDisk.Migrate.{copy_with_progress, inspect}
use foundrix.VarDisk.Safety.Room.{SeesRoom, inspect-SeesRoom}
use foundrix.VarDisk.Migrate.Bounds.{EndsWithin, copy_with_progress-EndsWithin}
use foundrix.VarDisk.Run.{Cli, run}
use foundrix.VarDisk.Safety.Running.{IsSafeFrom, run-IsSafe}

abbrev two_disks : List (Text × DiskClass)
two_disks = (codes "old", legacy) ∷ (codes "new", blank) ∷ []

plan-two_disks : plan two_disks ≡ Plan.migrate (codes "old") (codes "new")
unfolding plan plan_lists plan_single ids_of codes
plan-two_disks = refl

plan-Justified_example : Justified two_disks (plan two_disks)
plan-Justified_example = plan-Justified two_disks

plan-Reordered_example :
    SamePlan (plan two_disks) (plan ((codes "new", blank) ∷ (codes "old", legacy) ∷ []))
plan-Reordered_example = plan-Reordered (exchanged (codes "old", legacy) (codes "new", blank) [])

abbrev bare_disk : DiskProbe
bare_disk = record {
  id = codes "new";
  has_part1 = false;
  part_fstype = none;
  part_partuuid = none;
  disk_pttype = none;
  disk_fstype = none;
}

split_prefix_glob_iff_example :
    (split_prefix_glob (codes "/dev/disk*") ≡ some (codes "/dev", codes "disk")) ↔ (
      (codes "/dev/disk*" ≡ (codes "/dev" ++ b'/' ∷ codes "disk") ++ b'*' ∷ [])
      × IsGlob (codes "/dev") (codes "disk"))
split_prefix_glob_iff_example =
    split_prefix_glob_iff (codes "/dev/disk*") (codes "/dev") (codes "disk")

-- A machine with one bare disk, whose partition is there once it has been made.
abbrev answer : Invocation → Bool → Reply × Bool
answer i made =
    if text_eq i.cmd (codes "blkid")
    then (ended (some 2) [] [] true, made)
    else (ended (some 0) [] [] true, if text_eq i.cmd (codes "sgdisk") then true else made)

abbrev bare_machine : Host Bool
bare_machine = record {
  run = answer;
  exists = λ path made. (if contains path (codes "-part1") then made else true, made);
  list_dir = λ dir made. (codes "disk1" ∷ [], made);
  create_dir = λ dir made. (true, made);
  copy = λ made. (pumped (piece 7 true true ∷ piece 0 true true ∷ []) true true, made);
  bind = λ made. (true, made);
}

abbrev started : World Bool
started = record {
  snapshot = record {
    phase = Phase.no_phase;
    message = Message.no_message;
    blocked = false;
    disks = [];
    progress = none;
    prompt = none;
  };
  sent = [];
  messages =
      submit 1 (codes "short")
      ∷ submit 2 (codes "a passphrase")
      ∷ submit 3 (codes "a passphrase")
      ∷ [];
  next_prompt_id = 0;
  trace = [];
  host = false;
}

abbrev options : Cli
options = record {
  volume_glob = codes "/dev/disk/by-id/disk*";
  luks_partuuid = codes "u";
  fs_label = codes "var";
  mapper = codes "var";
  min_passphrase_len = 8;
}

run-IsSafe_example :
    IsSafeFrom options
      (split_prefix_glob options.volume_glob)
      (run bare_machine options (codes "/bin" ∷ []) started)
run-IsSafe_example = run-IsSafe bare_machine options (codes "/bin" ∷ []) started refl

abbrev settings : Cfg
settings = record {
  by_id_dir = codes "/dev/disk/by-id";
  prefix = codes "disk";
  id = record { luks_partuuid = codes "u"; fs_label = codes "var"; mapper = codes "var" };
  min_passphrase_len = 8;
}

copy_with_progress-EndsWithin_example :
    EndsWithin (copy_with_progress bare_machine settings 5 started)
copy_with_progress-EndsWithin_example =
    copy_with_progress-EndsWithin bare_machine settings 5 started (tt, tt)

abbrev has_arrived : Progress Bool (Unit {0}) → Bool
has_arrived (arrived a w) = true
has_arrived p = false

-- The bare disk is provisioned, after a passphrase that is too short.
provisioned : has_arrived (run bare_machine options (codes "/bin" ∷ []) started) ≡ true
unfolding run codes settle_call
provisioned = refl

-- A machine whose old volume uses five bytes, with a large new disk.
abbrev roomy_answer : Invocation → Bool → Reply × Bool
roomy_answer i made =
    if text_eq i.cmd (codes "btrfs")
    then (ended (some 0) (codes "  Used: 5") [] true, made)
    else (ended (some 0) (codes "9000000000") [] true, made)

abbrev roomy_machine : Host Bool
roomy_machine = record bare_machine { run = roomy_answer }

abbrev used_of : Progress Bool ℕ → Option ℕ
used_of (arrived used w) = some used
used_of p = none

inspected :
    used_of (inspect roomy_machine settings (codes "disk1") (codes "disk2") started) ≡ some 5
unfolding inspect codes text_eq
inspected = refl

inspect-SeesRoom_example :
    SeesRoom settings
      (codes "disk2")
      (inspect roomy_machine settings (codes "disk1") (codes "disk2") started)
inspect-SeesRoom_example =
    inspect-SeesRoom roomy_machine settings (codes "disk1") (codes "disk2") started tt
