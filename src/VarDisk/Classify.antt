-- ===== src/VarDisk/Classify.antt =====
-- packages/var-disk-manager/src/lib.rs: the classification of disks and the plan, as functions of what
-- the probes found, and the readers of the operator's and the tools' answers.
pub mod Disks
pub mod Laws
pub mod Glob
use foundrix.Base.{
  ℕ, ◌^◌, ◌-◌, Bool, true, false, ◌&&◌, ◌||◌, List, [], ◌∷◌, Option, none, some, ltb, ◌==◌,
  if◌then◌else◌, length, any, is_empty, Text, codes, text_eq, trim, trim_start, starts_with,
  strip_prefix, lines, is_whitespace, parse_unsigned, to_ascii_lowercase, eq_ignore_ascii_case,
  strip_last, rsplit_once,
}

pub record Identity : Type 0 where
  pub luks_partuuid : Text
  pub fs_label : Text
  pub mapper : Text

pub data DiskClass : Type 0 where
  luks legacy blank foreign : DiskClass

-- `VAR_TYPE_GUID`
abbrev pub var_type_guid : Text
var_type_guid = codes "4d21b016-b534-45c2-a9fb-5c16e091fd2d"

-- Two words that an answer may be.
abbrev is_one_of : Text → Text → Text → Bool
is_one_of s a b = text_eq s a || text_eq s b

unfoldable pub parse_confirm : Text → Option Bool
unfolding trim text_eq
parse_confirm answer =
    let word = to_ascii_lowercase (trim answer) in
    if is_one_of word (codes "y") (codes "yes")
    then some true
    else if is_one_of word (codes "n") (codes "no")
    then some false
    else none

pub data MapperFs : Type 0 where
  btrfs empty : MapperFs
  other : Text → MapperFs
  unknown : MapperFs

unfoldable pub mapper_fs_from_blkid : Option ℕ → Text → MapperFs
unfolding trim text_eq
mapper_fs_from_blkid none stdout = unknown
mapper_fs_from_blkid (some code) stdout =
    if code == 0
    then if text_eq (trim stdout) (codes "btrfs")
      then btrfs
      else if is_empty (trim stdout)
      then unknown
      else other (trim stdout)
    else if code == 2
    then empty
    else unknown

pub record DiskProbe : Type 0 where
  pub id : Text
  pub has_part1 : Bool
  pub part_fstype : Option Text
  pub part_partuuid : Option Text
  pub disk_pttype : Option Text
  pub disk_fstype : Option Text

-- `as_deref().unwrap_or("")`
abbrev pub or_empty : Option Text → Text
or_empty none = []
or_empty (some s) = s

abbrev pub is_none {ℓ} : {A : Type ℓ} → Option A → Bool
is_none none = true
is_none (some a) = false

unfoldable pub classify : DiskProbe → Text → DiskClass
unfolding text_eq eq_ignore_ascii_case
classify p luks_partuuid =
    if p.has_part1
    then if text_eq (or_empty p.part_fstype) (codes "crypto_LUKS")
        && eq_ignore_ascii_case (or_empty p.part_partuuid) luks_partuuid
      then luks
      else if text_eq (or_empty p.part_fstype) (codes "btrfs")
          && eq_ignore_ascii_case (or_empty p.part_partuuid) var_type_guid
      then legacy
      else foreign
    else if is_none p.disk_pttype && is_none p.disk_fstype
    then blank
    else foreign

-- Why `plan` blocks.
pub data BlockReason : Type 0 where
  multiple : DiskClass → List Text → BlockReason
  still_attached : Text → Text → BlockReason

pub data Plan : Type 0 where
  unlock boot_legacy : Text → Plan
  migrate : Text → Text → Plan
  provision : Text → Plan
  block : BlockReason → Plan
  no_disks : Plan

abbrev pub is_class : DiskClass → DiskClass → Bool
is_class luks luks = true
is_class legacy legacy = true
is_class blank blank = true
is_class foreign foreign = true
is_class _ _ = false

-- The ids of one class, in their order: what the first loop of `plan` collects.
unfoldable pub ids_of : DiskClass → List (Text × DiskClass) → List Text
ids_of k [] = []
ids_of k ((id, c) ∷ disks) = if is_class k c then id ∷ ids_of k disks else ids_of k disks

abbrev pub first : List Text → Option Text
first [] = none
first (id ∷ ids) = some id

-- The match on the first disk of each class.
unfoldable pub plan_single : Option Text → Option Text → Option Text → Plan
plan_single (some l) (some old) new = block (still_attached old l)
plan_single (some l) none new = unlock l
plan_single none (some old) (some new) = migrate old new
plan_single none (some old) none = boot_legacy old
plan_single none none (some new) = provision new
plan_single none none none = no_disks

-- `plan`, from the three lists.
unfoldable pub plan_lists : List Text → List Text → List Text → Plan
unfolding plan_single
plan_lists ls os bs =
    if ltb 1 (length ls)
    then block (multiple luks ls)
    else if ltb 1 (length os)
    then block (multiple legacy os)
    else if ltb 1 (length bs)
    then block (multiple blank bs)
    else plan_single (first ls) (first os) (first bs)

unfoldable pub plan : List (Text × DiskClass) → Plan
unfolding ids_of plan_lists
plan disks = plan_lists (ids_of luks disks) (ids_of legacy disks) (ids_of blank disks)

abbrev pub is_wildcard : ℕ → Bool
is_wildcard c = c == b'*' || c == b'?' || c == b'['

abbrev pub both_nonempty : Option (Text × Text) → Option (Text × Text)
both_nonempty none = none
both_nonempty (some (dir, prefix)) =
    if is_empty dir || is_empty prefix then none else some (dir, prefix)

abbrev pub split_rest : Option Text → Option (Text × Text)
split_rest none = none
split_rest (some rest) =
    if any is_wildcard rest then none else both_nonempty (rsplit_once b'/' rest)

unfoldable pub split_prefix_glob : Text → Option (Text × Text)
unfolding strip_last rsplit_once
split_prefix_glob glob = split_rest (strip_last b'*' glob)

abbrev pub starts_with_space : Text → Bool
starts_with_space [] = false
starts_with_space (c ∷ s) = is_whitespace c

-- A u64.
abbrev pub parse_u64 : Text → Option ℕ
parse_u64 = parse_unsigned 10 (2 ^ 64 - 1)

abbrev pub used_value : Option Text → Option ℕ
used_value none = none
used_value (some v) = parse_u64 (trim v)

-- The closure of `parse_btrfs_used` on one line.
unfoldable pub used_of_line : Text → Option ℕ
unfolding trim_start starts_with strip_prefix trim parse_unsigned is_whitespace
used_of_line line =
    if starts_with (codes "Used:") (trim_start line) && starts_with_space line
    then used_value (strip_prefix (codes "Used:") (trim_start line))
    else none

unfoldable pub find_used : List Text → Option ℕ
unfolding used_of_line
find_used [] = none
find_used (l ∷ ls) = elim (used_of_line l) [ some n ↦ some n | none ↦ find_used ls ]

unfoldable pub parse_btrfs_used : Text → Option ℕ
unfolding lines find_used
parse_btrfs_used output = find_used (lines output)
