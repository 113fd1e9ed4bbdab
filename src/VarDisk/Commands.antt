-- ===== src/VarDisk/Commands.antt =====
-- packages/var-disk-manager/src/bin/daemon.rs: the command lines that the daemon runs, and which of
-- them erase what a device holds.
use foundrix.Base.{
  ℕ, Bool, false, ◌&&◌, ◌||◌, List, [], ◌∷◌, ◌++◌, Option, none, some, if◌then◌else◌, Text, codes,
  text_eq,
}
use foundrix.VarDisk.Classify.{Identity, var_type_guid}

-- `Cfg`
pub record Cfg : Type 0 where
  pub by_id_dir : Text
  pub prefix : Text
  pub id : Identity
  pub min_passphrase_len : ℕ

-- A program with its arguments, and what is written to its standard input.
pub record Invocation : Type 0 where
  pub cmd : Text
  pub args : List Text
  pub stdin : Option Text

abbrev pub call : Text → List Text → Invocation
call cmd args = record { cmd = cmd; args = args; stdin = none }

abbrev pub call_with : Text → List Text → Text → Invocation
call_with cmd args secret = record { cmd = cmd; args = args; stdin = some secret }

unfoldable pub dev : Cfg → Text → Text
dev cfg id = cfg.by_id_dir ++ codes "/" ++ id

unfoldable pub part1 : Cfg → Text → Text
part1 cfg id = cfg.by_id_dir ++ codes "/" ++ id ++ codes "-part1"

unfoldable pub mapper_dev : Cfg → Text
mapper_dev cfg = codes "/dev/mapper/" ++ cfg.id.mapper

abbrev pub new_var_fs : Text
new_var_fs = codes "/new-var-fs"

abbrev pub new_var : Text
new_var = codes "/new-var-fs/var"

unfoldable pub settle_call : Invocation
settle_call = call (codes "udevadm") (codes "settle" ∷ codes "--timeout=30" ∷ [])

unfoldable pub size_call : Text → Invocation
size_call path = call (codes "blockdev") (codes "--getsize64" ∷ path ∷ [])

-- The partition that takes the whole disk, with its type, its PARTUUID and its name.
abbrev pub new_partition : Cfg → Text → List Text
new_partition cfg disk =
    codes "-n"
    ∷ codes "1:0:0"
    ∷ codes "-t"
    ∷ (codes "1:" ++ var_type_guid)
    ∷ codes "-u"
    ∷ (codes "1:" ++ cfg.id.luks_partuuid)
    ∷ codes "-c"
    ∷ codes "1:var"
    ∷ disk
    ∷ []

unfoldable pub move_backup_call : Text → Invocation
move_backup_call disk = call (codes "sgdisk") (codes "-e" ∷ disk ∷ [])

unfoldable pub recreate_call : Cfg → Text → Invocation
recreate_call cfg disk = call (codes "sgdisk") (codes "-d" ∷ codes "1" ∷ new_partition cfg disk)

unfoldable pub zap_call : Text → Invocation
zap_call disk = call (codes "sgdisk") (codes "--zap-all" ∷ disk ∷ [])

unfoldable pub partition_call : Cfg → Text → Invocation
partition_call cfg disk = call (codes "sgdisk") (new_partition cfg disk)

-- `blkid -o value -s TAG`
unfoldable pub blkid_call : Text → Text → Invocation
blkid_call tag path =
    call (codes "blkid") (codes "-o" ∷ codes "value" ∷ codes "-s" ∷ tag ∷ path ∷ [])

unfoldable pub partuuid_call : Text → Invocation
partuuid_call path = call (codes "lsblk") (codes "-rno" ∷ codes "PARTUUID" ∷ path ∷ [])

unfoldable pub luks_format_call : Text → Text → Invocation
luks_format_call part secret =
    call_with (codes "cryptsetup")
      (codes "luksFormat"
        ∷ codes "--type"
        ∷ codes "luks2"
        ∷ codes "--label"
        ∷ codes "var-crypt"
        ∷ codes "--batch-mode"
        ∷ codes "--key-file"
        ∷ codes "-"
        ∷ part
        ∷ [])
      secret

-- The volume is opened with its discard flag made persistent after a format, and without otherwise.
unfoldable pub luks_open_new_call : Cfg → Text → Text → Invocation
luks_open_new_call cfg part secret =
    call_with (codes "cryptsetup")
      (codes "open"
        ∷ codes "--key-file"
        ∷ codes "-"
        ∷ codes "--allow-discards"
        ∷ codes "--persistent"
        ∷ part
        ∷ cfg.id.mapper
        ∷ [])
      secret

unfoldable pub luks_open_call : Cfg → Text → Text → Invocation
luks_open_call cfg part secret =
    call_with (codes "cryptsetup")
      (codes "open"
        ∷ codes "--key-file"
        ∷ codes "-"
        ∷ codes "--allow-discards"
        ∷ part
        ∷ cfg.id.mapper
        ∷ [])
      secret

unfoldable pub luks_resize_call : Cfg → Text → Invocation
luks_resize_call cfg secret =
    call_with (codes "cryptsetup")
      (codes "resize" ∷ codes "--key-file" ∷ codes "-" ∷ cfg.id.mapper ∷ []) secret

unfoldable pub luks_close_call : Cfg → Invocation
luks_close_call cfg = call (codes "cryptsetup") (codes "close" ∷ cfg.id.mapper ∷ [])

unfoldable pub mkfs_call : Cfg → Invocation
unfolding mapper_dev
mkfs_call cfg = call (codes "mkfs.btrfs") (codes "-L" ∷ cfg.id.fs_label ∷ mapper_dev cfg ∷ [])

unfoldable pub mount_call : Text → Text → Invocation
mount_call device target =
    call (codes "mount") (codes "-o" ∷ codes "subvol=/" ∷ device ∷ target ∷ [])

unfoldable pub umount_call : Text → Invocation
umount_call target = call (codes "umount") (target ∷ [])

unfoldable pub fs_resize_call : Text → Invocation
fs_resize_call path =
    call (codes "btrfs") (codes "filesystem" ∷ codes "resize" ∷ codes "max" ∷ path ∷ [])

unfoldable pub fs_usage_call : Text → Invocation
fs_usage_call path =
    call (codes "btrfs") (codes "filesystem" ∷ codes "usage" ∷ codes "-b" ∷ path ∷ [])

unfoldable pub label_call : Text → Text → Invocation
label_call part label =
    call (codes "btrfs") (codes "filesystem" ∷ codes "label" ∷ part ∷ label ∷ [])

-- `btrfs subvolume OPERATION PATH`
unfoldable pub subvolume_call : Text → Text → Invocation
subvolume_call operation path = call (codes "btrfs") (codes "subvolume" ∷ operation ∷ path ∷ [])

unfoldable pub snapshot_call : List Text → Invocation
snapshot_call rest = call (codes "btrfs") (codes "subvolume" ∷ codes "snapshot" ∷ rest)

unfoldable pub sync_call : Invocation
sync_call = call (codes "sync") []

unfoldable pub trigger_call : Text → Invocation
trigger_call part = call (codes "udevadm") (codes "trigger" ∷ codes "--settle" ∷ part ∷ [])

-- Which device a command line erases: a file system, a volume header or a partition table is written
-- over what is there. Each of these commands has its device as its last argument.
abbrev pub first_is : Text → List Text → Bool
first_is word [] = false
first_is word (a ∷ args) = text_eq a word

abbrev pub last_of : List Text → Option Text
last_of [] = none
last_of (a ∷ []) = some a
last_of (a ∷ b ∷ args) = last_of (b ∷ args)

unfoldable pub erases : Invocation → Option Text
unfolding text_eq
erases i =
    if text_eq i.cmd (codes "mkfs.btrfs")
      || text_eq i.cmd (codes "cryptsetup") && first_is (codes "luksFormat") i.args
      || text_eq i.cmd (codes "sgdisk") && first_is (codes "--zap-all") i.args
    then last_of i.args
    else none
