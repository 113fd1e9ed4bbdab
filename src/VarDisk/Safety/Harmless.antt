-- ===== src/VarDisk/Safety/Harmless.antt =====
-- The command lines that erase nothing.
use foundrix.Base.{◌≡◌, refl, none, Text, codes, text_eq, List}
use foundrix.VarDisk.Commands.{
  Cfg, erases, size_call, move_backup_call, recreate_call, partition_call, blkid_call,
  partuuid_call, luks_open_new_call, luks_open_call, luks_resize_call, luks_close_call, mount_call,
  umount_call, fs_resize_call, fs_usage_call, label_call, subvolume_call, snapshot_call, sync_call,
  trigger_call,
}

pub size_harmless : (path : Text) → erases (size_call path) ≡ none
unfolding erases codes text_eq size_call
size_harmless path = refl

pub move_backup_harmless : (disk : Text) → erases (move_backup_call disk) ≡ none
unfolding erases codes text_eq move_backup_call
move_backup_harmless disk = refl

pub recreate_harmless : (cfg : Cfg) (disk : Text) → erases (recreate_call cfg disk) ≡ none
unfolding erases codes text_eq recreate_call
recreate_harmless cfg disk = refl

pub partition_harmless : (cfg : Cfg) (disk : Text) → erases (partition_call cfg disk) ≡ none
unfolding erases codes text_eq partition_call
partition_harmless cfg disk = refl

pub blkid_harmless : (tag path : Text) → erases (blkid_call tag path) ≡ none
unfolding erases codes text_eq blkid_call
blkid_harmless tag path = refl

pub partuuid_harmless : (path : Text) → erases (partuuid_call path) ≡ none
unfolding erases codes text_eq partuuid_call
partuuid_harmless path = refl

pub luks_open_new_harmless :
    (cfg : Cfg) (part secret : Text) → erases (luks_open_new_call cfg part secret) ≡ none
unfolding erases codes text_eq luks_open_new_call
luks_open_new_harmless cfg part secret = refl

pub luks_open_harmless :
    (cfg : Cfg) (part secret : Text) → erases (luks_open_call cfg part secret) ≡ none
unfolding erases codes text_eq luks_open_call
luks_open_harmless cfg part secret = refl

pub luks_resize_harmless : (cfg : Cfg) (secret : Text) → erases (luks_resize_call cfg secret) ≡ none
unfolding erases codes text_eq luks_resize_call
luks_resize_harmless cfg secret = refl

pub luks_close_harmless : (cfg : Cfg) → erases (luks_close_call cfg) ≡ none
unfolding erases codes text_eq luks_close_call
luks_close_harmless cfg = refl

pub mount_harmless : (device target : Text) → erases (mount_call device target) ≡ none
unfolding erases codes text_eq mount_call
mount_harmless device target = refl

pub umount_harmless : (target : Text) → erases (umount_call target) ≡ none
unfolding erases codes text_eq umount_call
umount_harmless target = refl

pub fs_resize_harmless : (path : Text) → erases (fs_resize_call path) ≡ none
unfolding erases codes text_eq fs_resize_call
fs_resize_harmless path = refl

pub fs_usage_harmless : (path : Text) → erases (fs_usage_call path) ≡ none
unfolding erases codes text_eq fs_usage_call
fs_usage_harmless path = refl

pub label_harmless : (part label : Text) → erases (label_call part label) ≡ none
unfolding erases codes text_eq label_call
label_harmless part label = refl

pub subvolume_harmless : (operation path : Text) → erases (subvolume_call operation path) ≡ none
unfolding erases codes text_eq subvolume_call
subvolume_harmless operation path = refl

pub snapshot_harmless : (rest : List Text) → erases (snapshot_call rest) ≡ none
unfolding erases codes text_eq snapshot_call
snapshot_harmless rest = refl

pub sync_harmless : erases sync_call ≡ none
unfolding erases codes text_eq sync_call
sync_harmless = refl

pub trigger_harmless : (part : Text) → erases (trigger_call part) ≡ none
unfolding erases codes text_eq trigger_call
trigger_harmless part = refl
