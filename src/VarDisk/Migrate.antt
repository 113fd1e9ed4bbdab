-- ===== src/VarDisk/Migrate.antt =====
-- packages/var-disk-manager/src/bin/daemon.rs: the migration of an unencrypted volume to a blank one.
pub mod Bounds
use foundrix.Base.{
  ℕ, ◌+◌, ◌*◌, ◌%◌, ◌^◌, ◌==◌, ltb, leb, Bool, true, false, List, [], ◌∷◌, Option, none, some,
  if◌then◌else◌, Text, codes,
}
use foundrix.VarDisk.Classify.{parse_btrfs_used}
use foundrix.VarDisk.Commands.{
  Cfg, dev, part1, mapper_dev, mount_call, umount_call, fs_usage_call, subvolume_call,
  snapshot_call, sync_call, luks_close_call,
}
use foundrix.VarDisk.World.{
  Chunk, unread, piece, Copy, not_started, pumped, Step, arrived, failed, ◌>>=◌, ◌>>◌, pure,
  Failure, Phase, Message, Reason, Host, World, Progress,
}
use foundrix.VarDisk.Host.{
  mutate, state, progress, block_forever, ask_new_passphrase, exec_step, run_ok, create_dir_all,
}
use foundrix.VarDisk.Format.{format_encrypted}
use foundrix.VarDisk.Unlock.{add_u64, blockdev_bytes, subvol_exists}

-- `SIZE_HEADROOM`
abbrev pub size_headroom : ℕ
size_headroom = 2 ^ 30

abbrev pub min : ℕ → ℕ → ℕ
min a b = if leb a b then a else b

abbrev pub old_dir : Text
old_dir = codes "/old"

abbrev pub new_dir : Text
new_dir = codes "/new"

abbrev pub old_source : Text
old_source = codes "/old/.migrate-src"

abbrev pub new_source : Text
new_source = codes "/new/.migrate-src"

module _ {S : Type 0} where
  abbrev pub update_if : Bool → ℕ → ℕ → World S → World S
  update_if true copied total w = progress (min copied total) total w
  update_if false copied total w = w

  -- The pump of `copy_with_progress`, with the bytes copied so far: whether it came to the end.
  unfoldable pub pump : ℕ → List Chunk → ℕ → World S → Bool × World S
  unfolding progress
  pump total [] copied w = (true, w)
  pump total (unread ∷ chunks) copied w = (false, w)
  pump total (piece n written shown ∷ chunks) copied w =
      if n == 0
      then (true, w)
      else if written
      then pump total chunks (add_u64 copied n) (update_if shown (add_u64 copied n) total w)
      else (false, w)

  -- What the end of the pump and of the two programs makes of the copy.
  unfoldable pub copy_end : ℕ → Bool → Bool → Bool × World S → Progress S (Unit {0})
  unfolding progress
  copy_end total sent received (false, w) = failed Failure.copy_failed w
  copy_end total false received (true, w) = failed Failure.send_failed w
  copy_end total true false (true, w) = failed Failure.receive_failed w
  copy_end total true true (true, w) = arrived tt (progress total total w)

  abbrev pub copy_of : ℕ → Copy → Step S (Unit {0})
  copy_of total not_started w = failed (Failure.io_error (codes "btrfs")) w
  copy_of total (pumped chunks sent received) w =
      copy_end total sent received (pump total chunks 0 w)

module _ {S : Type 0} (h : Host S) (cfg : Cfg) where
  unfoldable pub copy_with_progress : ℕ → Step S (Unit {0})
  unfolding pump copy_end
  copy_with_progress total w = let (c, s) = h.copy w.host in copy_of total c (record w { host = s })

  -- A snapshot that an interrupted attempt has left is removed.
  unfoldable pub clean_leftover : Bool → Step S (Unit {0})
  unfolding run_ok subvolume_call sync_call
  clean_leftover false = pure tt
  clean_leftover true = do
    run_ok h (subvolume_call (codes "delete") old_source)
    run_ok h sync_call
    pure tt

  unfoldable pub abort : {A : Type 0} → Reason → Step S A
  unfolding umount_call block_forever
  abort reason = exec_step h (umount_call old_dir) >> block_forever reason

  abbrev pub used_or_abort : Option ℕ → Step S ℕ
  used_or_abort none = abort Reason.used_unknown
  used_or_abort (some used) = pure used

  unfoldable pub require_room : ℕ → ℕ → Step S (Unit {0})
  unfolding abort
  require_room used target =
      if ltb target (add_u64 used size_headroom)
      then abort (Reason.too_small target (add_u64 used size_headroom))
      else pure tt

  -- Up to the passphrase: the room that the old volume needs.
  unfoldable pub inspect : Text → Text → Step S ℕ
  unfolding create_dir_all state run_ok mount_call part1 subvol_exists clean_leftover fs_usage_call
      parse_btrfs_used abort blockdev_bytes dev require_room
  inspect legacy_id blank_id = do
    create_dir_all h old_dir
    create_dir_all h new_dir
    state Phase.migrate_phase Message.inspecting
    run_ok h (mount_call (part1 cfg legacy_id) old_dir)
    leftover ← subvol_exists h cfg old_source
    clean_leftover leftover
    usage ← run_ok h (fs_usage_call old_dir)
    used ← used_or_abort (parse_btrfs_used usage)
    target ← blockdev_bytes h cfg (dev cfg blank_id)
    require_room used target
    pure used

  unfoldable pub transfer : ℕ → Step S (Unit {0})
  unfolding state run_ok snapshot_call sync_call mount_call mapper_dev copy_with_progress
      subvolume_call
  transfer used = do
    state Phase.migrate_phase Message.copying
    run_ok h (snapshot_call (codes "-r" ∷ codes "/old/var" ∷ old_source ∷ []))
    run_ok h sync_call
    run_ok h (mount_call (mapper_dev cfg) new_dir)
    copy_with_progress used
    run_ok h (snapshot_call (new_source ∷ codes "/new/var" ∷ []))
    run_ok h (subvolume_call (codes "delete") new_source)
    pure tt

  unfoldable pub clean_up : Text → Step S (Unit {0})
  unfolding state run_ok subvolume_call sync_call umount_call luks_close_call mutate block_forever
  clean_up legacy_id = do
    state Phase.migrate_phase Message.cleaning_up
    run_ok h (subvolume_call (codes "delete") old_source)
    run_ok h sync_call
    run_ok h (umount_call new_dir)
    run_ok h (umount_call old_dir)
    run_ok h (luks_close_call cfg)
    λ w. arrived tt (mutate (λ s. record s { progress = none }) w)
    block_forever (Reason.migration_complete legacy_id)

  -- The source's migration never returns.
  unfoldable pub migrate : Text → Text → Step S (Unit {0})
  unfolding inspect ask_new_passphrase format_encrypted transfer clean_up
  migrate legacy_id blank_id = do
    used ← inspect legacy_id blank_id
    passphrase ← ask_new_passphrase cfg
    format_encrypted h cfg blank_id passphrase
    transfer used
    clean_up legacy_id
