-- ===== src/VarDisk/Format.antt =====
-- packages/var-disk-manager/src/bin/daemon.rs: a disk is formatted and provisioned.
use foundrix.Base.{ℕ, zero, suc, Bool, true, false, Text, codes}
use foundrix.VarDisk.Commands.{
  Cfg, dev, part1, mapper_dev, zap_call, partition_call, luks_format_call, luks_open_new_call,
  mkfs_call, new_var_fs, new_var, mount_call, umount_call, subvolume_call,
}
use foundrix.VarDisk.World.{Step, ◌>>=◌, ◌>>◌, pure, fail, Failure, Phase, Message, Host}
use foundrix.VarDisk.Host.{
  state, ask_new_passphrase, run_ok, run_with_stdin, settle, exists, create_dir_all,
}

module _ {S : Type 0} (h : Host S) (cfg : Cfg) where
  -- The wait for the partition: at most so many looks, each after half a second.
  unfoldable pub await_path : ℕ → Text → Step S (Unit {0})
  unfolding exists
  await_path zero path = pure tt
  await_path (suc n) path =
      exists h path >>= λ there. elim there [ true ↦ pure tt | false ↦ await_path n path ]

  abbrev pub require_path : Text → Bool → Step S (Unit {0})
  require_path path true = pure tt
  require_path path false = fail (Failure.no_partition path)

  unfoldable pub make_partition : Text → Step S (Unit {0})
  unfolding state run_ok settle await_path exists dev part1 zap_call partition_call
  make_partition disk_id = do
    state Phase.format_phase (Message.partitioning disk_id)
    run_ok h (zap_call (dev cfg disk_id))
    run_ok h (partition_call cfg (dev cfg disk_id))
    settle h
    await_path 60 (part1 cfg disk_id)
    there ← exists h (part1 cfg disk_id)
    require_path (part1 cfg disk_id) there

  unfoldable pub make_luks : Text → Text → Step S (Unit {0})
  unfolding state run_with_stdin part1 luks_format_call luks_open_new_call
  make_luks disk_id passphrase = do
    state Phase.format_phase (Message.making_luks disk_id)
    run_with_stdin h (luks_format_call (part1 cfg disk_id) passphrase)
    run_with_stdin h (luks_open_new_call cfg (part1 cfg disk_id) passphrase)

  unfoldable pub make_fs : Step S (Unit {0})
  unfolding state run_ok settle mkfs_call
  make_fs = do state Phase.format_phase Message.making_fs; run_ok h (mkfs_call cfg); settle h

  unfoldable pub format_encrypted : Text → Text → Step S (Unit {0})
  unfolding make_partition make_luks make_fs
  format_encrypted disk_id passphrase = do
    make_partition disk_id
    make_luks disk_id passphrase
    make_fs

  unfoldable pub create_var_subvol : Step S (Unit {0})
  unfolding create_dir_all run_ok mount_call mapper_dev subvolume_call umount_call
  create_var_subvol = do
    create_dir_all h new_var_fs
    run_ok h (mount_call (mapper_dev cfg) new_var_fs)
    run_ok h (subvolume_call (codes "create") new_var)
    run_ok h (umount_call new_var_fs)
    pure tt

  unfoldable pub provision : Text → Step S (Unit {0})
  unfolding state ask_new_passphrase format_encrypted create_var_subvol
  provision blank_id = do
    state Phase.provision_phase Message.provisioning
    passphrase ← ask_new_passphrase cfg
    format_encrypted blank_id passphrase
    create_var_subvol
    state Phase.provision_phase Message.provisioned
