-- ===== src/VarDisk/Unlock.antt =====
-- packages/var-disk-manager/src/bin/daemon.rs: the steady state, in which the volume is grown, opened
-- and looked into.
use foundrix.Base.{
  ℕ, zero, suc, ◌+◌, ◌*◌, ◌%◌, ◌^◌, leb, ltb, Bool, true, false, [], Option, none, some,
  if◌then◌else◌, length, Text, codes, trim, parse_unsigned, text_eq,
}
use foundrix.VarDisk.Classify.{MapperFs, mapper_fs_from_blkid, parse_u64}
use foundrix.VarDisk.Commands.{
  Cfg, new_var_fs, new_var, dev, part1, mapper_dev, size_call, move_backup_call, recreate_call,
  luks_open_call, luks_resize_call, blkid_call, mkfs_call, mount_call, umount_call, fs_resize_call,
  subvolume_call, label_call, trigger_call,
}
use foundrix.VarDisk.World.{
  Reply, not_spawned, lost, ended, Step, ◌>>=◌, ◌>>◌, pure, fail, Failure, Phase, Message, Question,
  PromptKind, Reason, Host, Progress,
}
use foundrix.VarDisk.Host.{
  state, ask, ask_confirm, block_forever, exec, exec_step, is_success, run_ok, run_with_stdin,
  probe_value, settle, create_dir_all,
}
use foundrix.VarDisk.Format.{create_var_subvol}

-- `GROW_THRESHOLD` and `LUKS_HEADER_SLACK`
abbrev pub grow_threshold : ℕ
grow_threshold = 16 * 2 ^ 20

abbrev pub luks_header_slack : ℕ
luks_header_slack = 64 * 2 ^ 20

-- A sum of u64, as a release build has it.
abbrev pub add_u64 : ℕ → ℕ → ℕ
add_u64 a b = (a + b) % 2 ^ 64

abbrev pub number_or_fail : {S : Type 0} → Text → Option ℕ → Step S ℕ
number_or_fail out none = fail (Failure.not_a_number out)
number_or_fail out (some n) = pure n

module _ {S : Type 0} (h : Host S) (cfg : Cfg) where
  unfoldable pub blockdev_bytes : Text → Step S ℕ
  unfolding run_ok size_call trim parse_unsigned
  blockdev_bytes path =
      run_ok h (size_call path) >>= λ out. number_or_fail out (parse_u64 (trim out))

  unfoldable pub grow_partition : Text → Step S Bool
  unfolding state run_ok settle dev move_backup_call recreate_call
  grow_partition luks_id = do
    state Phase.grow_phase (Message.enlarged luks_id)
    run_ok h (move_backup_call (dev cfg luks_id))
    run_ok h (recreate_call cfg (dev cfg luks_id))
    settle h
    pure true

  unfoldable pub maybe_grow_partition : Text → Step S Bool
  unfolding blockdev_bytes grow_partition dev part1
  maybe_grow_partition luks_id = blockdev_bytes (dev cfg luks_id) >>= λ disk_bytes.
      blockdev_bytes (part1 cfg luks_id) >>= λ part_bytes.
      if leb disk_bytes (add_u64 part_bytes grow_threshold)
      then pure false
      else grow_partition luks_id

  -- The attempt to open the volume, which may fail and be made again.
  abbrev pub opens : Reply → Bool
  opens not_spawned = false
  opens lost = false
  opens (ended code out errors written) = if is_success code then written else false

  -- The loop of passphrases: a round takes a message.
  unfoldable pub unlock_loop : ℕ → Text → Step S Text
  unfolding ask state exec part1 luks_open_call
  unlock_loop zero luks_id = λ w. Progress.no_fuel
  unlock_loop (suc fuel) luks_id =
      ask PromptKind.unlock_passphrase (Question.passphrase_for luks_id) >>= λ pw.
      state Phase.unlock_phase Message.unlocking
      >> exec_step h (luks_open_call cfg (part1 cfg luks_id) pw)
      >>= λ r. elim (opens r) [
        | true ↦ pure pw
        | false ↦ state Phase.unlock_phase Message.unlock_failed >> unlock_loop fuel luks_id
      ]

  unfoldable pub open_volume : Text → Step S Text
  unfolding unlock_loop
  open_volume luks_id w = unlock_loop (suc (length w.messages)) luks_id w

  unfoldable pub resize_mapping : Text → Step S (Unit {0})
  unfolding state run_with_stdin settle luks_resize_call
  resize_mapping pw = do
    state Phase.grow_phase Message.extending_luks
    run_with_stdin h (luks_resize_call cfg pw)
    settle h

  -- `needs_resize`: by size, unless the partition has just grown.
  unfoldable pub needs_resize : Bool → Text → Step S Bool
  unfolding blockdev_bytes part1 mapper_dev
  needs_resize true luks_id = pure true
  needs_resize false luks_id = blockdev_bytes (part1 cfg luks_id) >>= λ part_bytes.
      blockdev_bytes (mapper_dev cfg) >>= λ mapper_bytes.
      pure (ltb (add_u64 mapper_bytes luks_header_slack) part_bytes)

  unfoldable pub resize_if : Bool → Text → Step S (Unit {0})
  unfolding resize_mapping
  resize_if true pw = resize_mapping pw
  resize_if false pw = pure tt

  abbrev pub fs_of : Reply → MapperFs
  fs_of not_spawned = mapper_fs_from_blkid none []
  fs_of lost = mapper_fs_from_blkid none []
  fs_of (ended code out errors written) = mapper_fs_from_blkid code out

  abbrev pub show_success : Reply → Bool
  show_success not_spawned = false
  show_success lost = false
  show_success (ended code out errors written) = is_success code

  unfoldable pub subvol_exists : Text → Step S Bool
  unfolding exec subvolume_call
  subvol_exists path =
      exec_step h (subvolume_call (codes "show") path) >>= λ r. pure (show_success r)

  -- The answer about a missing subvolume.
  unfoldable pub create_or_block : Text → Bool → Step S (Unit {0})
  unfolding run_ok subvolume_call umount_call block_forever
  create_or_block luks_id true = run_ok h (subvolume_call (codes "create") new_var) >> pure tt
  create_or_block luks_id false =
      run_ok h (umount_call new_var_fs) >> block_forever (Reason.declined_subvolume luks_id)

  unfoldable pub ensure_subvol : Text → Bool → Step S (Unit {0})
  unfolding ask_confirm create_or_block
  ensure_subvol luks_id true = pure tt
  ensure_subvol luks_id false =
      ask_confirm (Question.create_subvolume_on luks_id) >>= create_or_block luks_id

  unfoldable pub with_btrfs : Text → Step S (Unit {0})
  unfolding create_dir_all run_ok mount_call mapper_dev fs_resize_call subvol_exists ensure_subvol
      umount_call
  with_btrfs luks_id = do
    create_dir_all h new_var_fs
    run_ok h (mount_call (mapper_dev cfg) new_var_fs)
    run_ok h (fs_resize_call new_var_fs)
    have_subvol ← subvol_exists new_var
    ensure_subvol luks_id have_subvol
    run_ok h (umount_call new_var_fs)
    pure tt

  -- The answer about an empty volume.
  unfoldable pub format_or_block : Text → Bool → Step S (Unit {0})
  unfolding state run_ok settle mkfs_call create_var_subvol block_forever
  format_or_block luks_id true = do
    state Phase.format_phase Message.making_fs
    run_ok h (mkfs_call cfg)
    settle h
    create_var_subvol h cfg
  format_or_block luks_id false = block_forever (Reason.declined_format luks_id)

  -- The match on what the volume holds.
  unfoldable pub with_content : Text → MapperFs → Step S (Unit {0})
  unfolding with_btrfs ask_confirm format_or_block block_forever
  with_content luks_id MapperFs.btrfs = with_btrfs luks_id
  with_content luks_id MapperFs.empty =
      ask_confirm (Question.format_empty luks_id cfg.id.fs_label) >>= format_or_block luks_id
  with_content luks_id (MapperFs.other fstype) = block_forever (Reason.unexpected_fs luks_id fstype)
  with_content luks_id MapperFs.unknown = block_forever (Reason.contents_unknown luks_id)

  unfoldable pub unlock : Text → Step S (Unit {0})
  unfolding maybe_grow_partition open_volume settle needs_resize resize_if exec blkid_call
      mapper_dev mapper_fs_from_blkid with_content state
  unlock luks_id = do
    grew ← maybe_grow_partition luks_id
    pw ← open_volume luks_id
    settle h
    resize ← needs_resize grew luks_id
    resize_if resize pw
    r ← exec_step h (blkid_call (codes "TYPE") (mapper_dev cfg))
    with_content luks_id (fs_of r)
    state Phase.unlock_phase Message.unlocked

  abbrev pub is_text : Text → Option Text → Bool
  is_text t none = false
  is_text t (some s) = text_eq s t

  unfoldable pub label_legacy : Text → Step S (Unit {0})
  unfolding state run_ok exec label_call trigger_call
  label_legacy part = do
    state Phase.legacy_phase Message.labeling
    run_ok h (label_call part cfg.id.fs_label)
    exec_step h (trigger_call part)
    pure tt

  unfoldable pub label_if : Text → Bool → Step S (Unit {0})
  unfolding label_legacy
  label_if part true = pure tt
  label_if part false = label_legacy part

  unfoldable pub ensure_label : Text → Step S (Unit {0})
  unfolding probe_value blkid_call part1 text_eq label_if state
  ensure_label legacy_id = do
    label ← probe_value h (blkid_call (codes "LABEL") (part1 cfg legacy_id))
    label_if (part1 cfg legacy_id) (is_text cfg.id.fs_label label)
    state Phase.legacy_phase Message.booting_unencrypted
