-- ===== src/VarDisk/Safety/Opening.antt =====
-- The steps of an unlock that format nothing: the growth of the partition, the resize and the label.
use foundrix.Base.{
  ℕ, ◌≡◌, leb, ltb, if◌then◌else◌, Bool, true, false, List, Option, none, some, Text, codes, trim,
}
use foundrix.VarDisk.Classify.{parse_u64}
use foundrix.VarDisk.Commands.{
  Cfg, new_var_fs, new_var, dev, part1, mapper_dev, size_call, move_backup_call, recreate_call,
  luks_resize_call, blkid_call, mount_call, umount_call, fs_resize_call, subvolume_call, label_call,
  trigger_call,
}
use foundrix.VarDisk.World.{
  Step, Event, Failure, Phase, Message, Question, Reason, pure, ◌>>◌, Host,
}
use foundrix.VarDisk.Host.{
  state, ask_confirm, block_forever, exec_step, run_ok, run_with_stdin, probe_value, settle,
  create_dir_all,
}
use foundrix.VarDisk.Unlock.{
  grow_threshold, luks_header_slack, add_u64, number_or_fail, blockdev_bytes, grow_partition,
  maybe_grow_partition, resize_mapping, needs_resize, resize_if, show_success, subvol_exists,
  create_or_block, ensure_subvol, with_btrfs, is_text, label_legacy, label_if, ensure_label,
}
use foundrix.VarDisk.Safety.{GaveNothing, Calm, Calm-bind}
use foundrix.VarDisk.Safety.Outcomes.{forget, run_ok-Calm}
use foundrix.VarDisk.Safety.Steps.{
  done, exec_step-Calm, run_with_stdin-Calm, probe_value-Fine, settle-Calm, create_dir_all-Calm,
  state-Calm, block_forever-Calm, pure-Fine, fail-Fine,
}
use foundrix.VarDisk.Safety.Harmless.{
  size_harmless, move_backup_harmless, recreate_harmless, blkid_harmless, luks_resize_harmless,
  mount_harmless, umount_harmless, fs_resize_harmless, label_harmless, subvolume_harmless,
  trigger_harmless,
}
use foundrix.VarDisk.Safety.Answers.{Agrees, ask_confirm-Fine}

module _ {S : Type 0} (h : Host S) (cfg : Cfg) (t0 : List Event) where
  number_or_fail-Calm : (out : Text) (o : Option ℕ) → Calm cfg t0 (number_or_fail {S = S} out o)
  number_or_fail-Calm out none = fail-Fine cfg t0 ℕ (λ _ _. Unit) (Failure.not_a_number out)
  number_or_fail-Calm out (some n) = pure-Fine cfg t0 (λ _ _. Unit) n (λ t e. tt)

  pub blockdev_bytes-Calm : (path : Text) → Calm cfg t0 (blockdev_bytes h cfg path)
  unfolding blockdev_bytes
  blockdev_bytes-Calm path =
      Calm-bind cfg t0 (run_ok h (size_call path))
        (λ out. number_or_fail out (parse_u64 (trim out)))
        (run_ok-Calm h cfg t0 _ (size_harmless path))
        (λ out. number_or_fail-Calm out (parse_u64 (trim out)))

  grow_partition-Calm : (luks_id : Text) → Calm cfg t0 (grow_partition h cfg luks_id)
  unfolding grow_partition
  grow_partition-Calm luks_id =
      Calm-bind cfg t0 (state Phase.grow_phase (Message.enlarged luks_id)) _
        (state-Calm cfg t0 Phase.grow_phase (Message.enlarged luks_id))
        (λ _.
          Calm-bind cfg t0 (run_ok h (move_backup_call (dev cfg luks_id))) _
            (run_ok-Calm h cfg t0 _ (move_backup_harmless (dev cfg luks_id)))
            (λ _.
              Calm-bind cfg t0 (run_ok h (recreate_call cfg (dev cfg luks_id)))
                (λ _. settle h >> pure true)
                (run_ok-Calm h cfg t0 _ (recreate_harmless cfg (dev cfg luks_id)))
                (λ _.
                  Calm-bind cfg t0 (settle h) (λ _. pure true) (settle-Calm h cfg t0)
                    (λ _. pure-Fine cfg t0 (λ _ _. Unit) true (λ t e. tt)))))

  pub maybe_grow_partition-Calm :
      (luks_id : Text) → Calm cfg t0 (maybe_grow_partition h cfg luks_id)
  unfolding maybe_grow_partition
  maybe_grow_partition-Calm luks_id =
      Calm-bind cfg t0 (blockdev_bytes h cfg (dev cfg luks_id)) _
        (blockdev_bytes-Calm (dev cfg luks_id))
        (λ disk_bytes.
          Calm-bind cfg t0 (blockdev_bytes h cfg (part1 cfg luks_id)) (grown disk_bytes)
            (blockdev_bytes-Calm (part1 cfg luks_id))
            (λ part_bytes. by (leb disk_bytes (add_u64 part_bytes grow_threshold))))
    where
      grown : ℕ → ℕ → Step S Bool
      grown disk_bytes part_bytes =
          if leb disk_bytes (add_u64 part_bytes grow_threshold)
          then pure false
          else grow_partition h cfg luks_id

      by :
          (b : Bool)
          → Calm cfg t0
              (if◌then◌else◌ {A = Step S Bool} b (pure false) (grow_partition h cfg luks_id))
      by true = pure-Fine cfg t0 (λ _ _. Unit) false (λ t e. tt)
      by false = grow_partition-Calm luks_id

  resize_mapping-Calm : (pw : Text) → Calm cfg t0 (resize_mapping h cfg pw)
  unfolding resize_mapping
  resize_mapping-Calm pw =
      Calm-bind cfg t0 (state Phase.grow_phase Message.extending_luks) _
        (state-Calm cfg t0 Phase.grow_phase Message.extending_luks)
        (λ _.
          Calm-bind cfg t0 (run_with_stdin h (luks_resize_call cfg pw)) (λ _. settle h)
            (run_with_stdin-Calm h cfg t0 _ (luks_resize_harmless cfg pw))
            (λ _. settle-Calm h cfg t0))

  pub needs_resize-Calm :
      (grew : Bool) (luks_id : Text) → Calm cfg t0 (needs_resize h cfg grew luks_id)
  unfolding needs_resize
  needs_resize-Calm true luks_id = pure-Fine cfg t0 (λ _ _. Unit) true (λ t e. tt)
  needs_resize-Calm false luks_id =
      Calm-bind cfg t0 (blockdev_bytes h cfg (part1 cfg luks_id)) _
        (blockdev_bytes-Calm (part1 cfg luks_id))
        (λ part_bytes.
          Calm-bind cfg t0 (blockdev_bytes h cfg (mapper_dev cfg)) _
            (blockdev_bytes-Calm (mapper_dev cfg))
            (λ mapper_bytes.
              pure-Fine cfg t0 (λ _ _. Unit)
                (ltb (add_u64 mapper_bytes luks_header_slack) part_bytes) (λ t e. tt)))

  pub resize_if-Calm : (b : Bool) (pw : Text) → Calm cfg t0 (resize_if h cfg b pw)
  unfolding resize_if
  resize_if-Calm true pw = resize_mapping-Calm pw
  resize_if-Calm false pw = done cfg t0

  pub subvol_exists-Calm : (path : Text) → Calm cfg t0 (subvol_exists h cfg path)
  unfolding subvol_exists
  subvol_exists-Calm path =
      Calm-bind cfg t0 (exec_step h (subvolume_call (codes "show") path))
        (λ r. pure (show_success h cfg r))
        (exec_step-Calm h cfg t0 _ (subvolume_harmless (codes "show") path))
        (λ r. pure-Fine cfg t0 (λ _ _. Unit) (show_success h cfg r) (λ t e. tt))

  create_or_block-Calm : (luks_id : Text) (b : Bool) → Calm cfg t0 (create_or_block h cfg luks_id b)
  unfolding create_or_block
  create_or_block-Calm luks_id true =
      Calm-bind cfg t0 (run_ok h (subvolume_call (codes "create") new_var)) _
        (run_ok-Calm h cfg t0 _ (subvolume_harmless (codes "create") new_var)) (λ _. done cfg t0)
  create_or_block-Calm luks_id false =
      Calm-bind cfg t0 (run_ok h (umount_call new_var_fs))
        (λ _. block_forever (Reason.declined_subvolume luks_id))
        (run_ok-Calm h cfg t0 _ (umount_harmless new_var_fs))
        (λ _. block_forever-Calm cfg t0 (Unit {0}) (Reason.declined_subvolume luks_id))

  ensure_subvol-Calm : (luks_id : Text) (b : Bool) → Calm cfg t0 (ensure_subvol h cfg luks_id b)
  unfolding ensure_subvol
  ensure_subvol-Calm luks_id true = done cfg t0
  ensure_subvol-Calm luks_id false =
      Calm-bind cfg t0 (ask_confirm (Question.create_subvolume_on luks_id)) _
        (forget h cfg t0 (Agrees (Question.create_subvolume_on luks_id))
          (ask_confirm (Question.create_subvolume_on luks_id))
          (ask_confirm-Fine cfg t0 (Question.create_subvolume_on luks_id)))
        (λ b. create_or_block-Calm luks_id b)

  pub with_btrfs-Calm : (luks_id : Text) → Calm cfg t0 (with_btrfs h cfg luks_id)
  unfolding with_btrfs
  with_btrfs-Calm luks_id =
      Calm-bind cfg t0 (create_dir_all h new_var_fs) _ (create_dir_all-Calm h cfg t0 new_var_fs)
        (λ _.
          Calm-bind cfg t0 (run_ok h (mount_call (mapper_dev cfg) new_var_fs)) _
            (run_ok-Calm h cfg t0 _ (mount_harmless (mapper_dev cfg) new_var_fs))
            (λ _.
              Calm-bind cfg t0 (run_ok h (fs_resize_call new_var_fs)) _
                (run_ok-Calm h cfg t0 _ (fs_resize_harmless new_var_fs))
                (λ _.
                  Calm-bind cfg t0 (subvol_exists h cfg new_var) _ (subvol_exists-Calm new_var)
                    (λ b.
                      Calm-bind cfg t0 (ensure_subvol h cfg luks_id b) _
                        (ensure_subvol-Calm luks_id b)
                        (λ _.
                          Calm-bind cfg t0 (run_ok h (umount_call new_var_fs)) (λ _. pure tt)
                            (run_ok-Calm h cfg t0 _ (umount_harmless new_var_fs))
                            (λ _. done cfg t0))))))

  label_legacy-Calm : (part : Text) → Calm cfg t0 (label_legacy h cfg part)
  unfolding label_legacy
  label_legacy-Calm part =
      Calm-bind cfg t0 (state Phase.legacy_phase Message.labeling) _
        (state-Calm cfg t0 Phase.legacy_phase Message.labeling)
        (λ _.
          Calm-bind cfg t0 (run_ok h (label_call part cfg.id.fs_label))
            (λ _. exec_step h (trigger_call part) >> pure tt)
            (run_ok-Calm h cfg t0 _ (label_harmless part cfg.id.fs_label))
            (λ _.
              Calm-bind cfg t0 (exec_step h (trigger_call part)) (λ _. pure tt)
                (exec_step-Calm h cfg t0 _ (trigger_harmless part)) (λ _. done cfg t0)))

  label_if-Calm : (part : Text) (b : Bool) → Calm cfg t0 (label_if h cfg part b)
  unfolding label_if
  label_if-Calm part true = done cfg t0
  label_if-Calm part false = label_legacy-Calm part

  pub ensure_label-Calm : (legacy_id : Text) → Calm cfg t0 (ensure_label h cfg legacy_id)
  unfolding ensure_label
  ensure_label-Calm legacy_id =
      Calm-bind cfg t0 (probe_value h (blkid_call (codes "LABEL") (part1 cfg legacy_id))) _
        (forget h cfg t0
          (λ v t. v ≡ none → GaveNothing (blkid_call (codes "LABEL") (part1 cfg legacy_id)) t)
          (probe_value h (blkid_call (codes "LABEL") (part1 cfg legacy_id)))
          (probe_value-Fine h cfg t0 _ (blkid_harmless (codes "LABEL") (part1 cfg legacy_id))))
        (λ label.
          Calm-bind cfg t0
            (label_if h cfg (part1 cfg legacy_id) (is_text h cfg cfg.id.fs_label label))
            (λ _. state Phase.legacy_phase Message.booting_unencrypted)
            (label_if-Calm (part1 cfg legacy_id) (is_text h cfg cfg.id.fs_label label))
            (λ _. state-Calm cfg t0 Phase.legacy_phase Message.booting_unencrypted))
