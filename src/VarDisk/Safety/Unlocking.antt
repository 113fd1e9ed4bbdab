-- ===== src/VarDisk/Safety/Unlocking.antt =====
-- The opening of a volume, and the only format that it may lead to.
use foundrix.Base.{
  ℕ, ◌≡◌, refl, subst, Bool, true, false, List, [], Option, none, some, Text, codes,
}
use foundrix.VarDisk.Classify.{MapperFs, parse_confirm}
use foundrix.VarDisk.Classify.Laws.{mapper_fs_empty_iff}
use foundrix.VarDisk.Commands.{Cfg, mapper_dev, blkid_call, mkfs_call}
use foundrix.VarDisk.World.{
  Step, Reply, not_spawned, lost, ended, Event, ran, Phase, Message, Question, Reason, ◌>>=◌, ◌>>◌,
  Host,
}
use foundrix.VarDisk.Host.{state, ask_confirm, exec_step, run_ok, settle}
use foundrix.VarDisk.Format.{create_var_subvol}
use foundrix.VarDisk.Unlock.{
  maybe_grow_partition, open_volume, needs_resize, resize_if, fs_of, format_or_block, with_content,
  unlock,
}
use foundrix.VarDisk.Safety.{
  Happened, Happened-Extends, AgreedEmpty, AgreedEmpty-Extends, agreed, Extends, Calm, Fine-bind,
  Calm-bind,
}
use foundrix.VarDisk.Safety.Outcomes.{harmless, exec_step-Fine, run_ok-allowed}
use foundrix.VarDisk.Safety.Steps.{settle-Calm, state-Calm, block_forever-Calm}
use foundrix.VarDisk.Safety.Harmless.{blkid_harmless}
use foundrix.VarDisk.Safety.Answers.{Agrees, ask_confirm-Fine}
use foundrix.VarDisk.Safety.Asking.{open_volume-Calm}
use foundrix.VarDisk.Safety.Formatting.{mkfs-IsAllowed, create_var_subvol-Calm}
use foundrix.VarDisk.Safety.Opening.{
  maybe_grow_partition-Calm, needs_resize-Calm, resize_if-Calm, with_btrfs-Calm,
}

module _ {S : Type 0} (h : Host S) (cfg : Cfg) where
  format_or_block-Calm :
      (t0 : List Event) (luks_id : Text) (b : Bool)
      → (b ≡ true → AgreedEmpty cfg t0)
      → Calm cfg t0 (format_or_block h cfg luks_id b)
  unfolding format_or_block
  format_or_block-Calm t0 luks_id true agree =
      Calm-bind cfg t0 (state Phase.format_phase Message.making_fs) _
        (state-Calm cfg t0 Phase.format_phase Message.making_fs)
        (λ _.
          Calm-bind cfg t0 (run_ok h (mkfs_call cfg)) (λ _. settle h >> create_var_subvol h cfg)
            (run_ok-allowed h cfg t0 (mkfs_call cfg) (λ t e.
              mkfs-IsAllowed cfg t (agreed refl (AgreedEmpty-Extends cfg t0 t e (agree refl)))))
            (λ _.
              Calm-bind cfg t0 (settle h) (λ _. create_var_subvol h cfg) (settle-Calm h cfg t0)
                (λ _. create_var_subvol-Calm h cfg t0)))
  format_or_block-Calm t0 luks_id false agree =
      block_forever-Calm cfg t0 (Unit {0}) (Reason.declined_format luks_id)

  -- The volume is known to be empty.
  abbrev EmptySeen : List Event → Type 0
  EmptySeen t =
      (out errors : Text) × (written : Bool) × Happened
        (ran (blkid_call (codes "TYPE") (mapper_dev cfg)) (ended (some 2) out errors written)) t

  with_content-Calm :
      (t0 : List Event) (luks_id : Text) (fs : MapperFs)
      → (fs ≡ MapperFs.empty → EmptySeen t0)
      → Calm cfg t0 (with_content h cfg luks_id fs)
  unfolding with_content
  with_content-Calm t0 luks_id MapperFs.btrfs seen = with_btrfs-Calm h cfg t0 luks_id
  with_content-Calm t0 luks_id (MapperFs.other fstype) seen =
      block_forever-Calm cfg t0 (Unit {0}) (Reason.unexpected_fs luks_id fstype)
  with_content-Calm t0 luks_id MapperFs.unknown seen =
      block_forever-Calm cfg t0 (Unit {0}) (Reason.contents_unknown luks_id)
  with_content-Calm t0 luks_id MapperFs.empty seen =
      Fine-bind cfg t0 (Agrees question) (λ _ _. Unit) (ask_confirm question)
        (format_or_block h cfg luks_id) (ask_confirm-Fine cfg t0 question)
        (λ b t e agree. format_or_block-Calm t luks_id b (both b t e agree (seen refl)))
    where
      question : Question
      question = Question.format_empty luks_id cfg.id.fs_label

      both :
          (b : Bool) (t : List Event)
          → Extends t0 t
          → Agrees question b t
          → EmptySeen t0
          → b ≡ true
          → AgreedEmpty cfg t
      both b t e (answer, agrees, m) (out, errors, written, n) q = (
        (out, errors, written, Happened-Extends _ t0 t e n),
        (luks_id, answer, subst (λ x. parse_confirm answer ≡ some x) q agrees, m),
      )

  fs_of-EmptySeen :
      (t : List Event) (r : Reply)
      → Happened (ran (blkid_call (codes "TYPE") (mapper_dev cfg)) r) t
      → fs_of h cfg r ≡ MapperFs.empty
      → EmptySeen t
  fs_of-EmptySeen t not_spawned m q =
      let e : ◌≡◌ {A = Option ℕ} none (some 2) = (mapper_fs_empty_iff none []).0 q in absurd (cc)
  fs_of-EmptySeen t lost m q =
      let e : ◌≡◌ {A = Option ℕ} none (some 2) = (mapper_fs_empty_iff none []).0 q in absurd (cc)
  fs_of-EmptySeen t (ended code out errors written) m q = (
    out,
    errors,
    written,
    subst
        (λ c.
          Happened (ran (blkid_call (codes "TYPE") (mapper_dev cfg)) (ended c out errors written))
            t)
        ((mapper_fs_empty_iff code out).0 q) m,
  )

  -- A volume that is unlocked may be formatted only if it was seen empty and the operator agreed.
  pub unlock-Calm : (luks_id : Text) (t0 : List Event) → Calm cfg t0 (unlock h cfg luks_id)
  unfolding unlock
  unlock-Calm luks_id t0 =
      Calm-bind cfg t0 (maybe_grow_partition h cfg luks_id) _
        (maybe_grow_partition-Calm h cfg t0 luks_id)
        (λ grew.
          Calm-bind cfg t0 (open_volume h cfg luks_id) _ (open_volume-Calm h cfg t0 luks_id) (λ pw.
            Calm-bind cfg t0 (settle h) _ (settle-Calm h cfg t0) (λ _.
              Calm-bind cfg t0 (needs_resize h cfg grew luks_id) _
                (needs_resize-Calm h cfg t0 grew luks_id)
                (λ resize.
                  Calm-bind cfg t0 (resize_if h cfg resize pw) (λ _. look)
                    (resize_if-Calm h cfg t0 resize pw) (λ _. look-Calm)))))
    where
      after : Reply → Step S (Unit {0})
      after r =
          with_content h cfg luks_id (fs_of h cfg r) >> state Phase.unlock_phase Message.unlocked

      look : Step S (Unit {0})
      look = exec_step h (blkid_call (codes "TYPE") (mapper_dev cfg)) >>= after

      after-Calm :
          (r : Reply) (t : List Event)
          → Happened (ran (blkid_call (codes "TYPE") (mapper_dev cfg)) r) t
          → Calm cfg t (after r)
      after-Calm r t m =
          Calm-bind cfg t (with_content h cfg luks_id (fs_of h cfg r))
            (λ _. state Phase.unlock_phase Message.unlocked)
            (with_content-Calm t luks_id (fs_of h cfg r) (fs_of-EmptySeen t r m))
            (λ _. state-Calm cfg t Phase.unlock_phase Message.unlocked)

      look-Calm : Calm cfg t0 look
      look-Calm =
          Fine-bind cfg t0 (λ r t. Happened (ran (blkid_call (codes "TYPE") (mapper_dev cfg)) r) t)
            (λ _ _. Unit) (exec_step h (blkid_call (codes "TYPE") (mapper_dev cfg))) after
            (exec_step-Fine h cfg t0 _
              (λ t e. harmless cfg _ t (blkid_harmless (codes "TYPE") (mapper_dev cfg))))
            (λ r t e m. after-Calm r t m)
