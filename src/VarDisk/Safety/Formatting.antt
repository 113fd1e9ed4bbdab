-- ===== src/VarDisk/Safety/Formatting.antt =====
-- The formatting and the provisioning of a disk that was taken for blank.
use foundrix.Base.{
  ℕ, zero, suc, ◌≡◌, refl, subst, Bool, true, false, List, some, Text, codes, text_eq,
}
use foundrix.VarDisk.Commands.{
  Cfg, Invocation, erases, dev, part1, mapper_dev, zap_call, partition_call, luks_format_call,
  luks_open_new_call, mkfs_call, new_var_fs, new_var, mount_call, umount_call, subvolume_call,
}
use foundrix.VarDisk.World.{Step, Event, Failure, Phase, Message, pure, Host}
use foundrix.VarDisk.Host.{
  state, ask_new_passphrase, run_ok, run_with_stdin, settle, exists, create_dir_all,
}
use foundrix.VarDisk.Format.{
  await_path, require_path, make_partition, make_luks, make_fs, format_encrypted, create_var_subvol,
  provision,
}
use foundrix.VarDisk.Safety.{
  TakenAsBlank, TakenAsBlank-Extends, OpenedNew, OpenedNew-Extends, Cause, blank_disk,
  blank_partition, new_volume, IsAllowed, Extends, Extends-trans, Fine, Calm, Fine-bind, Calm-bind,
}
use foundrix.VarDisk.Safety.Outcomes.{weaken, harmless, forget, run_ok-allowed, run_ok-Calm}
use foundrix.VarDisk.Safety.Steps.{
  done, run_with_stdin-Fine, settle-Calm, exists-Calm, create_dir_all-Calm, state-Calm, fail-Fine,
}
use foundrix.VarDisk.Safety.Harmless.{
  partition_harmless, luks_open_new_harmless, mount_harmless, umount_harmless, subvolume_harmless,
}
use foundrix.VarDisk.Safety.Answers.{ask_new_passphrase-Calm}

erases-zap : (disk : Text) → erases (zap_call disk) ≡ some disk
unfolding erases codes text_eq zap_call
erases-zap disk = refl

erases-luks_format : (part secret : Text) → erases (luks_format_call part secret) ≡ some part
unfolding erases codes text_eq luks_format_call
erases-luks_format part secret = refl

erases-mkfs : (cfg : Cfg) → erases (mkfs_call cfg) ≡ some (mapper_dev cfg)
unfolding erases codes text_eq mkfs_call
erases-mkfs cfg = refl

-- A command line that erases one device may be run with a cause for that device.
pub erases-IsAllowed :
    (cfg : Cfg) (i : Invocation) (device : Text) (t : List Event)
    → erases i ≡ some device
    → Cause cfg device t
    → IsAllowed cfg i t
erases-IsAllowed cfg i device t q c other e = subst (λ x. Cause cfg x t) (cc) c

pub mkfs-IsAllowed :
    (cfg : Cfg) (t : List Event) → Cause cfg (mapper_dev cfg) t → IsAllowed cfg (mkfs_call cfg) t
mkfs-IsAllowed cfg t c = erases-IsAllowed cfg (mkfs_call cfg) (mapper_dev cfg) t (erases-mkfs cfg) c

module _ {S : Type 0} (h : Host S) (cfg : Cfg) where
  await_path-Calm : (n : ℕ) (path : Text) (t0 : List Event) → Calm cfg t0 (await_path h cfg n path)
  unfolding await_path
  await_path-Calm zero path t0 = done cfg t0
  await_path-Calm (suc n) path t0 =
      Calm-bind cfg t0 (exists h path) _ (exists-Calm h cfg t0 path)
        (by (await_path-Calm n path t0))
    where
      by :
          Calm cfg t0 (await_path h cfg n path)
          → (b : Bool)
          → Calm cfg t0 (elim b as (λ x. Step S (Unit {0})) [
            | true ↦ pure tt
            | false ↦ await_path h cfg n path
          ])
      by k true = done cfg t0
      by k false = k

  require_path-Calm :
      (path : Text) (b : Bool) (t0 : List Event) → Calm cfg t0 (require_path h cfg path b)
  require_path-Calm path true t0 = done cfg t0
  require_path-Calm path false t0 =
      fail-Fine cfg t0 (Unit {0}) (λ _ _. Unit) (Failure.no_partition path)

  make_partition-Calm :
      (id : Text) (t0 : List Event) → TakenAsBlank cfg id t0 → Calm cfg t0 (make_partition h cfg id)
  unfolding make_partition
  make_partition-Calm id t0 seen =
      Calm-bind cfg t0 (state Phase.format_phase (Message.partitioning id)) _
        (state-Calm cfg t0 Phase.format_phase (Message.partitioning id))
        (λ _.
          Calm-bind cfg t0 (run_ok h (zap_call (dev cfg id))) _
            (run_ok-allowed h cfg t0 (zap_call (dev cfg id)) zap_allowed)
            (λ _.
              Calm-bind cfg t0 (run_ok h (partition_call cfg (dev cfg id))) _
                (run_ok-Calm h cfg t0 _ (partition_harmless cfg (dev cfg id)))
                (λ _. Calm-bind cfg t0 (settle h) _ (settle-Calm h cfg t0) (λ _.
                  Calm-bind cfg t0 (await_path h cfg 60 (part1 cfg id)) _
                    (await_path-Calm 60 (part1 cfg id) t0)
                    (λ _.
                      Calm-bind cfg t0 (exists h (part1 cfg id)) _
                        (exists-Calm h cfg t0 (part1 cfg id))
                        (λ there. require_path-Calm (part1 cfg id) there t0))))))
    where
      zap_allowed : (t : List Event) → Extends t0 t → IsAllowed cfg (zap_call (dev cfg id)) t
      zap_allowed t e =
          erases-IsAllowed cfg (zap_call (dev cfg id)) (dev cfg id) t (erases-zap (dev cfg id))
            (blank_disk id refl (TakenAsBlank-Extends cfg id t0 t e seen))

  -- The new volume is formatted and opened.
  make_luks-Fine :
      (id passphrase : Text) (t0 : List Event)
      → TakenAsBlank cfg id t0
      → Fine cfg t0 (λ _ t. OpenedNew cfg id t) (make_luks h cfg id passphrase)
  unfolding make_luks
  make_luks-Fine id passphrase t0 seen =
      Fine-bind cfg t0 (λ _ _. Unit) _ (state Phase.format_phase (Message.making_luks id)) _
        (state-Calm cfg t0 Phase.format_phase (Message.making_luks id))
        (λ _ t1 e1 q.
          Fine-bind cfg t1 (λ _ _. Unit) _
            (run_with_stdin h (luks_format_call (part1 cfg id) passphrase)) _
            (forget h cfg t1 _ (run_with_stdin h (luks_format_call (part1 cfg id) passphrase)) (
              run_with_stdin-Fine h cfg t1 (luks_format_call (part1 cfg id) passphrase)
                (format_allowed t1 e1)))
            (λ _ t2 e2 q2. open_new t2))
    where
      format_allowed :
          (t1 : List Event)
          → Extends t0 t1
          → (t : List Event) → Extends t1 t
          → IsAllowed cfg (luks_format_call (part1 cfg id) passphrase) t
      format_allowed t1 e1 t e =
          erases-IsAllowed cfg (luks_format_call (part1 cfg id) passphrase) (part1 cfg id) t
            (erases-luks_format (part1 cfg id) passphrase)
            (blank_partition id refl
              (TakenAsBlank-Extends cfg id t0 t (Extends-trans t0 t1 t e1 e) seen))

      open_new :
          (t2 : List Event)
          → Fine cfg t2
              (λ _ t. OpenedNew cfg id t)
              (run_with_stdin h (luks_open_new_call cfg (part1 cfg id) passphrase))
      open_new t2 =
          weaken h cfg t2 _ (λ _ t. OpenedNew cfg id t)
            (run_with_stdin h (luks_open_new_call cfg (part1 cfg id) passphrase))
            (λ _ t (out, errors, m). (passphrase, out, errors, m))
            (run_with_stdin-Fine h cfg t2 (luks_open_new_call cfg (part1 cfg id) passphrase)
              (λ t e. harmless cfg _ t (luks_open_new_harmless cfg (part1 cfg id) passphrase)))

  make_fs-Calm :
      (t0 : List Event)
      → ((t : List Event) → Extends t0 t → Cause cfg (mapper_dev cfg) t)
      → Calm cfg t0 (make_fs h cfg)
  unfolding make_fs
  make_fs-Calm t0 cause =
      Calm-bind cfg t0 (state Phase.format_phase Message.making_fs) _
        (state-Calm cfg t0 Phase.format_phase Message.making_fs)
        (λ _.
          Calm-bind cfg t0 (run_ok h (mkfs_call cfg)) (λ _. settle h)
            (run_ok-allowed h cfg t0 (mkfs_call cfg) (λ t e. mkfs-IsAllowed cfg t (cause t e)))
            (λ _. settle-Calm h cfg t0))

  -- The formatting of a disk that was taken for blank.
  pub format_encrypted-Calm :
      (id passphrase : Text) (t0 : List Event)
      → TakenAsBlank cfg id t0
      → Calm cfg t0 (format_encrypted h cfg id passphrase)
  unfolding format_encrypted
  format_encrypted-Calm id passphrase t0 seen =
      Calm-bind cfg t0 (make_partition h cfg id) _ (make_partition-Calm id t0 seen) (λ _.
        Fine-bind cfg t0 (λ _ t. OpenedNew cfg id t) (λ _ _. Unit) (make_luks h cfg id passphrase) _
          (make_luks-Fine id passphrase t0 seen)
          (λ _ t1 e1 opened. make_fs-Calm t1 (λ t e.
            new_volume id refl (TakenAsBlank-Extends cfg id t0 t (Extends-trans t0 t1 t e1 e) seen)
              (OpenedNew-Extends cfg id t1 t e opened))))

  pub create_var_subvol-Calm : (t0 : List Event) → Calm cfg t0 (create_var_subvol h cfg)
  unfolding create_var_subvol
  create_var_subvol-Calm t0 =
      Calm-bind cfg t0 (create_dir_all h new_var_fs) _ (create_dir_all-Calm h cfg t0 new_var_fs)
        (λ _.
          Calm-bind cfg t0 (run_ok h (mount_call (mapper_dev cfg) new_var_fs)) _
            (run_ok-Calm h cfg t0 _ (mount_harmless (mapper_dev cfg) new_var_fs))
            (λ _.
              Calm-bind cfg t0 (run_ok h (subvolume_call (codes "create") new_var)) _
                (run_ok-Calm h cfg t0 _ (subvolume_harmless (codes "create") new_var))
                (λ _.
                  Calm-bind cfg t0 (run_ok h (umount_call new_var_fs)) _
                    (run_ok-Calm h cfg t0 _ (umount_harmless new_var_fs)) (λ _. done cfg t0))))

  pub provision-Calm :
      (id : Text) (t0 : List Event) → TakenAsBlank cfg id t0 → Calm cfg t0 (provision h cfg id)
  unfolding provision
  provision-Calm id t0 seen =
      Calm-bind cfg t0 (state Phase.provision_phase Message.provisioning) _
        (state-Calm cfg t0 Phase.provision_phase Message.provisioning)
        (λ _.
          Calm-bind cfg t0 (ask_new_passphrase cfg) _ (ask_new_passphrase-Calm cfg t0)
            (λ passphrase.
              Calm-bind cfg t0 (format_encrypted h cfg id passphrase) _
                (format_encrypted-Calm id passphrase t0 seen)
                (λ _.
                  Calm-bind cfg t0 (create_var_subvol h cfg)
                    (λ _. state Phase.provision_phase Message.provisioned)
                    (create_var_subvol-Calm t0)
                    (λ _. state-Calm cfg t0 Phase.provision_phase Message.provisioned))))
