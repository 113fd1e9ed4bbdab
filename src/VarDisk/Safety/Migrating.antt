-- ===== src/VarDisk/Safety/Migrating.antt =====
-- The migration erases only the disk that was taken for blank.
use foundrix.Base.{
  ℕ, ◌≡◌, refl, ltb, ◌==◌, if◌then◌else◌, Bool, true, false, List, [], ◌∷◌, Option, none, some,
  Text, codes,
}
use foundrix.VarDisk.Classify.{parse_btrfs_used}
use foundrix.VarDisk.Commands.{
  Cfg, Invocation, dev, part1, mapper_dev, mount_call, umount_call, fs_usage_call, subvolume_call,
  snapshot_call, sync_call, luks_close_call,
}
use foundrix.VarDisk.World.{
  arrived, Step, Event, Chunk, unread, piece, Copy, not_started, pumped, Phase, Message, Reason,
  pure, ◌>>=◌, ◌>>◌, Host, World,
}
use foundrix.VarDisk.Host.{
  mutate, state, progress, ask_new_passphrase, block_forever, exec_step, run_ok, create_dir_all,
}
use foundrix.VarDisk.Format.{format_encrypted}
use foundrix.VarDisk.Unlock.{add_u64, blockdev_bytes, subvol_exists}
use foundrix.VarDisk.Migrate.{
  size_headroom, old_dir, new_dir, old_source, new_source, update_if, pump, copy_end, copy_of,
  copy_with_progress, clean_leftover, abort, used_or_abort, require_room, inspect, transfer,
  clean_up, migrate,
}
use foundrix.VarDisk.Safety.{IsSafe, Extends, TakenAsBlank, Good, Fine, Calm, Calm-bind, Fine-bind}
use foundrix.VarDisk.Safety.Outcomes.{run_ok-Calm}
use foundrix.VarDisk.Safety.Steps.{
  done, exec_step-Calm, create_dir_all-Calm, state-Calm, block_forever-Calm, block_forever-Fine,
  pure-Fine,
}
use foundrix.VarDisk.Safety.Harmless.{
  luks_close_harmless, mount_harmless, umount_harmless, fs_usage_harmless, subvolume_harmless,
  snapshot_harmless, sync_harmless,
}
use foundrix.VarDisk.Safety.Answers.{ask_new_passphrase-Calm}
use foundrix.VarDisk.Safety.Formatting.{format_encrypted-Calm}
use foundrix.VarDisk.Safety.Opening.{blockdev_bytes-Calm, subvol_exists-Calm}

module _ {S : Type 0} where
  -- The pump shows progress and runs nothing that is traced.
  pump-trace :
      (total : ℕ) (chunks : List Chunk) (copied : ℕ) (w : World S)
      → (pump total chunks copied w).1.trace ≡ w.trace
  unfolding pump progress mutate
  pump-trace total [] copied w = refl
  pump-trace total (unread ∷ chunks) copied w = refl
  pump-trace total (piece n written shown ∷ chunks) copied w =
      by (n == 0) written shown (λ v. pump-trace total chunks (add_u64 copied n) v)
    where
      by :
          (b c d : Bool)
          → ((v : World S) → (pump total chunks (add_u64 copied n) v).1.trace ≡ v.trace)
          → (if b
              then (true, w)
              else if c
              then pump total chunks (add_u64 copied n) (update_if d (add_u64 copied n) total w)
              else (false, w)).1.trace
            ≡ w.trace
      by true c d ih = refl
      by false true true ih = ih _
      by false true false ih = ih w
      by false false d ih = refl

module _ {S : Type 0} (h : Host S) (cfg : Cfg) (t0 : List Event) where
  copy_end-Good :
      (total : ℕ) (sent received b : Bool) (w : World S)
      → IsSafe cfg w.trace
      → Extends t0 w.trace
      → Good cfg t0 (λ _ _. Unit) (copy_end total sent received (b, w))
  unfolding copy_end progress mutate
  copy_end-Good total sent received false w s e = (s, e)
  copy_end-Good total false received true w s e = (s, e)
  copy_end-Good total true false true w s e = (s, e)
  copy_end-Good total true true true w s e = (s, e, tt)

  copy_of-Calm : (total : ℕ) (c : Copy) → Calm {S = S} cfg t0 (copy_of total c)
  copy_of-Calm total not_started w s e = (s, e)
  copy_of-Calm total (pumped chunks sent received) w s e =
      copy_end-Good total sent received _ (pump total chunks 0 w).1
        (rw (pump-trace total chunks 0 w) s) (rw (pump-trace total chunks 0 w) e)

  copy_with_progress-Calm : (total : ℕ) → Calm cfg t0 (copy_with_progress h cfg total)
  unfolding copy_with_progress
  copy_with_progress-Calm total w s e =
      copy_of-Calm total (h.copy w.host).0 (record w { host = (h.copy w.host).1 }) s e

  pub clean_leftover-Calm : (b : Bool) → Calm cfg t0 (clean_leftover h cfg b)
  unfolding clean_leftover
  clean_leftover-Calm false = done cfg t0
  clean_leftover-Calm true =
      Calm-bind cfg t0 (run_ok h (subvolume_call (codes "delete") old_source)) _
        (run_ok-Calm h cfg t0 _ (subvolume_harmless (codes "delete") old_source))
        (λ _.
          Calm-bind cfg t0 (run_ok h sync_call) (λ _. pure tt)
            (run_ok-Calm h cfg t0 _ sync_harmless) (λ _. done cfg t0))

  pub abort-Fine :
      (A : Type 0) (Q : A → List Event → Type 0) (reason : Reason)
      → Fine cfg t0 Q (abort h cfg {A = A} reason)
  unfolding abort
  abort-Fine A Q reason =
      Fine-bind cfg t0 (λ _ _. Unit) Q (exec_step h (umount_call old_dir))
        (λ _. block_forever {A = A} reason) (exec_step-Calm h cfg t0 _ (umount_harmless old_dir))
        (λ _ t e u. block_forever-Fine cfg t A Q reason)

  abort-Calm : (A : Type 0) (reason : Reason) → Calm cfg t0 (abort h cfg {A = A} reason)
  abort-Calm A reason = abort-Fine A (λ _ _. Unit) reason

  used_or_abort-Calm : (o : Option ℕ) → Calm cfg t0 (used_or_abort h cfg o)
  used_or_abort-Calm none = abort-Calm ℕ Reason.used_unknown
  used_or_abort-Calm (some n) = pure-Fine cfg t0 (λ _ _. Unit) n (λ t e. tt)

  require_room-Calm : (used target : ℕ) → Calm cfg t0 (require_room h cfg used target)
  unfolding require_room
  require_room-Calm used target = by (ltb target (add_u64 used size_headroom))
    where
      by :
          (b : Bool)
          → Calm cfg t0 (
              if◌then◌else◌ {A = Step S (Unit {0})} b
                (abort h cfg (Reason.too_small target (add_u64 used size_headroom)))
                (pure tt))
      by true = abort-Calm (Unit {0}) (Reason.too_small target (add_u64 used size_headroom))
      by false = done cfg t0

  inspect-Calm : (legacy_id blank_id : Text) → Calm cfg t0 (inspect h cfg legacy_id blank_id)
  unfolding inspect
  inspect-Calm legacy_id blank_id =
      Calm-bind cfg t0 (create_dir_all h old_dir) _ (create_dir_all-Calm h cfg t0 old_dir) (λ _.
        Calm-bind cfg t0 (create_dir_all h new_dir) _ (create_dir_all-Calm h cfg t0 new_dir) (λ _.
          Calm-bind cfg t0 (state Phase.migrate_phase Message.inspecting) _
            (state-Calm cfg t0 Phase.migrate_phase Message.inspecting)
            (λ _.
              Calm-bind cfg t0 (run_ok h (mount_call (part1 cfg legacy_id) old_dir)) _
                (run_ok-Calm h cfg t0 _ (mount_harmless (part1 cfg legacy_id) old_dir))
                (λ _.
                  Calm-bind cfg t0 (subvol_exists h cfg old_source) _
                    (subvol_exists-Calm h cfg t0 old_source)
                    (λ b.
                      Calm-bind cfg t0 (clean_leftover h cfg b) (λ _. measure)
                        (clean_leftover-Calm b) (λ _. measure-Calm))))))
    where
      room : ℕ → Step S ℕ
      room used = blockdev_bytes h cfg (dev cfg blank_id) >>= λ target.
          (require_room h cfg used target >> pure used)

      measure : Step S ℕ
      measure = run_ok h (fs_usage_call old_dir) >>= λ usage.
          (used_or_abort h cfg (parse_btrfs_used usage) >>= room)

      room-Calm : (used : ℕ) → Calm cfg t0 (room used)
      room-Calm used =
          Calm-bind cfg t0 (blockdev_bytes h cfg (dev cfg blank_id))
            (λ target. (require_room h cfg used target >> pure used))
            (blockdev_bytes-Calm h cfg t0 (dev cfg blank_id))
            (λ target.
              Calm-bind cfg t0 (require_room h cfg used target) (λ _. pure used)
                (require_room-Calm used target)
                (λ _. pure-Fine cfg t0 (λ _ _. Unit) used (λ t e. tt)))

      measure-Calm : Calm cfg t0 measure
      measure-Calm =
          Calm-bind cfg t0 (run_ok h (fs_usage_call old_dir))
            (λ usage. (used_or_abort h cfg (parse_btrfs_used usage) >>= room))
            (run_ok-Calm h cfg t0 _ (fs_usage_harmless old_dir))
            (λ usage.
              Calm-bind cfg t0 (used_or_abort h cfg (parse_btrfs_used usage)) room
                (used_or_abort-Calm (parse_btrfs_used usage)) room-Calm)

  transfer-Calm : (used : ℕ) → Calm cfg t0 (transfer h cfg used)
  unfolding transfer
  transfer-Calm used =
      Calm-bind cfg t0 (state Phase.migrate_phase Message.copying) _
        (state-Calm cfg t0 Phase.migrate_phase Message.copying)
        (λ _.
          Calm-bind cfg t0 (run_ok h first) _ (run_ok-Calm h cfg t0 first (snapshot_harmless _))
            (λ _.
              Calm-bind cfg t0 (run_ok h sync_call) _ (run_ok-Calm h cfg t0 _ sync_harmless) (λ _.
                Calm-bind cfg t0 (run_ok h (mount_call (mapper_dev cfg) new_dir)) _
                  (run_ok-Calm h cfg t0 _ (mount_harmless (mapper_dev cfg) new_dir))
                  (λ _.
                    Calm-bind cfg t0 (copy_with_progress h cfg used) (λ _. settled)
                      (copy_with_progress-Calm used) (λ _. settled-Calm)))))
    where
      first : Invocation
      first = snapshot_call (codes "-r" ∷ codes "/old/var" ∷ old_source ∷ [])

      second : Invocation
      second = snapshot_call (new_source ∷ codes "/new/var" ∷ [])

      settled : Step S (Unit {0})
      settled =
          run_ok h second >> (run_ok h (subvolume_call (codes "delete") new_source) >> pure tt)

      settled-Calm : Calm cfg t0 settled
      settled-Calm =
          Calm-bind cfg t0 (run_ok h second)
            (λ _. (run_ok h (subvolume_call (codes "delete") new_source) >> pure tt))
            (run_ok-Calm h cfg t0 second (snapshot_harmless _))
            (λ _.
              Calm-bind cfg t0 (run_ok h (subvolume_call (codes "delete") new_source))
                (λ _. pure tt)
                (run_ok-Calm h cfg t0 _ (subvolume_harmless (codes "delete") new_source))
                (λ _. done cfg t0))

  clean_up-Calm : (legacy_id : Text) → Calm cfg t0 (clean_up h cfg legacy_id)
  unfolding clean_up mutate
  clean_up-Calm legacy_id =
      Calm-bind cfg t0 (state Phase.migrate_phase Message.cleaning_up) _
        (state-Calm cfg t0 Phase.migrate_phase Message.cleaning_up)
        (λ _.
          Calm-bind cfg t0 (run_ok h (subvolume_call (codes "delete") old_source)) _
            (run_ok-Calm h cfg t0 _ (subvolume_harmless (codes "delete") old_source))
            (λ _.
              Calm-bind cfg t0 (run_ok h sync_call) _ (run_ok-Calm h cfg t0 _ sync_harmless) (λ _.
                Calm-bind cfg t0 (run_ok h (umount_call new_dir)) _
                  (run_ok-Calm h cfg t0 _ (umount_harmless new_dir))
                  (λ _.
                    Calm-bind cfg t0 (run_ok h (umount_call old_dir)) _
                      (run_ok-Calm h cfg t0 _ (umount_harmless old_dir))
                      (λ _.
                        Calm-bind cfg t0 (run_ok h (luks_close_call cfg)) (λ _. completed)
                          (run_ok-Calm h cfg t0 _ (luks_close_harmless cfg))
                          (λ _. completed-Calm))))))
    where
      cleared : Step S (Unit {0})
      cleared w = arrived tt (mutate (λ s. record s { progress = none }) w)

      completed : Step S (Unit {0})
      completed = cleared >> block_forever (Reason.migration_complete legacy_id)

      completed-Calm : Calm cfg t0 completed
      completed-Calm =
          Calm-bind cfg t0 cleared
            (λ _. block_forever {A = Unit {0}} (Reason.migration_complete legacy_id))
            (λ w s e. (s, e, tt))
            (λ _. block_forever-Calm cfg t0 (Unit {0}) (Reason.migration_complete legacy_id))

  -- A migration erases only the disk that was taken for blank.
  pub migrate-Calm :
      (legacy_id blank_id : Text)
      → TakenAsBlank cfg blank_id t0
      → Calm cfg t0 (migrate h cfg legacy_id blank_id)
  unfolding migrate
  migrate-Calm legacy_id blank_id seen =
      Calm-bind cfg t0 (inspect h cfg legacy_id blank_id) _ (inspect-Calm legacy_id blank_id)
        (λ used.
          Calm-bind cfg t0 (ask_new_passphrase cfg) _ (ask_new_passphrase-Calm cfg t0)
            (λ passphrase.
              Calm-bind cfg t0 (format_encrypted h cfg blank_id passphrase) _
                (format_encrypted-Calm h cfg blank_id passphrase t0 seen)
                (λ _.
                  Calm-bind cfg t0 (transfer h cfg used) (λ _. clean_up h cfg legacy_id)
                    (transfer-Calm used) (λ _. clean_up-Calm legacy_id))))
