-- ===== src/VarDisk/Safety/Room.antt =====
-- The migration goes on only to a disk that has room for what the old volume uses.
use foundrix.Base.{
  ℕ, ◌+◌, ◌%◌, ◌^◌, ◌≤◌, ◌≡◌, refl, arith, ltb, if◌then◌else◌, Bool, true, false, List, Option,
  none, some, Text, trim,
}
use foundrix.VarDisk.Classify.{parse_btrfs_used, parse_u64}
use foundrix.VarDisk.Commands.{Cfg, Invocation, dev, part1, size_call, mount_call, fs_usage_call}
use foundrix.VarDisk.World.{
  arrived, blocks, waits, failed, no_fuel, Step, Event, Failure, Phase, Message, Reason, pure,
  ◌>>=◌, ◌>>◌, Host, World, Progress,
}
use foundrix.VarDisk.Host.{state, run_ok, create_dir_all}
use foundrix.VarDisk.Unlock.{add_u64, number_or_fail, blockdev_bytes, subvol_exists}
use foundrix.VarDisk.Migrate.{
  size_headroom, old_dir, new_dir, old_source, clean_leftover, abort, used_or_abort, require_room,
  inspect,
}
use foundrix.VarDisk.Safety.{
  Happened-Extends, IsSafe, Extends, Extends-refl, Extends-trans, Good, Fine, Calm, Fine-bind,
}
use foundrix.VarDisk.Safety.Outcomes.{Succeeded, harmless, run_ok-Fine, run_ok-Calm}
use foundrix.VarDisk.Safety.Steps.{create_dir_all-Calm, state-Calm, pure-Fine, fail-Fine}
use foundrix.VarDisk.Safety.Harmless.{size_harmless, mount_harmless, fs_usage_harmless}
use foundrix.VarDisk.Safety.Opening.{subvol_exists-Calm}
use foundrix.VarDisk.Safety.Migrating.{clean_leftover-Calm, abort-Fine}

Succeeded-Extends :
    (i : Invocation) (out : Text) (t0 t : List Event)
    → Extends t0 t
    → Succeeded i out t0
    → Succeeded i out t
Succeeded-Extends i out t0 t e (errors, written, m) = (errors, written, Happened-Extends _ t0 t e m)

-- The size of a device was asked for, and this was the answer.
abbrev pub HasSize : Text → ℕ → List Event → Type 0
HasSize path n t = (out : Text) × Succeeded (size_call path) out t × (parse_u64 (trim out) ≡ some n)

-- The used bytes of the old volume were asked for, and this was the answer.
abbrev pub HasUsed : ℕ → List Event → Type 0
HasUsed n t =
    (out : Text) × Succeeded (fs_usage_call old_dir) out t × (parse_btrfs_used out ≡ some n)

-- The new disk has room for the used bytes and the headroom, as a sum of u64.
abbrev pub HasRoom : Cfg → Text → ℕ → List Event → Type 0
HasRoom cfg blank_id used t =
    HasUsed used t
    × ((target : ℕ) × HasSize (dev cfg blank_id) target t × ((used + 2 ^ 30) % 2 ^ 64 ≤ target))

module _ {S : Type 0} (h : Host S) (cfg : Cfg) where
  number-Fine :
      (path out : Text) (o : Option ℕ) (t0 : List Event)
      → Succeeded (size_call path) out t0
      → parse_u64 (trim out) ≡ o
      → Fine cfg t0 (HasSize path) (number_or_fail {S = S} out o)
  number-Fine path out none t0 m q = fail-Fine cfg t0 ℕ (HasSize path) (Failure.not_a_number out)
  number-Fine path out (some n) t0 m q =
      pure-Fine cfg t0 (HasSize path) n
        (λ t e. (out, Succeeded-Extends (size_call path) out t0 t e m, q))

  blockdev_bytes-Fine :
      (path : Text) (t0 : List Event) → Fine cfg t0 (HasSize path) (blockdev_bytes h cfg path)
  unfolding blockdev_bytes
  blockdev_bytes-Fine path t0 =
      Fine-bind cfg t0 (Succeeded (size_call path)) (HasSize path) (run_ok h (size_call path))
        (λ out. number_or_fail out (parse_u64 (trim out)))
        (run_ok-Fine h cfg t0 (size_call path)
          (λ t e. harmless cfg (size_call path) t (size_harmless path)))
        (λ out t e m. number-Fine path out (parse_u64 (trim out)) t m refl)

  used-Fine :
      (usage : Text) (o : Option ℕ) (t0 : List Event)
      → Succeeded (fs_usage_call old_dir) usage t0
      → parse_btrfs_used usage ≡ o
      → Fine cfg t0 HasUsed (used_or_abort h cfg o)
  used-Fine usage none t0 m q = abort-Fine h cfg t0 ℕ HasUsed Reason.used_unknown
  used-Fine usage (some n) t0 m q =
      pure-Fine cfg t0 HasUsed n
        (λ t e. (usage, Succeeded-Extends (fs_usage_call old_dir) usage t0 t e m, q))

  require_room-Fine :
      (used target : ℕ) (t0 : List Event)
      → Fine cfg t0 (λ _ _. (used + 2 ^ 30) % 2 ^ 64 ≤ target) (require_room h cfg used target)
  unfolding require_room
  require_room-Fine used target t0 = by (ltb target (add_u64 used size_headroom)) refl
    where
      by :
          (b : Bool)
          → ltb target (add_u64 used size_headroom) ≡ b
          → Fine cfg t0
              (λ _ _. (used + 2 ^ 30) % 2 ^ 64 ≤ target)
              (if◌then◌else◌ {A = Step S (Unit {0})} b
                (abort h cfg (Reason.too_small target (add_u64 used size_headroom)))
                (pure tt))
      by true q =
          abort-Fine h cfg t0 (Unit {0}) (λ _ _. (used + 2 ^ 30) % 2 ^ 64 ≤ target)
            (Reason.too_small target (add_u64 used size_headroom))
      by false q = λ w s e. (s, e, ground (arith, q))

  inspect-Fine :
      (legacy_id blank_id : Text) (t0 : List Event)
      → Fine cfg t0 (HasRoom cfg blank_id) (inspect h cfg legacy_id blank_id)
  unfolding inspect
  inspect-Fine legacy_id blank_id t0 =
      after (create_dir_all h old_dir) _ t0 (create_dir_all-Calm h cfg t0 old_dir) (λ _ t1.
        after (create_dir_all h new_dir) _ t1 (create_dir_all-Calm h cfg t1 new_dir) (λ _ t2.
          after (state Phase.migrate_phase Message.inspecting) _ t2
            (state-Calm cfg t2 Phase.migrate_phase Message.inspecting)
            (λ _ t3.
              after (run_ok h (mount_call (part1 cfg legacy_id) old_dir)) _ t3
                (run_ok-Calm h cfg t3 _ (mount_harmless (part1 cfg legacy_id) old_dir))
                (λ _ t4.
                  after (subvol_exists h cfg old_source) _ t4
                    (subvol_exists-Calm h cfg t4 old_source)
                    (λ b t5.
                      after (clean_leftover h cfg b) (λ _. measure) t5
                        (clean_leftover-Calm h cfg t5 b) (λ _ t6. measure-Fine t6))))))
    where
      after :
          {A : Type 0} (m : Step S A) (f : A → Step S ℕ) (t : List Event)
          → Calm cfg t m
          → ((a : A) (t1 : List Event) → Fine cfg t1 (HasRoom cfg blank_id) (f a))
          → Fine cfg t (HasRoom cfg blank_id) (m >>= f)
      after m f t c k =
          Fine-bind cfg t (λ _ _. Unit) (HasRoom cfg blank_id) m f c (λ a t1 e u. k a t1)

      room : ℕ → Step S ℕ
      room used = blockdev_bytes h cfg (dev cfg blank_id) >>= λ target.
          (require_room h cfg used target >> pure used)

      measure : Step S ℕ
      measure = run_ok h (fs_usage_call old_dir) >>= λ usage.
          (used_or_abort h cfg (parse_btrfs_used usage) >>= room)

      room-Fine :
          (used : ℕ) (t : List Event)
          → HasUsed used t
          → Fine cfg t (HasRoom cfg blank_id) (room used)
      room-Fine used t (out, m, q) =
          Fine-bind cfg t (HasSize (dev cfg blank_id)) (HasRoom cfg blank_id)
            (blockdev_bytes h cfg (dev cfg blank_id))
            (λ target. (require_room h cfg used target >> pure used))
            (blockdev_bytes-Fine (dev cfg blank_id) t)
            (λ target t1 e1 (size, n, r).
              Fine-bind cfg t1 (λ _ _. (used + 2 ^ 30) % 2 ^ 64 ≤ target) (HasRoom cfg blank_id)
                (require_room h cfg used target) (λ _. pure used) (require_room-Fine used target t1)
                (λ _ t2 e2 le. pure-Fine cfg t2 (HasRoom cfg blank_id) used (λ t3 e3. (
                  (
                    out,
                    Succeeded-Extends (fs_usage_call old_dir) out t t3
                        (Extends-trans t t1 t3 e1 (Extends-trans t1 t2 t3 e2 e3)) m,
                    q,
                  ),
                  (
                    target,
                    (
                      size,
                      Succeeded-Extends (size_call (dev cfg blank_id)) size t1 t3
                          (Extends-trans t1 t2 t3 e2 e3) n,
                      r,
                    ),
                    le,
                  ),
                ))))

      measure-Fine : (t : List Event) → Fine cfg t (HasRoom cfg blank_id) measure
      measure-Fine t =
          Fine-bind cfg t (Succeeded (fs_usage_call old_dir)) (HasRoom cfg blank_id)
            (run_ok h (fs_usage_call old_dir))
            (λ usage. (used_or_abort h cfg (parse_btrfs_used usage) >>= room))
            (run_ok-Fine h cfg t (fs_usage_call old_dir)
              (λ t1 e. harmless cfg (fs_usage_call old_dir) t1 (fs_usage_harmless old_dir)))
            (λ usage t1 e m.
              Fine-bind cfg t1 HasUsed (HasRoom cfg blank_id)
                (used_or_abort h cfg (parse_btrfs_used usage)) room
                (used-Fine usage (parse_btrfs_used usage) t1 m refl)
                (λ used t2 e2 u. room-Fine used t2 u))

-- What an inspection that comes to its end has seen.
abbrev pub SeesRoom : {S : Type 0} → Cfg → Text → Progress S ℕ → Type 0
SeesRoom cfg blank_id (arrived used w) = HasRoom cfg blank_id used w.trace
SeesRoom cfg blank_id (blocks w) = Unit
SeesRoom cfg blank_id (waits w) = Unit
SeesRoom cfg blank_id (failed e w) = Unit
SeesRoom cfg blank_id no_fuel = ⊥

-- From a safe trace and whatever the host does: the inspection before a migration comes to its end, and
-- so to the passphrase and the format, only if it was told the used bytes of the old volume and the
-- size of the new disk, and the size is at least the used bytes and one GiB, as a sum of u64.
pub inspect-SeesRoom :
    {S : Type 0} (h : Host S) (cfg : Cfg) (legacy_id blank_id : Text) (w : World S)
    → IsSafe cfg w.trace
    → SeesRoom cfg blank_id (inspect h cfg legacy_id blank_id w)
inspect-SeesRoom {S} h cfg legacy_id blank_id w s =
    by (inspect h cfg legacy_id blank_id w)
      (inspect-Fine h cfg legacy_id blank_id w.trace w s (Extends-refl w.trace))
  where
    by : (p : Progress S ℕ) → Good cfg w.trace (HasRoom cfg blank_id) p → SeesRoom cfg blank_id p
    by (arrived used w1) (s1, e1, q) = q
    by (blocks w1) g = tt
    by (waits w1) g = tt
    by (failed e w1) g = tt
    by no_fuel g = g
