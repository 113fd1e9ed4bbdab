-- ===== src/VarDisk/Migrate/Bounds.antt =====
-- What packages/var-disk-manager/src/bin/daemon.rs shows of the progress of a copy.
use foundrix.Base.{
  ℕ, ◌≤◌, ◌==◌, arith, Bool, true, false, List, [], ◌∷◌, Option, none, some, if◌then◌else◌,
}
use foundrix.VarDisk.World.{
  arrived, blocks, waits, failed, no_fuel, Snapshot, Chunk, unread, piece, Copy, not_started,
  pumped, Host, World, Progress,
}
use foundrix.VarDisk.Host.{mutate, progress}
use foundrix.VarDisk.Commands.{Cfg}
use foundrix.VarDisk.Unlock.{add_u64}
use foundrix.VarDisk.Migrate.{min, update_if, pump, copy_end, copy_of, copy_with_progress}

-- No more is shown as copied than there is.
abbrev pub IsWithin : Option (ℕ × ℕ) → Type 0
IsWithin none = Unit
IsWithin (some (copied, total)) = copied ≤ total

abbrev pub AllWithin : List Snapshot → Type 0
AllWithin [] = Unit
AllWithin (s ∷ sent) = IsWithin s.progress × AllWithin sent

-- The state of the screens and all that was sent to them.
abbrev pub ShowsWithin : {S : Type 0} → World S → Type 0
ShowsWithin w = IsWithin w.snapshot.progress × AllWithin w.sent

abbrev pub EndsWithin : {S A : Type 0} → Progress S A → Type 0
EndsWithin (arrived a w) = ShowsWithin w
EndsWithin (blocks w) = ShowsWithin w
EndsWithin (waits w) = ShowsWithin w
EndsWithin (failed e w) = ShowsWithin w
EndsWithin no_fuel = ⊥

min_le : (a b : ℕ) → min a b ≤ b
min_le a b = ground arith

module _ {S : Type 0} where
  progress-ShowsWithin :
      (copied total : ℕ) (w : World S)
      → copied ≤ total
      → ShowsWithin w
      → ShowsWithin (progress copied total w)
  unfolding progress mutate
  progress-ShowsWithin copied total w le (p, q) = (le, (le, q))

  update_if-ShowsWithin :
      (b : Bool) (copied total : ℕ) (w : World S)
      → ShowsWithin w
      → ShowsWithin (update_if b copied total w)
  update_if-ShowsWithin true copied total w h =
      progress-ShowsWithin (min copied total) total w (min_le copied total) h
  update_if-ShowsWithin false copied total w h = h

  pump-ShowsWithin :
      (total : ℕ) (chunks : List Chunk) (copied : ℕ) (w : World S)
      → ShowsWithin w
      → ShowsWithin (pump total chunks copied w).1
  unfolding pump
  pump-ShowsWithin total [] copied w h = h
  pump-ShowsWithin total (unread ∷ chunks) copied w h = h
  pump-ShowsWithin total (piece n written shown ∷ chunks) copied w h = by (n == 0) written (
      pump-ShowsWithin total chunks (add_u64 copied n) (update_if shown (add_u64 copied n) total w)
        (update_if-ShowsWithin shown (add_u64 copied n) total w h))
    where
      by :
          (b c : Bool)
          → ShowsWithin
              (pump total chunks (add_u64 copied n) (update_if shown (add_u64 copied n) total w)).1
          → ShowsWithin
              (if b
                then (true, w)
                else if c
                then pump total chunks
                    (add_u64 copied n)
                    (update_if shown (add_u64 copied n) total w)
                else (false, w)).1
      by true c k = h
      by false true k = k
      by false false k = h

  copy_end-EndsWithin :
      (total : ℕ) (sent received b : Bool) (w : World S)
      → ShowsWithin w
      → EndsWithin (copy_end total sent received (b, w))
  unfolding copy_end
  copy_end-EndsWithin total sent received false w h = h
  copy_end-EndsWithin total false received true w h = h
  copy_end-EndsWithin total true false true w h = h
  copy_end-EndsWithin total true true true w h = progress-ShowsWithin total total w (omega arith) h

  copy_of-EndsWithin :
      (total : ℕ) (c : Copy) (w : World S) → ShowsWithin w → EndsWithin (copy_of total c w)
  copy_of-EndsWithin total not_started w h = h
  copy_of-EndsWithin total (pumped chunks sent received) w h =
      copy_end-EndsWithin total sent received _ (pump total chunks 0 w).1
        (pump-ShowsWithin total chunks 0 w h)

-- The copy of the migration, however it ends and whatever is read: if no snapshot has shown more bytes
-- as copied than there are, the snapshots that it sends do not either.
pub copy_with_progress-EndsWithin :
    {S : Type 0} (h : Host S) (cfg : Cfg) (total : ℕ) (w : World S)
    → ShowsWithin w
    → EndsWithin (copy_with_progress h cfg total w)
unfolding copy_with_progress
copy_with_progress-EndsWithin h cfg total w k =
    copy_of-EndsWithin total (h.copy w.host).0 (record w { host = (h.copy w.host).1 }) k
