-- ===== src/Hypr/Manager/Swap.antt =====
-- packages/hypr-workspaced/src/workspace.rs, `swap_monitor`: the windows of two neighbouring
-- monitors change places.
use foundrix.Base.{
  ℕ, zero, suc, ◌+◌, List, [], ◌∷◌, Option, none, some, if◌then◌else◌, filter, position, length,
  get_elem?, leb, ltb, codes, pos, eq_ℤ, leb_ℤ, ok, err,
}
use foundrix.Hypr.Ids.{VirtualWorkspace, WorkspaceId, workspace_of}
use foundrix.Hypr.Data.{Monitor, Client}
use foundrix.Hypr.Ipc.{Direction}
use foundrix.Hypr.Request.{Request}
use foundrix.Hypr.Session.{
  Error, Hyprland, Outcome, ◌>>=◌, for_each, send, clients, monitors, active_monitor,
}
use foundrix.Hypr.Manager.{WorkspaceManager, target_of}

-- `sort_by_key(|m| m.x)`, which is stable: by insertion before the first greater one.
unfoldable pub insert_by_x : Monitor → List Monitor → List Monitor
insert_by_x m [] = m ∷ []
insert_by_x m (n ∷ ms) = if leb_ℤ m.x n.x then m ∷ n ∷ ms else n ∷ insert_by_x m ms

unfoldable pub sort_by_x : List Monitor → List Monitor
unfolding insert_by_x
sort_by_x [] = []
sort_by_x (m ∷ ms) = insert_by_x m (sort_by_x ms)

-- The index of the neighbour, if there is one.
unfoldable pub target_idx : Direction → ℕ → ℕ → Option ℕ
target_idx Direction.next idx count = if leb count (idx + 1) then none else some (idx + 1)
target_idx Direction.prev zero count = none
target_idx Direction.prev (suc idx) count = some idx

abbrev pub buffer_ws : WorkspaceId
buffer_ws = pos 999

unfoldable pub on_workspace : WorkspaceId → List Client → List Client
unfolding eq_ℤ
on_workspace id cs = filter (λ (c : Client). eq_ℤ c.workspace id) cs

module _ {S : Type 0} (h : Hyprland S) where
  unfoldable pub move_all : List Client → WorkspaceId → S → Outcome S (Unit {0})
  unfolding for_each send
  move_all cs id = for_each cs (λ (c : Client). send h (Request.move_window_silent c.address id))

  -- The three loops, through the buffer.
  unfoldable pub swap_windows : WorkspaceId → WorkspaceId → List Client → S → Outcome S (Unit {0})
  unfolding move_all on_workspace
  swap_windows ws_a ws_b cs s = move_all (on_workspace ws_a cs) buffer_ws s >>= λ _ s1.
      move_all (on_workspace ws_b cs) ws_a s1 >>= λ _ s2. move_all (on_workspace ws_a cs) ws_b s2

  module _ (m : WorkspaceManager) where
    abbrev pub swap_vws : Monitor → Monitor → Option VirtualWorkspace → S → Outcome S (Unit {0})
    swap_vws focused target none s = (ok tt, s)
    swap_vws focused target (some vws) s = clients h s >>= λ cs s1.
        swap_windows (target_of m vws focused.id) (target_of m vws target.id) cs s1

    abbrev pub swap_with : Monitor → Option Monitor → S → Outcome S (Unit {0})
    swap_with focused none s = (ok tt, s)
    swap_with focused (some target) s =
        swap_vws focused target (workspace_of focused.active_workspace) s

    abbrev pub neighbour : List Monitor → Option ℕ → Option Monitor
    neighbour by_position none = none
    neighbour by_position (some idx) = get_elem? by_position idx

    abbrev pub swap_at : Direction → Monitor → List Monitor → Option ℕ → S → Outcome S (Unit {0})
    swap_at direction focused by_position none s =
        (err (Error.other (codes "Focused monitor not found in list")), s)
    swap_at direction focused by_position (some idx) s =
        swap_with focused (neighbour by_position (target_idx direction idx (length by_position))) s

    abbrev pub swap_from : Direction → Monitor → List Monitor → S → Outcome S (Unit {0})
    swap_from direction focused by_position s =
        swap_at direction focused by_position
          (position (λ (n : Monitor). eq_ℤ n.id focused.id) by_position) s

    -- `swap_monitor`
    unfoldable pub swap_monitor : Direction → S → Outcome S (Unit {0})
    unfolding monitors active_monitor sort_by_x target_idx workspace_of clients target_of
        swap_windows eq_ℤ
    swap_monitor direction s = monitors h s >>= λ ms s1.
        if ltb (length ms) 2
        then (ok tt, s1)
        else active_monitor h s1 >>= λ focused s2. swap_from direction focused (sort_by_x ms) s2
