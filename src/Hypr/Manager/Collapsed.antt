-- ===== src/Hypr/Manager/Collapsed.antt =====
-- packages/hypr-workspaced/src/workspace.rs, `collapse`: which windows are gathered on the active
-- workspace.
use mathlib.Core.Option.{map as Option_map}
use foundrix.Base.{ℕ, ◌==◌, Bool, not, ◌&&◌, Option, none, some, if◌then◌else◌, pos, leb_ℤ}
use foundrix.Hypr.Ids.{VirtualWorkspace, WorkspaceId, workspace_of, is_valid_workspace}
use foundrix.Hypr.Ipc.{CollapseMode, all, invisible}
use foundrix.Hypr.Request.{Request}
use foundrix.Hypr.Session.{Hyprland}
use foundrix.Hypr.Manager.{WorkspaceManager}
use foundrix.Hypr.Manager.Sync.{should_move}
use foundrix.Hypr.Manager.Placed.{Places, Compositor}

-- Where the window of a workspace is after a collapse to `active`, which shows `v`.
abbrev pub gathered : CollapseMode → VirtualWorkspace → WorkspaceId → ℕ → WorkspaceId → WorkspaceId
gathered all v active count w = elim (workspace_of w) [
  | none ↦ w
  | some u ↦ if u == v then active else w
]
gathered invisible v active count w =
    if not (leb_ℤ w (pos 0)) && not (is_valid_workspace w count) then active else w

module _ {S : Type 0} (h : Hyprland S) (place : S → Places) (laws : Compositor h place)
    (m : WorkspaceManager) where
  abbrev moves : CollapseMode → VirtualWorkspace → WorkspaceId → ℕ → WorkspaceId → Bool
  moves mode v active count w = not (leb_ℤ w (pos 0)) && should_move h m mode v active count w
