-- ===== src/Hypr/Ids.antt =====
-- packages/hypr-workspaced/src/workspace.rs: virtual workspaces, monitor slots, and the workspace
-- numbers of Hyprland that stand for a pair of them. A VirtualWorkspace and a MonitorSlot are u8.
pub mod Laws
use foundrix.Base.{
  ℕ, ◌+◌, ◌-◌, ◌*◌, ◌/◌, ◌%◌, ◌≤◌, Bool, true, false, ◌&&◌, ◌||◌, Option, none, some, leb, ltb,
  ◌==◌, if◌then◌else◌, ℤ, pos, negsuc, Result, ok, err,
}

abbrev pub VirtualWorkspace : Type 0
VirtualWorkspace = ℕ

abbrev pub MonitorSlot : Type 0
MonitorSlot = ℕ

-- An i32 of Hyprland.
abbrev pub WorkspaceId : Type 0
WorkspaceId = ℤ

-- `VirtualWorkspace::new`; the error carries the number.
unfoldable pub new : ℕ → Result VirtualWorkspace ℕ
new n = if leb 1 n && leb n 9 then ok n else err n

unfoldable pub next : VirtualWorkspace → VirtualWorkspace
next v = v % 9 + 1

unfoldable pub prev : VirtualWorkspace → VirtualWorkspace
prev v = (v + 7) % 256 % 9 + 1

unfoldable pub hyprland_id : VirtualWorkspace → MonitorSlot → WorkspaceId
hyprland_id v slot = pos (slot * 10 + v)

-- `VirtualWorkspace::from_hyprland_id`
unfoldable pub workspace_of : WorkspaceId → Option VirtualWorkspace
workspace_of (negsuc n) = none
workspace_of (pos n) = if n == 0 || n % 10 == 0 then none else some (((n - 1) % 10 + 1) % 256)

-- `MonitorSlot::from_hyprland_id`
unfoldable pub slot_of : WorkspaceId → MonitorSlot
slot_of (negsuc n) = 0
slot_of (pos n) = if ltb n 10 then 0 else n / 10 % 256

unfoldable pub orphan_workspace_id : MonitorSlot → WorkspaceId
orphan_workspace_id slot = pos (slot * 10)

abbrev pub is_some {ℓ} : {A : Type ℓ} → Option A → Bool
is_some none = false
is_some (some a) = true

unfoldable pub is_valid_workspace : WorkspaceId → ℕ → Bool
unfolding workspace_of slot_of
is_valid_workspace id num_monitors = is_some (workspace_of id) && ltb (slot_of id) num_monitors
