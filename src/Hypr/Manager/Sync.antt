-- ===== src/Hypr/Manager/Sync.antt =====
-- packages/hypr-workspaced/src/workspace.rs: switching, synchronising and focusing.
use foundrix.Base.{
  ℕ, Bool, false, not, ◌&&◌, ◌||◌, List, Option, none, some, if◌then◌else◌, find, any, leb, length,
  text_eq, ℤ, eq_ℤ, ltb_ℤ, leb_ℤ, ◌+ℤ◌, as_i16, ok, ◌==◌, pos,
}
use foundrix.Hypr.Ids.{VirtualWorkspace, WorkspaceId, workspace_of, next, prev, is_valid_workspace}
use foundrix.Hypr.Data.{Monitor, Client, Workspace, CursorPosition}
use foundrix.Hypr.Layout.{monitor_slot}
use foundrix.Hypr.Ipc.{Direction, CollapseMode, all, invisible}
use foundrix.Hypr.Request.{Request}
use foundrix.Hypr.Session.{
  Hyprland, Outcome, ◌>>=◌, or_warn, for_each, send, clients, monitors, workspaces,
  active_workspace, active_monitor, cursor_position,
}
use foundrix.Hypr.Manager.{WorkspaceManager, target_of, move_pinned_windows}

-- An end of an interval in i16, as a release build adds.
abbrev pub sum_i16 : ℤ → ℤ → ℤ
sum_i16 a b = as_i16 (a +ℤ b)

-- The window lies under the cursor.
unfoldable pub covers : CursorPosition → Client → Bool
unfolding as_i16 ◌+ℤ◌
covers cursor c =
    leb_ℤ c.at_x (as_i16 cursor.x)
    && ltb_ℤ (as_i16 cursor.x) (sum_i16 c.at_x c.size_w)
    && leb_ℤ c.at_y (as_i16 cursor.y)
    && ltb_ℤ (as_i16 cursor.y) (sum_i16 c.at_y c.size_h)

module _ {S : Type 0} (h : Hyprland S) (m : WorkspaceManager) where
  unfoldable pub switch_virtual : VirtualWorkspace → S → Outcome S (Unit {0})
  unfolding active_monitor target_of send
  switch_virtual vws s = active_monitor h s >>= λ focused s1.
      send h (Request.focus_workspace (target_of m vws focused.id)) s1

  unfoldable pub move_to_virtual : VirtualWorkspace → S → Outcome S (Unit {0})
  unfolding active_monitor target_of send
  move_to_virtual vws s = active_monitor h s >>= λ focused s1.
      send h (Request.move_active_window (target_of m vws focused.id)) s1

  unfoldable pub focus_found : Option Client → S → Outcome S (Unit {0})
  unfolding send
  focus_found none s = (ok tt, s)
  focus_found (some c) s = send h (Request.focus_window c.address) s

  -- The window is on a workspace that is shown, and under the cursor.
  unfoldable pub is_under_cursor : VirtualWorkspace → CursorPosition → List Monitor → Client → Bool
  unfolding target_of eq_ℤ covers
  is_under_cursor vws cursor ms c =
      any (λ (monitor : Monitor). eq_ℤ (target_of m vws monitor.id) c.workspace) ms
      && covers cursor c

  unfoldable pub focus_window_under_cursor : VirtualWorkspace → S → Outcome S (Unit {0})
  unfolding cursor_position clients monitors is_under_cursor focus_found
  focus_window_under_cursor vws s = cursor_position h s >>= λ cursor s1. clients h s1 >>= λ cs s2.
      monitors h s2 >>= λ ms s3. focus_found (find (is_under_cursor vws cursor ms) cs) s3

  abbrev pub focus_on : Option VirtualWorkspace → S → Outcome S (Unit {0})
  focus_on none s = (ok tt, s)
  focus_on (some vws) s = focus_window_under_cursor vws s

  unfoldable pub prime_focus : S → Outcome S (Unit {0})
  unfolding active_monitor workspace_of focus_window_under_cursor
  prime_focus s =
      active_monitor h s >>= λ focused s1. focus_on (workspace_of focused.active_workspace) s1

  -- A workspace that is on another monitor is moved first.
  unfoldable pub relocate : WorkspaceId → Monitor → Option Workspace → S → Outcome S (Unit {0})
  unfolding send text_eq
  relocate target monitor none s = (ok tt, s)
  relocate target monitor (some ws) s =
      if not (text_eq ws.monitor monitor.name)
      then send h (Request.move_workspace_to_monitor target monitor.name) s
      else (ok tt, s)

  -- One round of the loop over the monitors. Its failures are warnings.
  unfoldable pub sync_each :
      VirtualWorkspace → WorkspaceId → List Workspace → Monitor → S → Outcome S (Unit {0})
  unfolding target_of eq_ℤ relocate send
  sync_each vws trigger wss monitor s =
      let target = target_of m vws monitor.id in
      if eq_ℤ target trigger || eq_ℤ monitor.active_workspace target
      then (ok tt, s)
      else or_warn (relocate target monitor (find (λ (w : Workspace). eq_ℤ w.id target) wss) s)
          (λ s1. or_warn (send h (Request.focus_workspace target) s1) (λ s2. (ok tt, s2)))

  -- The trigger is focused again, if the focus has moved.
  unfoldable pub refocus : WorkspaceId → Workspace → S → Outcome S (Unit {0})
  unfolding send eq_ℤ
  refocus trigger active s =
      if not (eq_ℤ active.id trigger)
      then send h (Request.focus_workspace trigger) s
      else (ok tt, s)

  unfoldable pub sync_to : VirtualWorkspace → WorkspaceId → List Monitor → S → Outcome S (Unit {0})
  unfolding workspaces for_each sync_each move_pinned_windows active_workspace refocus
      focus_window_under_cursor
  sync_to vws trigger ms s = workspaces h s >>= λ wss s1.
      for_each ms (sync_each vws trigger wss) s1 >>= λ _ s2.
      or_warn (move_pinned_windows h m vws s2) (λ s3. active_workspace h s3 >>= λ active s4.
      or_warn (refocus trigger active s4)
        (λ s5. or_warn (focus_window_under_cursor vws s5) (λ s6. (ok tt, s6))))

  abbrev pub sync_some : Option VirtualWorkspace → WorkspaceId → S → Outcome S (Unit {0})
  sync_some none trigger s = (ok tt, s)
  sync_some (some vws) trigger s =
      monitors h s >>= λ ms s1. if leb (length ms) 1 then (ok tt, s1) else sync_to vws trigger ms s1

  -- `sync_monitors`
  unfoldable pub sync_monitors : WorkspaceId → S → Outcome S (Unit {0})
  unfolding workspace_of monitors sync_to
  sync_monitors trigger s = sync_some (workspace_of trigger) trigger s

  abbrev pub step : Direction → VirtualWorkspace → VirtualWorkspace
  step Direction.next v = next v
  step Direction.prev v = prev v

  abbrev pub navigate_from : Direction → Option VirtualWorkspace → S → Outcome S (Unit {0})
  navigate_from direction none s = (ok tt, s)
  navigate_from direction (some current) s = switch_virtual (step direction current) s

  abbrev pub navigate_on : Direction → Option Monitor → S → Outcome S (Unit {0})
  navigate_on direction none s = (ok tt, s)
  navigate_on direction (some monitor) s =
      navigate_from direction (workspace_of monitor.active_workspace) s

  -- `navigate`, by the monitor of slot 0
  unfoldable pub navigate : Direction → S → Outcome S (Unit {0})
  unfolding monitors monitor_slot workspace_of next prev switch_virtual
  navigate direction s = monitors h s >>= λ ms s1.
      navigate_on direction (find (λ (monitor : Monitor). monitor_slot m.layout monitor.id == 0) ms)
        s1

  abbrev pub is_elsewhere :
      VirtualWorkspace → WorkspaceId → WorkspaceId → Option VirtualWorkspace → Bool
  is_elsewhere current current_id id none = false
  is_elsewhere current current_id id (some v) = v == current && not (eq_ℤ id current_id)

  -- The windows that `collapse` moves.
  unfoldable pub should_move :
      CollapseMode → VirtualWorkspace → WorkspaceId → ℕ → WorkspaceId → Bool
  unfolding workspace_of is_valid_workspace eq_ℤ
  should_move all current current_id num_monitors id =
      is_elsewhere current current_id id (workspace_of id)
  should_move invisible current current_id num_monitors id =
      not (is_valid_workspace id num_monitors)

  -- One round of the loop over the windows.
  unfoldable pub collapse_client :
      CollapseMode → VirtualWorkspace → WorkspaceId → ℕ → Client → S → Outcome S (Unit {0})
  unfolding should_move send
  collapse_client mode current current_id num_monitors c s =
      if leb_ℤ c.workspace (pos 0)
      then (ok tt, s)
      else if should_move mode current current_id num_monitors c.workspace
      then send h (Request.move_window c.address current_id) s
      else (ok tt, s)

  abbrev pub collapse_to :
      CollapseMode → WorkspaceId → Option VirtualWorkspace → S → Outcome S (Unit {0})
  collapse_to mode current_id none s = (ok tt, s)
  collapse_to mode current_id (some current) s = clients h s >>= λ cs s1. monitors h s1 >>= λ ms s2.
      for_each cs (collapse_client mode current current_id (length ms)) s2

  -- `collapse`
  unfoldable pub collapse : CollapseMode → S → Outcome S (Unit {0})
  unfolding active_workspace workspace_of clients monitors for_each collapse_client
  collapse mode s =
      active_workspace h s >>= λ active s1. collapse_to mode active.id (workspace_of active.id) s1
