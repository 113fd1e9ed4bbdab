-- ===== src/Hypr/Manager/Assign.antt =====
-- packages/hypr-workspaced/src/workspace.rs: the assignment of the workspaces to the monitors.
use foundrix.Base.{
  ◌==◌, not, ◌||◌, List, [], ◌∷◌, Option, none, some, if◌then◌else◌, filter, Text, text_eq, pos,
  eq_ℤ, leb_ℤ, ◌+ℤ◌, ok, err, get,
}
use foundrix.Hypr.Ids.{
  VirtualWorkspace, MonitorSlot, hyprland_id, workspace_of, slot_of, orphan_workspace_id, is_some,
}
use foundrix.Hypr.Data.{Monitor, Client, Workspace}
use foundrix.Hypr.Layout.{monitor_slot, all_slots, slot_to_monitor_name, assign, RegistryFile}
use foundrix.Hypr.Request.{Request}
use foundrix.Hypr.Session.{
  Error, Hyprland, Outcome, ◌>>=◌, for_each, send, clients, monitors, workspaces, active_monitor,
}
use foundrix.Hypr.Manager.{WorkspaceManager, target_of}

-- `1..=9u8`
abbrev pub virtual_workspaces : List VirtualWorkspace
virtual_workspaces = 1 ∷ 2 ∷ 3 ∷ 4 ∷ 5 ∷ 6 ∷ 7 ∷ 8 ∷ 9 ∷ []

abbrev pub or_first : Option VirtualWorkspace → VirtualWorkspace
or_first none = 1
or_first (some v) = v

module _ {S : Type 0} (h : Hyprland S) (m : WorkspaceManager) where
  -- The rules of one monitor.
  unfoldable pub set_rules : Monitor → S → Outcome S (Unit {0})
  unfolding for_each send hyprland_id monitor_slot
  set_rules monitor = for_each virtual_workspaces (λ n. send h (
      Request.workspace_rule (hyprland_id n (monitor_slot m.layout monitor.id)) monitor.name
        (n == 1)))

  -- The rescue from the orphan workspace of one slot.
  unfoldable pub rescue : List Client → MonitorSlot → S → Outcome S (Unit {0})
  unfolding for_each send orphan_workspace_id eq_ℤ ◌+ℤ◌
  rescue cs slot =
      for_each (filter (λ (c : Client). eq_ℤ c.workspace (orphan_workspace_id slot)) cs)
        (λ c. send h (Request.move_window_silent c.address (orphan_workspace_id slot +ℤ pos 1)))

  unfoldable pub cleanup_orphan_workspaces : S → Outcome S (Unit {0})
  unfolding for_each clients rescue all_slots
  cleanup_orphan_workspaces s =
      clients h s >>= λ cs s1. for_each (all_slots m.layout) (rescue cs) s1

  unfoldable pub move_to_expected : Workspace → Option Text → S → Outcome S (Unit {0})
  unfolding send text_eq
  move_to_expected ws none s = (ok tt, s)
  move_to_expected ws (some expected_name) s =
      if text_eq ws.monitor expected_name
      then (ok tt, s)
      else send h (Request.move_workspace_to_monitor ws.id expected_name) s

  -- One round of the loop over the workspaces.
  unfoldable pub move_workspace : List Monitor → Workspace → S → Outcome S (Unit {0})
  unfolding move_to_expected workspace_of slot_of slot_to_monitor_name get
  move_workspace ms ws s =
      if leb_ℤ ws.id (pos 0) || not (is_some (workspace_of ws.id))
      then (ok tt, s)
      else move_to_expected ws
          (get (λ a b. a == b) (slot_of ws.id) (slot_to_monitor_name m.layout ms)) s

  unfoldable pub move_workspaces_to_correct_monitors : List Monitor → S → Outcome S (Unit {0})
  unfolding for_each workspaces move_workspace
  move_workspaces_to_correct_monitors ms s =
      workspaces h s >>= λ wss s1. for_each wss (move_workspace ms) s1

  -- One round of the last loop: a monitor is switched to the target.
  unfoldable pub sync_monitor : VirtualWorkspace → Monitor → S → Outcome S (Unit {0})
  unfolding send target_of eq_ℤ
  sync_monitor target monitor s =
      if eq_ℤ monitor.active_workspace (target_of m target monitor.id)
      then (ok tt, s)
      else send h (Request.focus_workspace (target_of m target monitor.id)) s

  -- `assign_workspaces` with the new layout in place.
  unfoldable pub assign_with : List Monitor → S → Outcome S (Unit {0})
  unfolding for_each set_rules cleanup_orphan_workspaces move_workspaces_to_correct_monitors
      active_monitor workspace_of sync_monitor
  assign_with ms s = for_each ms set_rules s >>= λ _ s1. cleanup_orphan_workspaces s1 >>= λ _ s2.
      move_workspaces_to_correct_monitors ms s2 >>= λ _ s3. active_monitor h s3 >>= λ focused s4.
      for_each ms (sync_monitor (or_first (workspace_of focused.active_workspace))) s4

module _ {S : Type 0} (h : Hyprland S) where
  -- The manager and the registry's file, as the call leaves them.
  abbrev pub Assigned : Type 0
  Assigned = Outcome S (Unit {0}) × WorkspaceManager × RegistryFile

  -- `assign_workspaces`, when the list of monitors was read.
  unfoldable pub assign_monitors : WorkspaceManager → RegistryFile → List Monitor → S → Assigned
  unfolding assign_with assign
  assign_monitors m file [] s = ((err Error.no_monitors, s), m, file)
  assign_monitors m file (monitor ∷ ms) s =
      let (layout, file') = assign file (monitor ∷ ms) in
      let m1 = record m { layout = layout } in (assign_with h m1 (monitor ∷ ms) s, m1, file')

  abbrev pub assign_read : WorkspaceManager → RegistryFile → Outcome S (List Monitor) → Assigned
  assign_read m file (err e, s) = ((err e, s), m, file)
  assign_read m file (ok ms, s) = assign_monitors m file ms s

  -- `WorkspaceManager::assign_workspaces`
  unfoldable pub assign_workspaces : WorkspaceManager → RegistryFile → S → Assigned
  unfolding monitors assign_monitors
  assign_workspaces m file s = assign_read m file (monitors h s)
