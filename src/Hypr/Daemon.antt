-- ===== src/Hypr/Daemon.antt =====
-- packages/hypr-workspaced/src/daemon.rs: the main loop over the commands of the clients and the
-- notices of Hyprland. A step of the loop is one branch of its `select!`; which comes next is the
-- runtime's choice, so that a run is any list of steps. The waits of half a second are left out.
pub mod Synced
use foundrix.Base.{
  ℕ, ◌+◌, ◌%◌, ◌^◌, ◌==◌, Bool, true, false, List, [], ◌∷◌, ◌++◌, Option, none, some, if◌then◌else◌,
  leb, Text, codes, decimal, ℤ, Result, ok, err,
}
use foundrix.Hypr.Ids.{VirtualWorkspace, WorkspaceId, new, workspace_of}
use foundrix.Hypr.Registry.{join_lines}
use foundrix.Hypr.Layout.{RegistryFile}
use foundrix.Hypr.Ipc.{Command, Response, done, data_of, error_of}
use foundrix.Hypr.Session.{Error, Hyprland, Outcome}
use foundrix.Hypr.Manager.{WorkspaceManager, new_manager, pin, unpin, pins}
use foundrix.Hypr.Manager.Assign.{assign_workspaces}
use foundrix.Hypr.Manager.Sync.{
  switch_virtual, move_to_virtual, sync_monitors, prime_focus, navigate, collapse,
}
use foundrix.Hypr.Manager.Swap.{swap_monitor}

-- The watch channel: the last workspace that was entered, and how often one was.
pub record SyncState : Type 0 where
  pub workspace_id : WorkspaceId
  pub generation : ℕ

-- The variables of `run`: the manager, the registry's file, what was synchronised
-- last, and the value in the watch channel.
pub record Daemon : Type 0 where
  pub manager : WorkspaceManager
  pub file : RegistryFile
  pub last_synced_generation : ℕ
  pub last_synced_vspace : Option VirtualWorkspace
  pub watch : SyncState

-- What the daemon finds outside beside Hyprland: the handle of the log, and `{:?}` of a text.
pub record Outside (S : Type 0) : Type 0 where
  pub hyprland : Hyprland S
  pub reload : Text → S → Result (Unit {0}) Text × S
  pub quoted : Text → Text

-- `wrapping_add(1)` of an u64, in the handler of a workspace change.
unfoldable pub workspace_changed : ℤ → SyncState → SyncState
workspace_changed id state = record {
  workspace_id = id;
  generation = (state.generation + 1) % 2 ^ 64;
}

-- What may happen next: a branch of the loop, or a change that Hyprland reports to the listener.
pub data LoopEvent : Type 0 where
  commanded : Command → LoopEvent
  monitors_changed sync_noticed : LoopEvent
  entered : WorkspaceId → LoopEvent

module _ {S : Type 0} (o : Outside S) where
  -- `Error`, Display; an error of the transport carries its text.
  unfoldable pub error_text : Error → Text
  unfolding decimal
  error_text (Error.transport e) = e
  error_text (Error.hyprland_request request answer) =
      codes "Hyprland answered " ++ o.quoted answer ++ codes " to " ++ o.quoted request
  error_text (Error.hyprland_answer request source) =
      codes "Hyprland's answer to " ++ o.quoted request ++ codes " could not be read: " ++ source
  error_text Error.no_focused_monitor = codes "Hyprland lists no focused monitor"
  error_text Error.no_monitors = codes "No monitors found"
  error_text (Error.invalid_virtual_workspace n) =
      codes "Invalid virtual workspace: " ++ decimal n ++ codes " (must be 1-9)"
  error_text (Error.invalid_window_pattern p) = codes "Invalid window pattern: " ++ p
  error_text (Error.other e) = e

  abbrev pub Handled : Type 0
  Handled = Response × Daemon × S

  -- The match at the end of `handle_command`.
  abbrev pub response_of : Result (Unit {0}) Error → Response
  response_of (ok _) = done
  response_of (err e) = error_of (error_text e)

  abbrev pub handled : Daemon → Outcome S (Unit {0}) → Handled
  handled d (r, s) = (response_of r, d, s)

  -- `match VirtualWorkspace::new(ws)`
  abbrev pub on_virtual :
      Daemon
      → Result VirtualWorkspace ℕ
      → (VirtualWorkspace → S → Outcome S (Unit {0}))
      → S
      → Handled
  on_virtual d (ok vws) f s = handled d (f vws s)
  on_virtual d (err n) f s = handled d (err (Error.invalid_virtual_workspace n), s)

  -- The daemon after an assignment: its manager and its file are new.
  abbrev pub assigned :
      Daemon
      → Outcome S (Unit {0}) × WorkspaceManager × RegistryFile
      → Outcome S (Unit {0}) × Daemon
  assigned d (outcome, m, file) = (outcome, record d { manager = m; file = file })

  abbrev pub with_patterns : Daemon → S → Result (Unit {0}) Error × WorkspaceManager → Handled
  with_patterns d s (r, m) = (response_of r, record d { manager = m }, s)

  abbrev pub level_of : Bool → Text
  level_of true = codes "debug"
  level_of false = codes "info"

  abbrev pub reloaded : Daemon → Result (Unit {0}) Text × S → Handled
  reloaded d (ok _, s) = (done, d, s)
  reloaded d (err e, s) = (error_of (codes "Failed to set log level: " ++ e), d, s)

  abbrev pub with_assigned : Outcome S (Unit {0}) × Daemon → Handled
  with_assigned (outcome, d) = handled d outcome

  unfoldable pub handle_command : Command → Daemon → S → Handled
  unfolding error_text new switch_virtual move_to_virtual navigate collapse swap_monitor
      assign_workspaces pin unpin pins join_lines
  handle_command (Command.switch ws) d s =
      on_virtual d (new ws) (switch_virtual o.hyprland d.manager) s
  handle_command (Command.move_to ws) d s =
      on_virtual d (new ws) (move_to_virtual o.hyprland d.manager) s
  handle_command (Command.navigate dir) d s = handled d (navigate o.hyprland d.manager dir s)
  handle_command (Command.collapse mode) d s = handled d (collapse o.hyprland d.manager mode s)
  handle_command (Command.swap dir) d s = handled d (swap_monitor o.hyprland d.manager dir s)
  handle_command Command.assign d s =
      with_assigned (assigned d (assign_workspaces o.hyprland d.manager d.file s))
  handle_command (Command.pin pattern) d s = with_patterns d s (pin pattern d.manager)
  handle_command (Command.unpin pattern) d s = with_patterns d s (unpin pattern d.manager)
  handle_command Command.pins d s = (data_of (join_lines (pins d.manager)), d, s)
  handle_command (Command.debug enabled) d s = reloaded d (o.reload (level_of enabled) s)

  -- The branch of `MonitorChanged`: a failure is logged.
  abbrev pub reset : Outcome S (Unit {0}) × Daemon → Daemon × S
  reset ((_, s), d) = (record d { last_synced_vspace = none }, s)

  unfoldable pub monitor_changed : Daemon → S → Daemon × S
  unfolding assign_workspaces
  monitor_changed d s = reset (assigned d (assign_workspaces o.hyprland d.manager d.file s))

  -- `last_synced_vspace == Some(vws)`
  abbrev pub is_synced : Option VirtualWorkspace → VirtualWorkspace → Bool
  is_synced none vws = false
  is_synced (some v) vws = v == vws

  abbrev pub synced : Daemon → VirtualWorkspace → Outcome S (Unit {0}) → Daemon × S
  synced d vws (ok _, s) = (record d { last_synced_vspace = some vws }, s)
  synced d vws (err _, s) = (d, s)

  abbrev pub sync_to_latest : Daemon → WorkspaceId → Option VirtualWorkspace → S → Daemon × S
  sync_to_latest d id none s = (d, s)
  sync_to_latest d id (some vws) s =
      if is_synced d.last_synced_vspace vws
      then (d, s)
      else synced d vws (sync_monitors o.hyprland d.manager id s)

  -- The branch of `sync_rx.changed()`.
  unfoldable pub sync_changed : Daemon → S → Daemon × S
  unfolding workspace_of sync_monitors
  sync_changed d s =
      if leb d.watch.generation d.last_synced_generation
      then (d, s)
      else sync_to_latest (record d { last_synced_generation = d.watch.generation })
          d.watch.workspace_id (workspace_of d.watch.workspace_id) s

  abbrev pub without_reply : Handled → Daemon × S
  without_reply (reply, d, s) = (d, s)

  unfoldable pub on_event : LoopEvent → Daemon × S → Daemon × S
  unfolding handle_command monitor_changed sync_changed workspace_changed
  on_event (commanded c) (d, s) = without_reply (handle_command c d s)
  on_event monitors_changed (d, s) = monitor_changed d s
  on_event sync_noticed (d, s) = sync_changed d s
  on_event (entered id) (d, s) = (record d { watch = workspace_changed id d.watch }, s)

  unfoldable pub on_events : List LoopEvent → Daemon × S → Daemon × S
  unfolding on_event
  on_events [] w = w
  on_events (step ∷ steps) w = on_events steps (on_event step w)

  abbrev pub initial_daemon : RegistryFile → Daemon
  initial_daemon file = record {
    manager = new_manager;
    file = file;
    last_synced_generation = 0;
    last_synced_vspace = none;
    watch = record { workspace_id = ℤ.pos 0; generation = 0 };
  }

  abbrev pub primed : Outcome S (Unit {0}) × Daemon → Daemon × S
  primed ((_, s), d) = (d, (prime_focus o.hyprland d.manager s).1)

  -- `run` before the loop: the first assignment and the first focus, whose failures are logged.
  unfoldable pub run_start : RegistryFile → S → Daemon × S
  unfolding assign_workspaces prime_focus
  run_start file s =
      primed (assigned (initial_daemon file) (assign_workspaces o.hyprland new_manager file s))
