-- ===== src/Hypr/Tests/Talking.antt =====
-- A daemon of packages/hypr-workspaced on the desk of two monitors, its clients, and its notices.
use foundrix.Base.{
  ◌≡◌, refl, true, false, [], ◌∷◌, ◌++◌, map, none, some, arith, codes, pos, ok, is_whitespace, All,
  List, Text,
}
use foundrix.Hypr.Ids.{workspace_of}
use foundrix.Hypr.Window
use foundrix.Hypr.Window.{class, pid}
use foundrix.Hypr.Ipc.{next, swap, pins, data_of, parse_command}
use foundrix.Hypr.Request.Moves.{read_move}
use foundrix.Hypr.Daemon.{Daemon, Outside, handle_command, entered, sync_noticed, on_events}
use foundrix.Hypr.Daemon.Synced.{on_events-Latest, on_events-Settled}
use foundrix.Hypr.Client.{send_command, send_command_with_output, shown_of}
use foundrix.Hypr.Client.Talk.{Presentable, one_line}
use foundrix.Hypr.Client.Told.{
  local, pins_shown, send_command-handle_command, send_command_with_output-pins,
}
use foundrix.Hypr.Tests.Desk.{Desk, desk, number, answer, screens}
use foundrix.Hypr.Session.{Hyprland, monitors, workspaces, active_workspace}
use foundrix.Hypr.Manager.Asked.{Attentive, Switched}

abbrev outside : Outside Desk
outside = record { hyprland = desk; reload = λ level s. (ok tt, s); quoted = λ t. t }

abbrev running : Daemon
running = record {
  manager = record {
    pinned_patterns = class (codes "x") ∷ pid (pos 7) ∷ [];
    layout = record { slots = (pos 0, 0) ∷ (pos 1, 1) ∷ [] };
  };
  file = record { content = none; outcomes = [] };
  last_synced_generation = 0;
  last_synced_vspace = none;
  watch = record { workspace_id = pos 1; generation = 0 };
}

abbrev settled : Daemon
settled = record running { last_synced_vspace = some 1 }

-- The desk with a log of what it is asked.
abbrev logged_desk : Hyprland (Desk × List Text)
logged_desk = record {
  exchange = λ flags request w.
      ((answer flags request w.0).0, ((answer flags request w.0).1, request ∷ w.1));
  read_monitors = desk.read_monitors;
  read_clients = desk.read_clients;
  read_workspaces = desk.read_workspaces;
  read_workspace = desk.read_workspace;
  read_cursor = desk.read_cursor;
}

abbrev log_of : Desk × List Text → List Text
log_of w = w.1

logged_desk-Attentive : Attentive logged_desk log_of
unfolding active_workspace codes
logged_desk-Attentive = record {
  logged = λ flags request s. refl;
  names_active = λ s. (_, _, refl);
}

abbrev outside_logged : Outside (Desk × List Text)
outside_logged = record { hyprland = logged_desk; reload = λ level s. (ok tt, s); quoted = λ t. t }

abbrev undisturbed : Desk × List Text
undisturbed = ((1, 11), [])

asked_monitors :
    monitors logged_desk undisturbed ≡ (ok screens, ((1, 11), codes "monitors all" ∷ []))
unfolding monitors codes
asked_monitors = refl

asked_workspaces :
    workspaces logged_desk ((1, 11), codes "monitors all" ∷ [])
    ≡ (ok [], ((1, 11), codes "workspaces" ∷ codes "monitors all" ∷ []))
unfolding workspaces codes
asked_workspaces = refl

on_events-Latest_example :
    let w =
      on_events outside_logged
        (map entered ((pos 2 ∷ []) ++ pos 13 ∷ []) ++ sync_noticed ∷ [])
        (settled, undisturbed) in
    (w.0.last_synced_vspace ≡ some 3)
    × (w.0.last_synced_generation ≡ 2)
    × (w.0.manager ≡ settled.manager)
    × All (Switched logged_desk log_of logged_desk-Attentive settled.manager 3 (pos 13) w.1) screens
unfolding workspace_of
on_events-Latest_example =
    on_events-Latest outside_logged log_of logged_desk-Attentive (pos 2 ∷ []) (pos 13) settled
      undisturbed ((1, 11), codes "monitors all" ∷ [])
      ((1, 11), codes "workspaces" ∷ codes "monitors all" ∷ []) 3 screens [] (omega arith)
      (omega arith) refl (λ e. ground (arith, e)) asked_monitors (omega arith) asked_workspaces

on_events-Settled_example :
    ((on_events outside
        (entered (pos 11) ∷ sync_noticed ∷ entered (pos 1) ∷ [])
        (settled, (1, 11))).1
      ≡ (1, 11))
    × ((on_events outside
          (entered (pos 11) ∷ sync_noticed ∷ entered (pos 1) ∷ [])
          (settled, (1, 11))).0.last_synced_vspace
        ≡ some 1)
    × ((on_events outside
          (entered (pos 11) ∷ sync_noticed ∷ entered (pos 1) ∷ [])
          (settled, (1, 11))).0.manager
        ≡ settled.manager)
unfolding workspace_of
on_events-Settled_example =
    on_events-Settled outside 1 (entered (pos 11) ∷ sync_noticed ∷ entered (pos 1) ∷ []) settled
      (1, 11) refl refl refl

swap_heard : parse_command (codes "swap next") ≡ ok (swap next)
unfolding parse_command codes is_whitespace
swap_heard = refl

swap_done : Presentable (handle_command outside (swap next) running (1, 11)).0
unfolding handle_command codes read_move number
swap_done = tt

send_command-handle_command_example :
    let (r, d1, s1) = handle_command outside (swap next) running (1, 11) in
    (send_command (local outside) (swap next) (running, (1, 11)) ≡ (shown_of false r, (d1, s1)))
    × (send_command_with_output (local outside) (swap next) (running, (1, 11))
        ≡ (shown_of true r, (d1, s1)))
send_command-handle_command_example =
    send_command-handle_command outside (codes "swap next") (swap next) running (1, 11) swap_heard
      swap_done

class_x : Presentable (data_of (Window.display (class (codes "x"))))
unfolding Window.display codes is_whitespace
class_x = (one_line (codes "class:x") refl, (codes "class:", b'x', refl, refl))

send_command_with_output-pins_example :
    send_command_with_output (local outside) pins (running, (1, 11))
    ≡ (pins_shown running.manager.pinned_patterns, (running, (1, 11)))
send_command_with_output-pins_example =
    send_command_with_output-pins outside running (1, 11) running.manager.pinned_patterns refl
      class_x
