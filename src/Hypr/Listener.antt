-- ===== src/Hypr/Listener.antt =====
-- packages/hypr-workspaced/src/daemon.rs: the task that listens to Hyprland, and restarts a service when
-- a lost connection is back; and what the events of the listener put into the channels.
use foundrix.Base.{
  ℕ, ◌+◌, ◌≤◌, Bool, true, false, ◌&&◌, List, [], ◌∷◌, Option, none, some, if◌then◌else◌, leb,
  length, arith, Text,
}
use foundrix.Hypr.Ids.{WorkspaceId}
use foundrix.Hypr.Daemon.{LoopEvent, entered, monitors_changed}

-- The two variables of the task.
pub record Link : Type 0 where
  pub had_successful_connection : Bool
  pub pending_service_restart : Bool

abbrev pub no_link : Link
no_link = record { had_successful_connection = false; pending_service_restart = false }

-- How a run of the listener ended: without an error, or with one after so many milliseconds.
pub data Ended : Type 0 where
  quietly : Ended
  failed_after : ℕ → Ended

unfoldable pub after_listener : Ended → Link → Link
after_listener quietly l = l
after_listener (failed_after ran_for) l =
    if leb 2000 ran_for
    then record { had_successful_connection = true; pending_service_restart = true }
    else l

abbrev pub restart_of : Option Text → List Text
restart_of none = []
restart_of (some service) = service ∷ []

-- The part behind the run, with the answer whether the monitors could be read: the services that are
-- restarted. A restart that fails is logged only.
unfoldable pub on_reconnect : Option Text → Bool → Link → List Text × Link
on_reconnect service answers l =
    if l.pending_service_restart && l.had_successful_connection
    then if answers
      then (restart_of service, record l { pending_service_restart = false })
      else ([], l)
    else ([], l)

-- One round of the loop.
unfoldable pub round : Option Text → Ended × Bool → Link → List Text × Link
unfolding after_listener on_reconnect
round service (ended, answers) l = on_reconnect service answers (after_listener ended l)

-- How many restarts a list of rounds makes.
unfoldable pub restarts : Option Text → List (Ended × Bool) → Link → ℕ
unfolding round
restarts service [] l = 0
restarts service (r ∷ rs) l =
    let (names, l1) = round service r l in length names + restarts service rs l1

-- The runs that were long enough to have been connected.
abbrev pub loss : Ended → ℕ
loss quietly = 0
loss (failed_after ran_for) = if leb 2000 ran_for then 1 else 0

abbrev pub losses : List (Ended × Bool) → ℕ
losses [] = 0
losses ((ended, _) ∷ rs) = loss ended + losses rs

-- The events that a handler of the listener is registered for.
pub data HyprlandEvent : Type 0 where
  monitor_added monitor_removed : Text → HyprlandEvent
  config_reloaded : HyprlandEvent
  workspace_entered : WorkspaceId → HyprlandEvent

-- `run_hyprland_listener`: what an event gives the main loop.
unfoldable pub event_of : HyprlandEvent → LoopEvent
event_of (monitor_added name) = monitors_changed
event_of (monitor_removed name) = monitors_changed
event_of config_reloaded = monitors_changed
event_of (workspace_entered id) = entered id

abbrev owed : Link → ℕ
owed l = if l.pending_service_restart then 1 else 0

reconnected :
    (service : Option Text) (answers : Bool) (l : Link)
    → length (on_reconnect service answers l).0 + owed (on_reconnect service answers l).1 ≤ owed l
unfolding on_reconnect
reconnected none answers l = ground arith
reconnected (some name) answers l = ground arith

listened : (ended : Ended) (l : Link) → owed (after_listener ended l) ≤ loss ended + owed l
unfolding after_listener
listened quietly l = omega arith
listened (failed_after t) l = ground arith

-- Every restart answers for a loss of its own.
restarts-le :
    (service : Option Text) (rs : List (Ended × Bool)) (l : Link)
    → restarts service rs l ≤ losses rs + owed l
unfolding restarts round
restarts-le service [] l = omega arith
restarts-le service ((ended, answers) ∷ rs) l = omega (
  arith,
  restarts-le service rs (on_reconnect service answers (after_listener ended l)).1,
  reconnected service answers (after_listener ended l),
  listened ended l,
)
