-- ===== src/Hypr/Manager.antt =====
-- packages/hypr-workspaced/src/workspace.rs, WorkspaceManager: the pinned patterns and the layout,
-- and the operations on single windows. Its lock is not modelled: a handler runs from its beginning
-- to its end, which is what the lock grants.
pub mod Assign
pub mod Sync
pub mod Swap
pub mod Placed
pub mod Moves
pub mod Swapped
pub mod Stranded
pub mod Rescued
pub mod Collapsed
pub mod Asked
use foundrix.Base.{
  ℕ, zero, suc, ◌==◌, Bool, not, ◌&&◌, List, [], ◌∷◌, ◌++◌, map, Option, none, some, if◌then◌else◌,
  any, find, position, Text, ℤ, pos, eq_ℤ, ltb_ℤ, Result, ok, err, is_empty,
}
use foundrix.Hypr.Ids.{VirtualWorkspace, WorkspaceId, hyprland_id}
use foundrix.Hypr.Data.{Monitor, Client}
use foundrix.Hypr.Layout.{MonitorLayout, no_slots, monitor_slot}
use foundrix.Hypr.Window.{WindowPattern, parse, display, matches, pattern_eq}
use foundrix.Hypr.Request.{Request}
use foundrix.Hypr.Session.{Error, Hyprland, Outcome, ◌>>=◌, for_each, send, clients, monitors}

pub record WorkspaceManager : Type 0 where
  pub pinned_patterns : List WindowPattern
  pub layout : MonitorLayout

-- `WorkspaceManager::new`
abbrev pub new_manager : WorkspaceManager
new_manager = record { pinned_patterns = []; layout = no_slots }

abbrev pub pin_pattern : WindowPattern → WorkspaceManager → WorkspaceManager
pin_pattern p m =
    if any (λ q. pattern_eq q p) m.pinned_patterns
    then m
    else record m { pinned_patterns = m.pinned_patterns ++ p ∷ [] }

unfoldable pub pin : Text → WorkspaceManager → Result (Unit {0}) Error × WorkspaceManager
unfolding parse pattern_eq
pin s m = elim (parse s) [
  | none ↦ (err (Error.invalid_window_pattern s), m)
  | some p ↦ (ok tt, pin_pattern p m)
]

-- `Vec::remove`
unfoldable pub remove_at : List WindowPattern → ℕ → List WindowPattern
remove_at [] i = []
remove_at (p ∷ ps) zero = ps
remove_at (p ∷ ps) (suc i) = p ∷ remove_at ps i

abbrev pub unpin_position : Option ℕ → WorkspaceManager → WorkspaceManager
unpin_position none m = m
unpin_position (some i) m = record m { pinned_patterns = remove_at m.pinned_patterns i }

unfoldable pub unpin : Text → WorkspaceManager → Result (Unit {0}) Error × WorkspaceManager
unfolding parse pattern_eq remove_at
unpin s m = elim (parse s) [
  | none ↦ (err (Error.invalid_window_pattern s), m)
  | some p ↦ (ok tt, unpin_position (position (λ q. pattern_eq q p) m.pinned_patterns) m)
]

unfoldable pub pins : WorkspaceManager → List Text
unfolding display
pins m = map display m.pinned_patterns

unfoldable pub is_pinned : WorkspaceManager → Client → Bool
unfolding matches
is_pinned m c = any (λ p. matches p c) m.pinned_patterns

abbrev pub monitor_id_of : Option Monitor → Option ℤ
monitor_id_of none = none
monitor_id_of (some m) = some m.id

-- `find_monitor_for_client`
abbrev pub monitor_or : Option ℤ → Option ℤ → Option ℤ
monitor_or (some id) _ = some id
monitor_or none r = r

unfoldable pub find_monitor_for_client : Client → List Monitor → Option ℤ
unfolding eq_ℤ
find_monitor_for_client c ms =
    monitor_or c.monitor
      (monitor_id_of (find (λ (m : Monitor). eq_ℤ m.active_workspace c.workspace) ms))

-- The slot of a monitor gives a virtual workspace its number there.
unfoldable pub target_of : WorkspaceManager → VirtualWorkspace → ℤ → WorkspaceId
unfolding hyprland_id monitor_slot
target_of m vws id = hyprland_id vws (monitor_slot m.layout id)

module _ {S : Type 0} (h : Hyprland S) (m : WorkspaceManager) (vws : VirtualWorkspace) where
  unfoldable pub move_to_monitor : Client → Option ℤ → S → Outcome S (Unit {0})
  unfolding target_of send eq_ℤ
  move_to_monitor c none s = (ok tt, s)
  move_to_monitor c (some id) s =
      if not (eq_ℤ c.workspace (target_of m vws id))
      then send h (Request.move_window_silent c.address (target_of m vws id)) s
      else (ok tt, s)

  -- One round of the loop over the windows.
  unfoldable pub move_pinned : List Monitor → Client → S → Outcome S (Unit {0})
  unfolding is_pinned move_to_monitor find_monitor_for_client
  move_pinned ms c s =
      if not (is_pinned m c)
      then (ok tt, s)
      else if ltb_ℤ c.workspace (pos 0)
      then (ok tt, s)
      else move_to_monitor c (find_monitor_for_client c ms) s

  unfoldable pub move_pinned_windows : S → Outcome S (Unit {0})
  unfolding move_pinned clients monitors for_each
  move_pinned_windows s =
      if is_empty m.pinned_patterns
      then (ok tt, s)
      else clients h s >>= λ cs s1. monitors h s1 >>= λ ms s2. for_each cs (move_pinned ms) s2
