-- ===== src/Hypr/Tests/Placing.antt =====
-- The windows on the desk of two monitors, after the operations of
-- packages/hypr-workspaced/src/workspace.rs on them.
use mathlib.Core.Option.{map as Option_map}
use foundrix.Base.{ℕ, ◌≡◌, ◌≢◌, true, false, refl, [], ◌∷◌, some, arith, codes, pos, ok, get, eq_ℤ}
use foundrix.Hypr.Ids.{WorkspaceId, MonitorSlot, orphan_workspace_id, hyprland_id, workspace_of}
use foundrix.Hypr.Ipc.{next}
use foundrix.Hypr.Session.{monitors, active_monitor}
use foundrix.Hypr.Manager.{WorkspaceManager, target_of}
use foundrix.Hypr.Manager.Swap.{swap_monitor, sort_by_x, target_idx}
use foundrix.Hypr.Manager.Assign.{cleanup_orphan_workspaces}
use foundrix.Hypr.Manager.Swapped.{exchanged, swap_monitor-place}
use foundrix.Hypr.Manager.Stranded.{OnTheWay, swap_monitor-OnTheWay}
use foundrix.Hypr.Manager.Rescued.{cleanup_orphan_workspaces-NoOrphans}
use foundrix.Hypr.Tests.Desk.{desk, place, one, two, screen, screens, number}
use foundrix.Hypr.Tests.Moving.{desk-Compositor}
use foundrix.Hypr.Request.Moves.{read_move}

abbrev two_slots : WorkspaceManager
two_slots = record {
  pinned_patterns = [];
  layout = record { slots = (pos 0, 0) ∷ (pos 1, 1) ∷ [] };
}

swaps : swap_monitor desk two_slots next (1, 11) ≡ (ok tt, (11, 1))
unfolding swap_monitor codes read_move number
swaps = refl

cleans : cleanup_orphan_workspaces desk two_slots (10, 1) ≡ (ok tt, (11, 1))
unfolding cleanup_orphan_workspaces codes read_move number
cleans = refl

focused_first : active_monitor desk (1, 11) ≡ (ok (screen (pos 0) (b'A' ∷ []) 1 true), (1, 11))
unfolding active_monitor codes
focused_first = refl

asked_monitors : (w : ℕ × ℕ) → monitors desk w ≡ (ok screens, w)
unfolding monitors codes
asked_monitors w = refl

swap_monitor-place_example :
    place (11, 1) two
    ≡ Option_map
        (exchanged (target_of two_slots 1 (pos 0)) (target_of two_slots 1 (pos 1)))
        (place (1, 11) two)
unfolding sort_by_x workspace_of eq_ℤ target_idx
swap_monitor-place_example =
    swap_monitor-place desk place desk-Compositor two_slots next (1, 11) (1, 11) (1, 11) (11, 1)
      screens (screen (pos 0) (b'A' ∷ []) 1 true) (screen (pos 1) (b'B' ∷ []) 11 false) 0 1
      (asked_monitors (1, 11)) (omega arith) focused_first refl refl refl swaps two

swap_monitor-OnTheWay_example :
    OnTheWay
      (target_of two_slots 1 (pos 0))
      (target_of two_slots 1 (pos 1))
      (place (1, 11) one)
      (place (swap_monitor desk two_slots next (1, 11)).1 one)
unfolding sort_by_x workspace_of eq_ℤ target_idx
swap_monitor-OnTheWay_example =
    swap_monitor-OnTheWay desk place desk-Compositor two_slots next (1, 11) (1, 11) (1, 11) screens
      (screen (pos 0) (b'A' ∷ []) 1 true) (screen (pos 1) (b'B' ∷ []) 11 false) 0 1
      (asked_monitors (1, 11)) (omega arith) focused_first refl refl refl one

has_slot : get eq_ℤ (pos 1) two_slots.layout.slots ≡ some 1
unfolding get eq_ℤ
has_slot = refl

cleanup_orphan_workspaces-NoOrphans_example :
    (place (10, 1) one ≡ some (orphan_workspace_id 1) → place (11, 1) one ≡ some (hyprland_id 1 1))
    × ((v : WorkspaceId)
        → place (10, 1) one ≡ some v
        → ((i : MonitorSlot) → v ≢ orphan_workspace_id i)
        → place (11, 1) one ≡ some v)
    × (place (11, 1) one ≢ some (orphan_workspace_id 1))
cleanup_orphan_workspaces-NoOrphans_example =
    cleanup_orphan_workspaces-NoOrphans desk place desk-Compositor two_slots (10, 1) (11, 1) (pos 1)
      1 cleans has_slot one
