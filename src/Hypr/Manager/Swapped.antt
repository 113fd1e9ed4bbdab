-- ===== src/Hypr/Manager/Swapped.antt =====
-- packages/hypr-workspaced/src/workspace.rs, `swap_monitor`: the windows of the two workspaces have
-- changed places.
use mathlib.Core.Option.{map as Option_map}
use foundrix.Base.{
  ℕ, ◌≤◌, ◌≡◌, refl, sym, ap, ◌∙◌, false, List, Option, none, some, if◌then◌else◌, position, length,
  ltb, arith, Text, eq_ℤ, ok,
}
use foundrix.Hypr.Ids.{VirtualWorkspace, WorkspaceId, workspace_of}
use foundrix.Hypr.Data.{Monitor, Client}
use foundrix.Hypr.Ipc.{Direction}
use foundrix.Hypr.Session.{Hyprland, ◌>>=◌, clients, monitors, active_monitor}
use foundrix.Hypr.Manager.{WorkspaceManager, target_of}
use foundrix.Hypr.Manager.Swap.{
  on_workspace, move_all, swap_windows, swap_monitor, neighbour, target_idx, sort_by_x, buffer_ws,
}
use foundrix.Hypr.Manager.Moves.{moved_if, passes, for_each_on-place}
use foundrix.Hypr.Manager.Placed.{
  Complete, Places, Compositor, Says, >>=-ok, clients-place, monitors-place, active_monitor-place,
}

-- The exchange of two workspaces.
abbrev pub exchanged : WorkspaceId → WorkspaceId → WorkspaceId → WorkspaceId
exchanged a b w = if eq_ℤ w a then b else if eq_ℤ w b then a else w

abbrev moved_from :
    WorkspaceId → WorkspaceId → Option WorkspaceId → Option WorkspaceId → Option WorkspaceId
moved_from a w was is = moved_if (passes (λ v. eq_ℤ v a) was) w is

three_moves :
    (a b w : WorkspaceId) (o : Option WorkspaceId)
    → moved_from a b o (moved_from b a o (moved_from a w o o)) ≡ Option_map (exchanged a b) o
three_moves a b w none = refl
three_moves a b w (some v) = ground arith

module _ {S : Type 0} (h : Hyprland S) (place : S → Places) (laws : Compositor h place) where
  swap_windows-place :
      (a b : WorkspaceId) (cs : List Client) (s s3 : S)
      → Says (place s) cs
      → Complete (place s) cs
      → swap_windows h a b cs s ≡ (ok tt, s3)
      → (x : Text) → place s3 x ≡ Option_map (exchanged a b) (place s x)
  unfolding swap_windows move_all on_workspace
  swap_windows-place a b cs s s3 says all e x =
      let (_, s1, e1, f1) = >>=-ok (move_all h (on_workspace a cs) buffer_ws s) _ tt s3 e in
      let (_, s2, e2, e3) = >>=-ok (move_all h (on_workspace b cs) a s1) _ tt s3 f1 in
      for_each_on-place h place laws (place s) a b cs says all s2 s3 e3 x
      ∙ ap (moved_from a b (place s x))
          (for_each_on-place h place laws (place s) b a cs says all s1 s2 e2 x)
      ∙ ap (λ o. moved_from a b (place s x) (moved_from b a (place s x) o))
          (for_each_on-place h place laws (place s) a buffer_ws cs says all s s1 e1 x)
      ∙ three_moves a b buffer_ws (place s x)

  module _ (m : WorkspaceManager) where
    -- The part behind the early returns.
    pub swap_monitor-swap_windows :
        (direction : Direction) (s s1 s2 : S) (ms : List Monitor) (focused target : Monitor)
        (idx : ℕ) (v : VirtualWorkspace)
        → monitors h s ≡ (ok ms, s1)
        → 2 ≤ length ms
        → active_monitor h s1 ≡ (ok focused, s2)
        → position (λ (n : Monitor). eq_ℤ n.id focused.id) (sort_by_x ms) ≡ some idx
        → neighbour h m (sort_by_x ms) (target_idx direction idx (length (sort_by_x ms)))
          ≡ some target
        → workspace_of focused.active_workspace ≡ some v
        → swap_monitor h m direction s ≡ (
            clients h s2 >>= λ cs t.
            swap_windows h (target_of m v focused.id) (target_of m v target.id) cs t)
    unfolding swap_monitor
    swap_monitor-swap_windows direction s s1 s2 ms focused target idx v em two ef ei et ev =
        rw (em, many, ef, ei, et, ev) refl
      where
        many : ltb (length ms) 2 ≡ false
        many = ground arith

    -- Two monitors or more are connected, the focused one shows a virtual workspace, and it has a
    -- neighbour on the side asked for. Then a swap that succeeds leaves every window of the
    -- workspace of the one monitor on that of the other, and every other window where it was.
    pub swap_monitor-place :
        (direction : Direction) (s s1 s2 s' : S) (ms : List Monitor) (focused target : Monitor)
        (idx : ℕ) (v : VirtualWorkspace)
        → monitors h s ≡ (ok ms, s1)
        → 2 ≤ length ms
        → active_monitor h s1 ≡ (ok focused, s2)
        → position (λ (n : Monitor). eq_ℤ n.id focused.id) (sort_by_x ms) ≡ some idx
        → neighbour h m (sort_by_x ms) (target_idx direction idx (length (sort_by_x ms)))
          ≡ some target
        → workspace_of focused.active_workspace ≡ some v
        → swap_monitor h m direction s ≡ (ok tt, s')
        → (x : Text)
        → place s' x
          ≡ Option_map (exchanged (target_of m v focused.id) (target_of m v target.id)) (place s x)
    swap_monitor-place direction s s1 s2 s' ms focused target idx v em two ef ei et ev e x =
        let (cs, s3, ec, es) = >>=-ok (clients h s2) _ tt s' (
          sym
            (swap_monitor-swap_windows direction s s1 s2 ms focused target idx v em two ef ei et ev)
          ∙ e) in
        let (same, says, all) = clients-place h place laws s2 s3 cs ec in
        swap_windows-place (target_of m v focused.id) (target_of m v target.id) cs s3 s' says all es
          x
        ∙ ap (Option_map (exchanged (target_of m v focused.id) (target_of m v target.id))) (
            same x
            ∙ active_monitor-place h place laws s1 s2 focused ef x
            ∙ monitors-place h place laws s s1 ms em x)
