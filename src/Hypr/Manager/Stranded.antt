-- ===== src/Hypr/Manager/Stranded.antt =====
-- packages/hypr-workspaced/src/workspace.rs, `swap_monitor`: where the windows are when it ends early.
use mathlib.Core.Option.{map as Option_map}
use foundrix.Base.{
  ℕ, ◌≤◌, ◌≡◌, refl, sym, ap, ◌∙◌, subst, Bool, true, false, List, [], ◌∷◌, Option, some, ◌⊎◌, inl,
  inr, All, eq_ℤ_iff, if◌then◌else◌, filter, position, length, arith, Text, eq_ℤ, codes, ok, err,
}
use foundrix.Hypr.Ids.{VirtualWorkspace, WorkspaceId, workspace_of}
use foundrix.Hypr.Data.{Monitor, Client}
use foundrix.Hypr.Ipc.{Direction}
use foundrix.Hypr.Request.{Request}
use foundrix.Hypr.Session.{
  Hyprland, Outcome, ◌>>=◌, for_each, send, clients, query, monitors, active_monitor,
}
use foundrix.Hypr.Manager.{WorkspaceManager, target_of}
use foundrix.Hypr.Manager.Swap.{
  on_workspace, move_all, swap_windows, swap_monitor, neighbour, target_idx, sort_by_x, buffer_ws,
}
use foundrix.Hypr.Manager.Placed.{
  Places, Compositor, Says, clients-place, monitors-place, active_monitor-place,
}
use foundrix.Hypr.Manager.Swapped.{exchanged, swap_monitor-swap_windows}

module _ {S : Type 0} where
  -- A fact about the state that every part of a chain keeps.
  kept_by :
      {A B : Type 0} (P : S → Type 0) (o : Outcome S A) (f : A → S → Outcome S B)
      → P o.1
      → ((a : A) (s : S) → o ≡ (ok a, s) → P s → P (f a s).1)
      → P (o >>= f).1
  kept_by P (ok a, s) f p k = k a s refl p
  kept_by P (err e, s) f p k = p

-- Where a window may be that was at `was`: there, in the buffer, or at its new place.
abbrev pub OnTheWay : WorkspaceId → WorkspaceId → Option WorkspaceId → Option WorkspaceId → Type 0
OnTheWay a b was is =
    (is ≡ was) ⊎ ((was ≡ some a) × (is ≡ some buffer_ws)) ⊎ (is ≡ Option_map (exchanged a b) was)

OnTheWay-some :
    (a b v : WorkspaceId) (is : Option WorkspaceId)
    → OnTheWay a b (some v) is
    → (u : WorkspaceId) × (is ≡ some u)
OnTheWay-some a b v is (inl same) = (v, same)
OnTheWay-some a b v is (inr (inl (_, buffered))) = (buffer_ws, buffered)
OnTheWay-some a b v is (inr (inr gone)) = (exchanged a b v, gone)

-- A window that is on its way and moved to `w` is on `w`.
moved-some :
    (a b v w : WorkspaceId) (was is : Option WorkspaceId)
    → OnTheWay a b was is
    → was ≡ some v
    → Option_map (λ _. w) is ≡ some w
moved-some a b v w was is way at =
    let (u, e) = OnTheWay-some a b v is (subst (λ o. OnTheWay a b o is) at way) in
    ap (Option_map (λ _. w)) e

exchanged-first : (a b : WorkspaceId) → exchanged a b a ≡ b
exchanged-first a b = rw ((eq_ℤ_iff a a).1 refl) refl

exchanged-second : (a b : WorkspaceId) → exchanged a b b ≡ a
exchanged-second a b = ground (arith, eq_ℤ_iff b a, eq_ℤ_iff b b)

module _ {S : Type 0} where
  for_each-kept :
      {A : Type 0} (P : S → Type 0) (Q : A → Type 0) (f : A → S → Outcome S (Unit {0}))
      → ((a : A) → Q a → (t : S) → P t → P (f a t).1)
      → (list : List A) → All Q list
      → (s : S) → P s
      → P (for_each list f s).1
  unfolding for_each
  for_each-kept P Q f k [] _ s p = p
  for_each-kept P Q f k (a ∷ rest) (q, qs) s p =
      kept_by P (f a s) (λ _ t. for_each rest f t) (k a q s p)
        (λ _ t _ r. for_each-kept P Q f k rest qs t r)

on_workspace-All :
    (before : Places) (v : WorkspaceId) (cs : List Client)
    → Says before cs
    → All (λ (c : Client). before c.address ≡ some v) (on_workspace v cs)
unfolding on_workspace
on_workspace-All before v [] h = tt
on_workspace-All before v (c ∷ cs) (e, h) =
    by (eq_ℤ c.workspace v) refl (on_workspace-All before v cs h)
  where
    by :
        (b : Bool)
        → eq_ℤ c.workspace v ≡ b
        → All
            (λ (c : Client). before c.address ≡ some v)
            (filter (λ (c : Client). eq_ℤ c.workspace v) cs)
        → All
            (λ (c : Client). before c.address ≡ some v)
            (if b
              then c ∷ filter (λ (c : Client). eq_ℤ c.workspace v) cs
              else filter (λ (c : Client). eq_ℤ c.workspace v) cs)
    by true q ih = (e ∙ ap some ((eq_ℤ_iff c.workspace v).0 q), ih)
    by false q ih = ih

module _ {S : Type 0} (h : Hyprland S) (place : S → Places) (laws : Compositor h place)
    (a b : WorkspaceId) (x : Text) (before : Places) where
  open laws use {tried}

  -- One loop, if the windows that it moves may go to `w`.
  move_all-OnTheWay :
      (v w : WorkspaceId)
      → (before x ≡ some v → OnTheWay a b (before x) (some w))
      → (cs : List Client) → Says before cs
      → (s : S) → OnTheWay a b (before x) (place s x)
      → OnTheWay a b (before x) (place (move_all h (on_workspace v cs) w s).1 x)
  unfolding move_all
  move_all-OnTheWay v w may cs says s way =
      for_each-kept (λ t. OnTheWay a b (before x) (place t x))
        (λ (c : Client). before c.address ≡ some v)
        (λ (c : Client). send h (Request.move_window_silent c.address w)) step (on_workspace v cs)
        (on_workspace-All before v cs says) s way
    where
      step :
          (c : Client)
          → before c.address ≡ some v
          → (t : S) → OnTheWay a b (before x) (place t x)
          → OnTheWay a b (before x) (place (send h (Request.move_window_silent c.address w) t).1 x)
      step c at t p = elim (tried (Request.move_window_silent c.address w) c.address w t refl x) [
        | inl still ↦ subst (OnTheWay a b (before x)) (sym still) p
        | inr (this, gone) ↦
            let at_x : before x ≡ some v = subst (λ y. before y ≡ some v) this at in
            subst (OnTheWay a b (before x))
              (sym (gone ∙ moved-some a b v w (before x) (place t x) p at_x)) (may at_x)
      ]

  swap_windows-OnTheWay :
      (cs : List Client)
      → Says before cs
      → (s : S) → place s x ≡ before x
      → OnTheWay a b (before x) (place (swap_windows h a b cs s).1 x)
  unfolding swap_windows
  swap_windows-OnTheWay cs says s same =
      kept_by Way (move_all h (on_workspace a cs) buffer_ws s) _
        (move_all-OnTheWay a buffer_ws (λ at. inr (inl (at, refl))) cs says s (inl same))
        (λ _ s1 _ p1.
          kept_by Way (move_all h (on_workspace b cs) a s1) _
            (move_all-OnTheWay b a (λ at. inr (inr (lands at (exchanged-second a b)))) cs says s1
              p1)
            (λ _ s2 _ p2.
              move_all-OnTheWay a b (λ at. inr (inr (lands at (exchanged-first a b)))) cs says s2
                p2))
    where
      Way : S → Type 0
      Way t = OnTheWay a b (before x) (place t x)

      lands :
          {v w : WorkspaceId}
          → before x ≡ some v
          → exchanged a b v ≡ w
          → some w ≡ Option_map (exchanged a b) (before x)
      lands at e = sym (ap (Option_map (exchanged a b)) at ∙ ap some e)

module _ {S : Type 0} (h : Hyprland S) (place : S → Places) (laws : Compositor h place)
    (m : WorkspaceManager) where
  -- Two monitors or more are connected, the focused one shows a virtual workspace, and it has a
  -- neighbour on the side asked for. Then, however the swap ends, each window is where it was, or it
  -- was on the focused monitor's workspace and is in the buffer, or it is where a complete swap
  -- brings it.
  pub swap_monitor-OnTheWay :
      (direction : Direction) (s s1 s2 : S) (ms : List Monitor) (focused target : Monitor) (idx : ℕ)
      (v : VirtualWorkspace)
      → monitors h s ≡ (ok ms, s1)
      → 2 ≤ length ms
      → active_monitor h s1 ≡ (ok focused, s2)
      → position (λ (n : Monitor). eq_ℤ n.id focused.id) (sort_by_x ms) ≡ some idx
      → neighbour h m (sort_by_x ms) (target_idx direction idx (length (sort_by_x ms)))
        ≡ some target
      → workspace_of focused.active_workspace ≡ some v
      → (x : Text)
      → OnTheWay
          (target_of m v focused.id)
          (target_of m v target.id)
          (place s x)
          (place (swap_monitor h m direction s).1 x)
  swap_monitor-OnTheWay direction s s1 s2 ms focused target idx v em two ef ei et ev x =
      subst (λ o. OnTheWay a b (place s x) (place o.1 x))
        (sym (
          swap_monitor-swap_windows h place laws m direction s s1 s2 ms focused target idx v em two
            ef ei et ev))
        (subst (λ o. OnTheWay a b o (place swapped.1 x)) unmoved
          (kept_by (λ t. OnTheWay a b (place s2 x) (place t x)) (clients h s2) _ (inl asked_first)
            (λ cs s3 ec _.
              let (same, says, _) = clients-place h place laws s2 s3 cs ec in
              subst (λ o. OnTheWay a b o (place (swap_windows h a b cs s3).1 x)) (same x)
                (swap_windows-OnTheWay h place laws a b x (place s3) cs says s3 refl))))
    where
      a : WorkspaceId
      a = target_of m v focused.id

      b : WorkspaceId
      b = target_of m v target.id

      swapped : Outcome S (Unit {0})
      swapped = clients h s2 >>= λ cs t. swap_windows h a b cs t

      unmoved : place s2 x ≡ place s x
      unmoved =
          active_monitor-place h place laws s1 s2 focused ef x
          ∙ monitors-place h place laws s s1 ms em x

      asked_first : place (clients h s2).1 x ≡ place s2 x
      asked_first = unfold clients query in laws.asked (codes "clients") s2 x
