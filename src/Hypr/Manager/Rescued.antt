-- ===== src/Hypr/Manager/Rescued.antt =====
-- packages/hypr-workspaced/src/workspace.rs, `cleanup_orphan_workspaces`: no window is left on the
-- orphan workspace of a slot.
use mathlib.Core.Option.{map as Option_map}
use foundrix.Base.{
  ℕ, zero, suc, ◌*◌, Map, Bool-cases, inl, inr, some-inj, ◌≤◌, ◌≡◌, ◌≢◌, refl, sym, ap, ◌∙◌, Bool,
  true, false, ◌||◌, List, [], ◌∷◌, ◌++◌, Option, none, some, if◌then◌else◌, any, arith, Text, ℤ,
  pos, eq_ℤ, eq_ℤ_iff, ◌+ℤ◌, get, ok,
}
use foundrix.Hypr.Ids.{WorkspaceId, MonitorSlot, orphan_workspace_id, hyprland_id}
use foundrix.Hypr.Data.{Client}
use foundrix.Hypr.Ids.Laws.{orphan-target}
use foundrix.Hypr.Layout.{all_slots, up_to, max_slot}
use foundrix.Hypr.Session.{Hyprland, for_each, clients}
use foundrix.Hypr.Manager.{WorkspaceManager}
use foundrix.Hypr.Manager.Assign.{rescue, cleanup_orphan_workspaces}
use foundrix.Hypr.Manager.Moves.{moved_if, passes, for_each_on-place}
use foundrix.Hypr.Manager.Placed.{Complete, Places, Compositor, Says, >>=-ok, clients-place}

-- The workspace is the orphan of one of the slots.
abbrev pub is_orphan : List MonitorSlot → WorkspaceId → Bool
is_orphan slots w = any (λ slot. eq_ℤ w (orphan_workspace_id slot)) slots

-- Where a window of a workspace is after the rescue: orphans are followed by a first workspace.
abbrev pub rescued : List MonitorSlot → WorkspaceId → WorkspaceId
rescued slots w = if is_orphan slots w then w +ℤ pos 1 else w

-- The orphans of the slots up to the highest are all dealt with.
is_orphan-append :
    (xs ys : List MonitorSlot) (w : WorkspaceId)
    → is_orphan (xs ++ ys) w ≡ (is_orphan xs w || is_orphan ys w)
is_orphan-append [] ys w = refl
is_orphan-append (x ∷ xs) ys w = ground (arith, is_orphan-append xs ys w)

is_orphan-up_to : (n slot : ℕ) → slot ≤ n → is_orphan (up_to n) (orphan_workspace_id slot) ≡ true
unfolding up_to orphan_workspace_id eq_ℤ
is_orphan-up_to zero slot le = ground arith
is_orphan-up_to (suc n) slot le =
    is_orphan-append (up_to n) (suc n ∷ []) (pos (slot * 10))
    ∙ ground (arith, is_orphan-up_to n slot)

max_slot-get :
    (slots : Map ℤ MonitorSlot) (id : ℤ) (slot : MonitorSlot)
    → get eq_ℤ id slots ≡ some slot
    → slot ≤ max_slot slots
unfolding get max_slot
max_slot-get [] id slot e = cc
max_slot-get ((j, i) ∷ slots) id slot e = ground (arith, max_slot-get slots id slot)

-- An orphan is the number of some slot, and what follows it is not.
is_orphan-some :
    (slots : List MonitorSlot) (w : WorkspaceId)
    → is_orphan slots w ≡ true
    → (slot : ℕ) × (w ≡ orphan_workspace_id slot)
is_orphan-some [] w e = cc
is_orphan-some (slot ∷ slots) w e = elim (Bool-cases (eq_ℤ w (orphan_workspace_id slot))) [
  | inl this ↦ (slot, (eq_ℤ_iff w (orphan_workspace_id slot)).0 this)
  | inr other ↦ is_orphan-some slots w (ground arith)
]

rescued-ne :
    (slots : List MonitorSlot) (slot : MonitorSlot) (v : WorkspaceId)
    → is_orphan slots (orphan_workspace_id slot) ≡ true
    → rescued slots v ≢ orphan_workspace_id slot
rescued-ne slots slot v mine q = elim (Bool-cases (is_orphan slots v)) [
  | inl is ↦
      let (i, at) = is_orphan-some slots v is in
      next_to i (sym (ap (λ b. if b then v +ℤ pos 1 else v) is ∙ ap (λ w. w +ℤ pos 1) at) ∙ q)
  | inr not ↦ apart (
      sym (ap (is_orphan slots) (sym (ap (λ b. if b then v +ℤ pos 1 else v) not) ∙ q) ∙ mine) ∙ not)
]
  where
    next_to : (i : ℕ) → orphan_workspace_id i +ℤ pos 1 ≢ orphan_workspace_id slot
    next_to i q = unfold orphan_workspace_id ◌+ℤ◌ in ground arith

    apart : true ≢ false
    apart r = cc

-- The same for a window that was at `was` when the list was read.
abbrev rescued_from :
    List MonitorSlot → Option WorkspaceId → Option WorkspaceId → Option WorkspaceId
rescued_from slots none is = is
rescued_from slots (some v) is = if is_orphan slots v then Option_map (λ _. v +ℤ pos 1) is else is

abbrev one_rescued : Option WorkspaceId → MonitorSlot → Option WorkspaceId → Option WorkspaceId
one_rescued was slot is =
    moved_if (passes (λ v. eq_ℤ v (orphan_workspace_id slot)) was)
      (orphan_workspace_id slot +ℤ pos 1) is

nothing : (was is : Option WorkspaceId) → is ≡ rescued_from [] was is
nothing none is = refl
nothing (some v) is = refl

rescued_from-one_rescued :
    (slot : MonitorSlot) (slots : List MonitorSlot) (was is : Option WorkspaceId)
    → rescued_from slots was (one_rescued was slot is) ≡ rescued_from (slot ∷ slots) was is
rescued_from-one_rescued slot slots none is = refl
rescued_from-one_rescued slot slots (some v) none = ground arith
rescued_from-one_rescued slot slots (some v) (some w) =
    ground (arith, eq_ℤ_iff v (orphan_workspace_id slot))

rescued_from-rescued :
    (slots : List MonitorSlot) (o : Option WorkspaceId)
    → rescued_from slots o o ≡ Option_map (rescued slots) o
rescued_from-rescued slots none = refl
rescued_from-rescued slots (some v) = ground arith

module _ {S : Type 0} (h : Hyprland S) (place : S → Places) (laws : Compositor h place)
    (m : WorkspaceManager) where
  rescue-place :
      (before : Places) (cs : List Client)
      → Says before cs
      → Complete before cs
      → (slot : MonitorSlot) (s s1 : S) → rescue h m cs slot s ≡ (ok tt, s1)
      → (x : Text) → place s1 x ≡ one_rescued (before x) slot (place s x)
  unfolding rescue
  rescue-place before cs says all slot s s1 e x =
      for_each_on-place h place laws before (orphan_workspace_id slot)
        (orphan_workspace_id slot +ℤ pos 1) cs says all s s1 e x

  -- The loop over the slots, for a window that is where the list says or was rescued before.
  rescues-place :
      (before : Places) (cs : List Client)
      → Says before cs
      → Complete before cs
      → (slots : List MonitorSlot) (s s1 : S) → for_each slots (rescue h m cs) s ≡ (ok tt, s1)
      → (x : Text) → place s1 x ≡ rescued_from slots (before x) (place s x)
  unfolding for_each
  rescues-place before cs says all [] s s1 e x =
      ap (λ q. place q.1 x) (sym e) ∙ nothing (before x) (place s x)
  rescues-place before cs says all (slot ∷ slots) s s2 e x =
      let (_, s1, e1, e2) =
        >>=-ok (rescue h m cs slot s) (λ _ t. for_each slots (rescue h m cs) t) tt s2 e in
      rescues-place before cs says all slots s1 s2 e2 x
      ∙ ap (rescued_from slots (before x)) (rescue-place before cs says all slot s s1 e1 x)
      ∙ rescued_from-one_rescued slot slots (before x) (place s x)

  cleanup_orphan_workspaces-place :
      (s s' : S)
      → cleanup_orphan_workspaces h m s ≡ (ok tt, s')
      → (x : Text) → place s' x ≡ Option_map (rescued (all_slots m.layout)) (place s x)
  unfolding cleanup_orphan_workspaces
  cleanup_orphan_workspaces-place s s' e x =
      let (cs, s1, ec, es) = >>=-ok (clients h s) _ tt s' e in
      let (same, says, all) = clients-place h place laws s s1 cs ec in
      rescues-place (place s1) cs says all (all_slots m.layout) s1 s' es x
      ∙ rescued_from-rescued (all_slots m.layout) (place s1 x)
      ∙ ap (Option_map (rescued (all_slots m.layout))) (same x)

  -- Each slot of the layout is among the slots of the loop.
  layout-is_orphan :
      (id : ℤ) (slot : MonitorSlot)
      → get eq_ℤ id m.layout.slots ≡ some slot
      → is_orphan (all_slots m.layout) (orphan_workspace_id slot) ≡ true
  unfolding all_slots
  layout-is_orphan id slot e =
      is_orphan-up_to (max_slot m.layout.slots) slot (max_slot-get m.layout.slots id slot e)

  -- The clean-up succeeds, and a monitor of the layout has a slot. Then a window that was on the
  -- slot's orphan workspace is on the slot's first workspace, a window that was on no orphan
  -- workspace of any slot is where it was, and no window is on the slot's orphan workspace.
  pub cleanup_orphan_workspaces-NoOrphans :
      (s s' : S) (id : ℤ) (slot : MonitorSlot)
      → cleanup_orphan_workspaces h m s ≡ (ok tt, s')
      → get eq_ℤ id m.layout.slots ≡ some slot
      → (x : Text)
      → (place s x ≡ some (orphan_workspace_id slot) → place s' x ≡ some (hyprland_id 1 slot))
        × ((v : WorkspaceId)
            → place s x ≡ some v
            → ((i : MonitorSlot) → v ≢ orphan_workspace_id i)
            → place s' x ≡ some v)
        × (place s' x ≢ some (orphan_workspace_id slot))
  cleanup_orphan_workspaces-NoOrphans s s' id slot e has x = (
    λ at.
        after
        ∙ ap (Option_map (rescued slots)) at
        ∙ ap (λ b. some (if b then orphan_workspace_id slot +ℤ pos 1 else orphan_workspace_id slot))
            mine
        ∙ ap some (orphan-target slot).1,
    λ v at none_of. after ∙ ap (Option_map (rescued slots)) at ∙ ap some (kept v none_of),
    λ at. left (place s x) (sym after ∙ at),
  )
    where
      slots : List MonitorSlot
      slots = all_slots m.layout

      after : place s' x ≡ Option_map (rescued slots) (place s x)
      after = cleanup_orphan_workspaces-place s s' e x

      mine : is_orphan slots (orphan_workspace_id slot) ≡ true
      mine = layout-is_orphan id slot has

      kept :
          (v : WorkspaceId) → ((i : MonitorSlot) → v ≢ orphan_workspace_id i) → rescued slots v ≡ v
      kept v none_of = elim (Bool-cases (is_orphan slots v)) [
        | inl is ↦ absurd (none_of (is_orphan-some slots v is).0 (is_orphan-some slots v is).1)
        | inr not ↦ rw not refl
      ]

      left :
          (o : Option WorkspaceId) → Option_map (rescued slots) o ≢ some (orphan_workspace_id slot)
      left none q = cc
      left (some v) q = rescued-ne slots slot v mine (some-inj q)
