-- ===== src/Hypr/Ids/Laws.antt =====
-- The numbering of workspaces: the two directions agree, and navigation is a cycle.
use foundrix.Base.{ℕ, ◌+ℤ◌, ◌/◌, ◌%◌, ◌≤◌, ◌<◌, ◌≡◌, true, none, some, arith, pos, ◌↔◌}
use foundrix.Hypr.Ids.{
  next, prev, hyprland_id, workspace_of, slot_of, is_valid_workspace, orphan_workspace_id,
}

-- The range that `VirtualWorkspace::new` lets through.
abbrev pub InRange : ℕ → Type 0
InRange v = (1 ≤ v) × (v ≤ 9)

-- The two directions of navigation stay in the range and undo each other.
next-prev :
    (v : ℕ)
    → InRange v
    → InRange (next v) × InRange (prev v) × (prev (next v) ≡ v) × (next (prev v) ≡ v)
unfolding next prev
next-prev v h = omega arith

-- A workspace number is read back as the virtual workspace and the slot that it was made of.
pub of-hyprland_id :
    (v slot : ℕ)
    → InRange v
    → slot < 256
    → (workspace_of (hyprland_id v slot) ≡ some v) × (slot_of (hyprland_id v slot) ≡ slot)
unfolding hyprland_id workspace_of slot_of
of-hyprland_id v slot h s = (ground arith, ground arith)

-- A number below 2560 that stands for a virtual workspace is in range, and is the number made of
-- its parts.
hyprland_id-of :
    (n v : ℕ)
    → n < 2560
    → workspace_of (pos n) ≡ some v
    → InRange v × (hyprland_id v (slot_of (pos n)) ≡ pos n)
unfolding hyprland_id workspace_of slot_of
hyprland_id-of n v lt h = (ground arith, ground arith)

-- The valid numbers below 2560 are those of a virtual workspace in range on a slot below the number
-- of monitors.
pub is_valid_workspace_iff :
    (n monitors : ℕ)
    → n < 2560
    → (is_valid_workspace (pos n) monitors ≡ true)
      ↔ ((v : ℕ) × (slot : ℕ) × InRange v × (slot < monitors) × (pos n ≡ hyprland_id v slot))
unfolding is_valid_workspace hyprland_id
is_valid_workspace_iff n monitors lt = (
  λ h. (n % 10, n / 10, ground arith, ground arith, ground arith),
  λ (v, slot, range, below, e). ground arith,
)

-- The orphan number of a slot stands for no virtual workspace, and the rescue target beside it is
-- the first virtual workspace of the same slot.
pub orphan-target :
    (slot : ℕ)
    → (workspace_of (orphan_workspace_id slot) ≡ none)
      × (orphan_workspace_id slot +ℤ pos 1 ≡ hyprland_id 1 slot)
unfolding orphan_workspace_id workspace_of hyprland_id ◌+ℤ◌
orphan-target slot = (ground arith, ground arith)
