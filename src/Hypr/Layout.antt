-- ===== src/Hypr/Layout.antt =====
-- packages/hypr-workspaced/src/workspace.rs, MonitorLayout: the slots of the connected monitors.
pub mod Laws
use foundrix.Base.{
  ℕ, suc, zero, ◌%◌, ◌==◌, leb, List, [], ◌∷◌, ◌++◌, Option, none, some, if◌then◌else◌, Text, ℤ,
  eq_ℤ, as_u8, Map, get, put,
}
use foundrix.Hypr.Ids.{MonitorSlot}
use foundrix.Hypr.Data.{Monitor}
use foundrix.Hypr.Registry.{MonitorRegistry, load, saved, register, slot_for}

pub record MonitorLayout : Type 0 where
  pub slots : Map ℤ MonitorSlot

-- `MonitorLayout::new`
abbrev pub no_slots : MonitorLayout
no_slots = record { slots = [] }

-- The loop of `assign` over the monitors.
unfoldable pub assign_each : MonitorRegistry → List Monitor → Map ℤ MonitorSlot → Map ℤ MonitorSlot
unfolding slot_for put eq_ℤ
assign_each r [] slots = slots
assign_each r (m ∷ ms) slots = elim (slot_for r m.description) [
  | none ↦ assign_each r ms slots
  | some i ↦ assign_each r ms (put eq_ℤ m.id (i % 256) slots)
]

-- How a save of the registry goes: its directory cannot be made, the write fails and leaves what it
-- leaves of the file, or the file is written. A failure is logged, and the program goes on.
pub data SaveOutcome : Type 0 where
  no_directory written : SaveOutcome
  write_failed : Option Text → SaveOutcome

-- The registry's file, whose content is none when it cannot be read, and how the next saves go; they
-- succeed where nothing else is said.
pub record RegistryFile : Type 0 where
  pub content : Option Text
  pub outcomes : List SaveOutcome

abbrev pub next_save : List SaveOutcome → SaveOutcome
next_save [] = written
next_save (o ∷ outcomes) = o

abbrev pub later_saves : List SaveOutcome → List SaveOutcome
later_saves [] = []
later_saves (o ∷ outcomes) = outcomes

-- The content of the file after a save that goes like this.
abbrev pub left_by : SaveOutcome → MonitorRegistry → Option Text → Option Text
left_by no_directory r content = content
left_by written r content = some (saved r)
left_by (write_failed remains) r content = remains

-- `MonitorRegistry::save`
unfoldable pub save : MonitorRegistry → RegistryFile → RegistryFile
unfolding saved
save r file = record {
  content = left_by (next_save file.outcomes) r file.content;
  outcomes = later_saves file.outcomes;
}

-- `MonitorLayout::assign`: the layout, and the registry's file.
unfoldable pub assign : RegistryFile → List Monitor → MonitorLayout × RegistryFile
unfolding load register save assign_each
assign file monitors =
    let (r, modified) = register (load file.content) monitors in
    (record { slots = assign_each r monitors [] }, if modified then save r file else file)

-- `unwrap_or(MonitorSlot::new(monitor_id as u8))`
abbrev pub slot_or : ℤ → Option MonitorSlot → MonitorSlot
slot_or id none = as_u8 id
slot_or id (some s) = s

-- `MonitorLayout::slot_for`
unfoldable pub monitor_slot : MonitorLayout → ℤ → MonitorSlot
unfolding get eq_ℤ as_u8
monitor_slot l id = slot_or id (get eq_ℤ id l.slots)

-- `slot_to_monitor_name`: a later monitor of the same slot wins.
unfoldable pub names_from :
    MonitorLayout → List Monitor → Map MonitorSlot Text → Map MonitorSlot Text
unfolding monitor_slot put
names_from l [] names = names
names_from l (m ∷ ms) names =
    names_from l ms (put (λ a b. a == b) (monitor_slot l m.id) m.name names)

unfoldable pub slot_to_monitor_name : MonitorLayout → List Monitor → Map MonitorSlot Text
unfolding names_from
slot_to_monitor_name l monitors = names_from l monitors []

-- The highest slot of a map, or 0.
unfoldable pub max_slot : Map ℤ MonitorSlot → ℕ
max_slot [] = 0
max_slot ((id, s) ∷ m) = let rest = max_slot m in if leb rest s then s else rest

-- `0..=n`
unfoldable pub up_to : ℕ → List ℕ
up_to zero = 0 ∷ []
up_to (suc n) = up_to n ++ suc n ∷ []

unfoldable pub all_slots : MonitorLayout → List MonitorSlot
unfolding max_slot up_to
all_slots l = up_to (max_slot l.slots)
