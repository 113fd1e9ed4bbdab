-- ===== src/Hypr/Registry.antt =====
-- packages/hypr-workspaced/src/workspace.rs, MonitorRegistry: the file of monitor descriptions, one
-- a line, whose line numbers are the permanent slots.
pub mod Laws
use foundrix.Base.{
  ℕ, Bool, true, false, not, List, [], ◌∷◌, ◌++◌, map, Option, none, some, is_empty, filter,
  position, Text, text_eq, lines,
}
use foundrix.Hypr.Data.{Monitor}

pub record MonitorRegistry : Type 0 where
  pub entries : List Text

-- `MonitorRegistry::load`, from the content of the file, if it can be read.
unfoldable pub load : Option Text → MonitorRegistry
unfolding lines
load none = record { entries = [] }
load (some content) = record { entries = filter (λ l. not (is_empty l)) (lines content) }

-- `entries.join("\n")`
unfoldable pub join_lines : List Text → Text
join_lines [] = []
join_lines (e ∷ []) = e
join_lines (e ∷ f ∷ es) = e ++ 0x0a ∷ join_lines (f ∷ es)

-- What `MonitorRegistry::save` writes.
unfoldable pub saved : MonitorRegistry → Text
unfolding join_lines
saved r = join_lines r.entries ++ 0x0a ∷ []

unfoldable pub slot_for : MonitorRegistry → Text → Option ℕ
unfolding text_eq
slot_for r description = position (λ d. text_eq d description) r.entries

-- The loop over the monitors of a registry that has entries.
unfoldable pub register_each : List Monitor → MonitorRegistry → Bool → MonitorRegistry × Bool
unfolding slot_for
register_each [] r modified = (r, modified)
register_each (m ∷ ms) r modified = elim (slot_for r m.description) [
  | some i ↦ register_each ms r modified
  | none ↦ register_each ms (record { entries = r.entries ++ m.description ∷ [] }) true
]

-- `MonitorRegistry::register`, with the answer whether the registry was modified.
unfoldable pub register : MonitorRegistry → List Monitor → MonitorRegistry × Bool
unfolding register_each
register r monitors = elim (is_empty r.entries) [
  | true ↦ (
    record { entries = r.entries ++ map (λ (m : Monitor). m.description) monitors },
    not (is_empty (r.entries ++ map (λ (m : Monitor). m.description) monitors)),
  )
  | false ↦ register_each monitors r false
]
