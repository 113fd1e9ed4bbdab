-- ===== src/Hypr/Layout/Laws.antt =====
-- The layout gives each connected monitor the slot that the registry's file keeps for it.
use foundrix.Base.{ℕ, ◌%◌, ◌≡◌, ◌≢◌, ◌⊎◌, List, [], ◌∷◌, some, All, Text, ℤ, eq_ℤ, Map, get}
use foundrix.Hypr.Ids.{MonitorSlot}
use foundrix.Hypr.Data.{Monitor}
use foundrix.Hypr.Registry.{MonitorRegistry, load, slot_for}
use foundrix.Hypr.Layout.{SaveOutcome, no_directory, written, write_failed, RegistryFile}

-- No two monitors have one id.
abbrev pub DistinctIds : List Monitor → Type 0
DistinctIds [] = Unit
DistinctIds (m ∷ ms) = All (λ (n : Monitor). n.id ≢ m.id) ms × DistinctIds ms

module _ (r : MonitorRegistry) where
  abbrev Given : Map ℤ MonitorSlot → Monitor → Type 0
  Given slots m =
      (i : ℕ) × (slot_for r m.description ≡ some i) × (get eq_ℤ m.id slots ≡ some (i % 256))

-- What the file keeps of the slot of a description, by how the next save goes: a save that succeeds
-- keeps the slot, one without a directory keeps the file as it was, and a failed write leaves the slot
-- there or what remains of the file.
abbrev pub Lasts : RegistryFile → RegistryFile → Text → ℕ → SaveOutcome → Type 0
Lasts file after description i written = slot_for (load after.content) description ≡ some i
Lasts file after description i no_directory = after.content ≡ file.content
Lasts file after description i (write_failed remains) =
    (slot_for (load after.content) description ≡ some i) ⊎ (after.content ≡ remains)
