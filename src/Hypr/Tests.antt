-- ===== src/Hypr/Tests.antt =====
-- Runs of packages/hypr-workspaced on concrete inputs, and the theorems at such inputs.
mod Desk
mod Moving
mod Placing
mod Talking
use foundrix.Hypr.Layout.{RegistryFile}
use foundrix.Hypr.Layout.Laws.{DistinctIds}
use foundrix.Base.{
  Option, ℕ, ◌<◌, ◌≡◌, ◌↔◌, ◌+ℤ◌, refl, true, false, [], ◌∷◌, ◌++◌, some, All, arith, codes, pos,
  negsuc, ok, strip_cr, is_whitespace,
}
use foundrix.Hypr.Ids.{hyprland_id, workspace_of, slot_of, is_valid_workspace}
use foundrix.Hypr.Ids.Laws.{InRange, of-hyprland_id, is_valid_workspace_iff}
use foundrix.Hypr.Data.{Monitor}
use foundrix.Hypr.Registry.{MonitorRegistry, load, saved, register}
use foundrix.Hypr.Registry.Laws.{Registered, register-Registered, IsLine, load-saved}
use foundrix.Hypr.Window.{parse, display, pid}
use foundrix.Hypr.Window.RoundTrip.{parse-display}
use foundrix.Hypr.Request.{lua_string}
use foundrix.Hypr.Request.Reader.{read_literal, read_literal-lua_string}
use foundrix.Hypr.Ipc.{pin, parse_command}
use foundrix.Hypr.Ipc
use foundrix.Hypr.Ipc.RoundTrip.{parse_command-display}

of-hyprland_id_example :
    (workspace_of (hyprland_id 3 12) ≡ some 3) × (slot_of (hyprland_id 3 12) ≡ 12)
of-hyprland_id_example = of-hyprland_id 3 12 (omega arith, omega arith) (omega arith)

is_valid_workspace_iff_example :
    (is_valid_workspace (pos 13) 2 ≡ true)
    ↔ ((v : ℕ) × (slot : ℕ) × InRange v × (slot < 2) × (pos 13 ≡ hyprland_id v slot))
is_valid_workspace_iff_example = is_valid_workspace_iff 13 2 (omega arith)

abbrev laptop : Monitor
laptop = record {
  id = pos 0;
  name = codes "eDP-1";
  description = codes "BOE panel";
  x = pos 0;
  active_workspace = pos 1;
  focused = true;
}

abbrev desk : Monitor
desk = record {
  id = pos 3;
  name = codes "DP-2";
  description = codes "LG 27 serial 7";
  x = pos 1920;
  active_workspace = pos 11;
  focused = false;
}

abbrev known_laptop : MonitorRegistry
known_laptop = record { entries = codes "BOE panel" ∷ [] }

register-Registered_example :
    Registered known_laptop (desk ∷ laptop ∷ []) (register known_laptop (desk ∷ laptop ∷ []))
register-Registered_example = register-Registered known_laptop (desk ∷ laptop ∷ [])

abbrev both : MonitorRegistry
both = record { entries = codes "BOE" ∷ codes "LG 7" ∷ [] }

both_lines : All IsLine both.entries
unfolding codes strip_cr
both_lines = (
  (refl, (omega arith, (omega arith, (omega arith, tt))), refl),
  ((refl, (omega arith, (omega arith, (omega arith, (omega arith, tt)))), refl), tt),
)

load-saved_example : load (some (saved both)) ≡ both
load-saved_example = load-saved both both_lines

parse-display_example : parse (display (pid (negsuc 4))) ≡ some (pid (negsuc 4))
parse-display_example = parse-display (pid (negsuc 4)) (omega arith)

read_literal-lua_string_example :
    read_literal (lua_string (codes "a\"b\\") ++ codes " })") ≡ some (codes "a\"b\\", codes " })")
read_literal-lua_string_example = read_literal-lua_string (codes "a\"b\\") (codes " })")

accepted : parse_command (codes " pin  class:x   y ") ≡ ok (pin (codes "class:x y"))
unfolding parse_command codes is_whitespace
accepted = refl

parse_command-display_example :
    parse_command (Ipc.display (pin (codes "class:x y"))) ≡ ok (pin (codes "class:x y"))
parse_command-display_example =
    parse_command-display (codes " pin  class:x   y ") (pin (codes "class:x y")) accepted

-- A file with one entry, which is saved without an error.
abbrev laptop_file : RegistryFile
laptop_file = record { content = some (codes "BOE panel\n"); outcomes = [] }

apart : DistinctIds (desk ∷ laptop ∷ [])
apart = ((λ e. ground (arith, e), tt), (tt, tt))
