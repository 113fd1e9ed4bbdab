-- ===== src/Hypr/Tests/Desk.antt =====
-- A compositor of two monitors and two windows for the runs of packages/hypr-workspaced: it reads the
-- text of a request for a move, and its state is the workspaces of the windows `0x1` and `0x2`.
use foundrix.Base.{
  ℕ, Bool, true, false, List, [], ◌∷◌, Option, none, some, if◌then◌else◌, Text, text_eq, codes,
  strip_prefix, parse_digits, ℤ, pos, int_text, Result, ok, err,
}
use foundrix.Hypr.Data.{Monitor, Client}
use foundrix.Hypr.Request.Moves.{read_move}
use foundrix.Hypr.Session.{Hyprland}
use foundrix.Hypr.Manager.Placed.{Places}

abbrev pub Desk : Type 0
Desk = ℕ × ℕ

abbrev pub one : Text
one = b'0' ∷ b'x' ∷ b'1' ∷ []

abbrev pub two : Text
two = b'0' ∷ b'x' ∷ b'2' ∷ []

abbrev pub window : Text → ℕ → Client
window a w = record {
  address = a;
  at_x = pos 0;
  at_y = pos 0;
  size_w = pos 640;
  size_h = pos 480;
  workspace = pos w;
  floating = false;
  fullscreen = false;
  monitor = none;
  class = [];
  title = [];
  initial_class = [];
  initial_title = [];
  pid = pos 1;
}

abbrev pub screen : ℤ → Text → ℕ → Bool → Monitor
screen id name w focused = record {
  id = id;
  name = name;
  description = name;
  x = id;
  active_workspace = pos w;
  focused = focused;
}

abbrev pub screens : List Monitor
screens = screen (pos 0) (b'A' ∷ []) 1 true ∷ screen (pos 1) (b'B' ∷ []) 11 false ∷ []

abbrev pub place : Desk → Places
place s x = if text_eq one x then some (pos s.0) else if text_eq two x then some (pos s.1) else none

-- A number that is written the way the program writes it.
abbrev pub number_if : Text → Option ℕ → Option ℕ
number_if t none = none
number_if t (some n) = if text_eq (int_text (pos n)) t then some n else none

unfoldable pub number : Text → Option ℕ
unfolding parse_digits text_eq int_text
number t = number_if t (parse_digits 10 9999 0 t)

abbrev pub put : Text → ℕ → Desk → Desk
put a n s = if text_eq one a then (n, s.1) else if text_eq two a then (s.0, n) else s

abbrev pub put_at : Option Text → Option ℕ → Desk → Result Text Text × Desk
put_at (some a) (some n) s = (ok (codes "ok"), put a n s)
put_at _ _ s = (err (codes "invalid"), s)

abbrev pub perform : Option (Text × Text) → Desk → Result Text Text × Desk
perform none s = (ok (codes "ok"), s)
perform (some (window, workspace)) s =
    put_at (strip_prefix (codes "address:") window) (number workspace) s

abbrev pub answer : Text → Text → Desk → Result Text Text × Desk
answer [] request s = perform (read_move request) s
answer (c ∷ kind) request s = (ok (s.0 ∷ s.1 ∷ []), s)

abbrev pub windows : Text → Result (List Client) Text
windows (a ∷ b ∷ []) = ok (window one a ∷ window two b ∷ [])
windows _ = err []

abbrev pub desk : Hyprland Desk
desk = record {
  exchange = answer;
  read_monitors = λ _. ok screens;
  read_clients = windows;
  read_workspaces = λ _. ok [];
  read_workspace = λ _. ok (record { id = pos 1; monitor = b'A' ∷ [] });
  read_cursor = λ _. err [];
}
