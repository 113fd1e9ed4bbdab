-- ===== src/Hypr/Session.antt =====
-- packages/hypr-workspaced/src/query.rs, request.rs and error.rs: the exchanges with Hyprland that
-- the workspace manager makes, in sequence. Hyprland and the JSON readers are parameters.
use foundrix.Base.{
  ℕ, List, [], ◌∷◌, find, if◌then◌else◌, Text, text_eq, codes, Result, ok, err, ok_or, map_err,
}
use foundrix.Hypr.Data.{Monitor, Client, Workspace, CursorPosition}
use foundrix.Hypr.Request.{Request, command}

pub data Error : Type 0 where
  transport : Text → Error
  hyprland_request : Text → Text → Error
  hyprland_answer : Text → Text → Error
  no_focused_monitor no_monitors : Error
  invalid_virtual_workspace : ℕ → Error
  invalid_window_pattern : Text → Error
  other : Text → Error

-- What the program finds outside: the socket, with a state S of Hyprland behind it, and serde_json.
pub record Hyprland (S : Type 0) : Type 0 where
  pub exchange : Text → Text → S → Result Text Text × S
  pub read_monitors : Text → Result (List Monitor) Text
  pub read_clients : Text → Result (List Client) Text
  pub read_workspaces : Text → Result (List Workspace) Text
  pub read_workspace : Text → Result Workspace Text
  pub read_cursor : Text → Result CursorPosition Text

-- The result of an action and the state that it leaves.
abbrev pub Outcome : Type 0 → Type 0 → Type 0
Outcome S A = Result A Error × S

module _ {S A B : Type 0} where
  infixl 5 ◌>>=◌
  abbrev pub ◌>>=◌ : Outcome S A → (A → S → Outcome S B) → Outcome S B
  (ok a, s) >>= f = f a s
  (err e, s) >>= f = (err e, s)

  -- `if let Err(e) = … { warn!(…) }`
  abbrev pub or_warn : Outcome S A → (S → Outcome S B) → Outcome S B
  or_warn (r, s) f = f s

module _ {S A : Type 0} where
  -- A `for` loop whose body may return early with an error.
  unfoldable pub for_each : List A → (A → S → Outcome S (Unit {0})) → S → Outcome S (Unit {0})
  for_each [] f s = (ok tt, s)
  for_each (a ∷ rest) f s = f a s >>= λ _ s1. for_each rest f s1

module _ {S : Type 0} (h : Hyprland S) where
  -- `decode`, on the answer of an exchange.
  abbrev pub decode :
      {A : Type 0} → Text → (Text → Result A Text) → Result Text Text → Result A Error
  decode request read (err e) = err (Error.transport e)
  decode request read (ok answer) = map_err (Error.hyprland_answer request) (read answer)

  unfoldable pub query : {A : Type 0} → Text → (Text → Result A Text) → S → Outcome S A
  query request read s =
      let (answer, s1) = h.exchange (codes "j") request s in (decode request read answer, s1)

  unfoldable pub monitors : S → Outcome S (List Monitor)
  unfolding query
  monitors = query (codes "monitors all") h.read_monitors

  unfoldable pub clients : S → Outcome S (List Client)
  unfolding query
  clients = query (codes "clients") h.read_clients

  unfoldable pub workspaces : S → Outcome S (List Workspace)
  unfolding query
  workspaces = query (codes "workspaces") h.read_workspaces

  unfoldable pub active_workspace : S → Outcome S Workspace
  unfolding query
  active_workspace = query (codes "activeworkspace") h.read_workspace

  unfoldable pub cursor_position : S → Outcome S CursorPosition
  unfolding query
  cursor_position = query (codes "cursorpos") h.read_cursor

  -- `focused`
  unfoldable pub focused : List Monitor → Result Monitor Error
  focused ms = ok_or (find (λ (m : Monitor). m.focused) ms) Error.no_focused_monitor

  unfoldable pub active_monitor : S → Outcome S Monitor
  unfolding monitors focused
  active_monitor s = monitors s >>= λ ms s1. (focused ms, s1)

  -- The answer to a request must be `ok`.
  abbrev pub check_answer : Text → Result Text Text → Result (Unit {0}) Error
  check_answer request (err e) = err (Error.transport e)
  check_answer request (ok answer) =
      if text_eq answer (codes "ok") then ok tt else err (Error.hyprland_request request answer)

  -- `Request::send`
  unfoldable pub send : Request → S → Outcome S (Unit {0})
  unfolding command text_eq
  send r s = let (answer, s1) = h.exchange [] (command r) s in (check_answer (command r) answer, s1)
