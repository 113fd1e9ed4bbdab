-- ===== src/Hypr/Request.antt =====
-- packages/hypr-workspaced/src/request.rs: the requests that are written to Hyprland's command
-- socket, as Lua text, and the path of that socket.
pub mod Reader
pub mod Moves
use foundrix.Base.{
  ℕ, ◌+◌, ◌/◌, ◌%◌, leb, ◌==◌, ◌≡◌, Bool, true, false, ◌||◌, ◌&&◌, List, [], ◌∷◌, ◌++◌, Option,
  none, some, if◌then◌else◌, Text, codes, int_text, Result, ok, err, ◌>>=◌,
}
use foundrix.Hypr.Ids.{WorkspaceId}

-- A window is its address, as Hyprland writes it.
pub data Request : Type 0 where
  focus_workspace : WorkspaceId → Request
  move_window_silent : Text → WorkspaceId → Request
  move_window : Text → WorkspaceId → Request
  move_active_window : WorkspaceId → Request
  move_workspace_to_monitor : WorkspaceId → Text → Request
  focus_window : Text → Request
  workspace_rule : WorkspaceId → Text → Bool → Request

-- `Request::kind`
unfoldable pub kind : Request → Text
kind (workspace_rule id monitor default) = codes "eval"
kind _ = codes "dispatch"

-- `is_ascii_control`
unfoldable pub is_ascii_control : ℕ → Bool
is_ascii_control c = leb c 0x1f || c == 0x7f

-- `{:03}` of a number below a thousand.
abbrev pub three_digits : ℕ → Text
three_digits n = (b'0' + n / 100) ∷ (b'0' + n / 10 % 10) ∷ (b'0' + n % 10) ∷ []

-- What stands for one character between the quotes.
unfoldable pub quote_char : ℕ → Text
unfolding is_ascii_control
quote_char c =
    if c == b'"'
    then b'\\' ∷ b'"' ∷ []
    else if c == b'\\'
    then b'\\' ∷ b'\\' ∷ []
    else if c == 0x0a
    then b'\\' ∷ b'n' ∷ []
    else if c == 0x0d
    then b'\\' ∷ b'r' ∷ []
    else if c == 0x09
    then b'\\' ∷ b't' ∷ []
    else if is_ascii_control c
    then b'\\' ∷ three_digits c
    else c ∷ []

unfoldable pub quote_chars : Text → Text
unfolding quote_char
quote_chars [] = []
quote_chars (c ∷ s) = quote_char c ++ quote_chars s

unfoldable pub lua_string : Text → Text
unfolding quote_chars
lua_string s = b'"' ∷ quote_chars s ++ b'"' ∷ []

abbrev pub workspace_text : WorkspaceId → Text
workspace_text id = lua_string (int_text id)

abbrev pub window_text : Text → Text
window_text address = lua_string (codes "address:" ++ address)

abbrev pub default_text : Bool → Text
default_text true = codes "true"
default_text false = codes "false"

-- `Request::lua`
unfoldable pub lua : Request → Text
unfolding lua_string int_text
lua (focus_workspace id) = codes "hl.dsp.focus({ workspace = " ++ workspace_text id ++ codes " })"
lua (move_window_silent w id) =
    codes "hl.dsp.window.move({ window = "
    ++ window_text w
    ++ codes ", workspace = "
    ++ workspace_text id
    ++ codes ", follow = false })"
lua (move_window w id) =
    codes "hl.dsp.window.move({ window = "
    ++ window_text w
    ++ codes ", workspace = "
    ++ workspace_text id
    ++ codes " })"
lua (move_active_window id) =
    codes "hl.dsp.window.move({ workspace = " ++ workspace_text id ++ codes " })"
lua (move_workspace_to_monitor id monitor) =
    codes "hl.dsp.workspace.move({ workspace = "
    ++ workspace_text id
    ++ codes ", monitor = "
    ++ lua_string monitor
    ++ codes " })"
lua (focus_window w) = codes "hl.dsp.focus({ window = " ++ window_text w ++ codes " })"
lua (workspace_rule id monitor default) =
    codes "hl.workspace_rule({ workspace = "
    ++ workspace_text id
    ++ codes ", monitor = "
    ++ lua_string monitor
    ++ codes ", persistent = true, default = "
    ++ default_text default
    ++ codes " })"

-- `Request::command`
unfoldable pub command : Request → Text
unfolding kind lua
command r = kind r ++ codes " " ++ lua r

pub data SocketError : Type 0 where
  no_directory no_signature : SocketError

-- A path is the list of what was pushed.
abbrev pub socket_dir : Option Text → Option Text → Result (List Text) SocketError
socket_dir (some dir) uid = ok (dir ∷ [])
socket_dir none (some uid) = ok ((codes "/run/user/" ++ uid) ∷ [])
socket_dir none none = err SocketError.no_directory

unfoldable pub socket_path_from :
    Option Text → Option Text → Option Text → Result (List Text) SocketError
socket_path_from runtime_dir uid signature = socket_dir runtime_dir uid >>= λ path. elim signature [
  | none ↦ err SocketError.no_signature
  | some s ↦ ok (path ++ codes "hypr" ∷ s ∷ codes ".socket.sock" ∷ [])
]
