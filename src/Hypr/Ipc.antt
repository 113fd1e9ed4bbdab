-- ===== src/Hypr/Ipc.antt =====
-- packages/hypr-workspaced/src/ipc.rs: the commands and responses on the daemon's own socket.
pub mod Canonical
pub mod RoundTrip
use foundrix.Base.{
  ℕ, ◌≡◌, Bool, true, false, ◌&&◌, ◌||◌, List, [], ◌∷◌, ◌++◌, Option, none, some, if◌then◌else◌,
  Text, text_eq, codes, trim, strip_prefix, split_whitespace, join_words, to_lowercase,
  parse_unsigned, decimal, Result, ok, err, ◌>>=◌, map_err, ok_or,
}
use foundrix.Hypr.Ids.{new}

pub data Direction : Type 0 where
  next prev : Direction

pub data CollapseMode : Type 0 where
  all invisible : CollapseMode

pub data Command : Type 0 where
  switch move_to : ℕ → Command
  navigate : Direction → Command
  collapse : CollapseMode → Command
  swap : Direction → Command
  assign : Command
  pin unpin : Text → Command
  pins : Command
  debug : Bool → Command

pub data CommandError : Type 0 where
  invalid_command : Text → CommandError
  invalid_workspace : ℕ → CommandError

-- `parse_bool_arg`, without the message of its error.
unfoldable pub parse_bool_arg : Text → Option Bool
unfolding to_lowercase text_eq
parse_bool_arg s =
    if text_eq (to_lowercase s) (codes "on")
      || text_eq (to_lowercase s) (codes "true")
      || text_eq (to_lowercase s) (codes "1")
    then some true
    else if text_eq (to_lowercase s) (codes "off")
        || text_eq (to_lowercase s) (codes "false")
        || text_eq (to_lowercase s) (codes "0")
    then some false
    else none

-- `Command::validate_workspace`
unfoldable pub validate_workspace : ℕ → Result ℕ CommandError
unfolding new
validate_workspace ws = map_err invalid_workspace (new ws)

-- The argument of `switch` and `move`, in the text `s`.
unfoldable pub workspace_arg : Text → (ℕ → Command) → Text → Result Command CommandError
unfolding validate_workspace parse_unsigned
workspace_arg s make n = ok_or (parse_unsigned 10 255 n) (invalid_command s) >>= λ ws.
    validate_workspace ws >>= λ v. ok (make v)

abbrev pub debug_arg : Text → Option Bool → Result Command CommandError
debug_arg s none = err (invalid_command s)
debug_arg s (some b) = ok (debug b)

-- The commands of one word.
unfoldable pub bare_command : Text → Text → Result Command CommandError
bare_command s w =
    if text_eq w (codes "next")
    then ok (navigate next)
    else if text_eq w (codes "prev")
    then ok (navigate prev)
    else if text_eq w (codes "assign")
    then ok assign
    else if text_eq w (codes "pins")
    then ok pins
    else err (invalid_command s)

unfoldable pub collapse_arg : Text → Text → Result Command CommandError
collapse_arg s a =
    if text_eq a (codes "all")
    then ok (collapse all)
    else if text_eq a (codes "invisible")
    then ok (collapse invisible)
    else err (invalid_command s)

unfoldable pub swap_arg : Text → Text → Result Command CommandError
swap_arg s a =
    if text_eq a (codes "next")
    then ok (swap next)
    else if text_eq a (codes "prev")
    then ok (swap prev)
    else err (invalid_command s)

-- `pin` and `unpin` take all the words that follow.
unfoldable pub pattern_command : Text → Text → List Text → Result Command CommandError
unfolding join_words
pattern_command s w args =
    if text_eq w (codes "pin")
    then ok (pin (join_words args))
    else if text_eq w (codes "unpin")
    then ok (unpin (join_words args))
    else err (invalid_command s)

-- The commands of two words.
unfoldable pub unary_command : Text → Text → Text → Result Command CommandError
unfolding workspace_arg collapse_arg swap_arg parse_bool_arg pattern_command
unary_command s w a =
    if text_eq w (codes "switch")
    then workspace_arg s switch a
    else if text_eq w (codes "move")
    then workspace_arg s move_to a
    else if text_eq w (codes "collapse")
    then collapse_arg s a
    else if text_eq w (codes "swap")
    then swap_arg s a
    else if text_eq w (codes "debug")
    then debug_arg s (parse_bool_arg a)
    else pattern_command s w (a ∷ [])

-- The match on the words.
unfoldable pub parse_parts : Text → List Text → Result Command CommandError
unfolding bare_command unary_command pattern_command
parse_parts s [] = err (invalid_command s)
parse_parts s (w ∷ []) = bare_command s w
parse_parts s (w ∷ a ∷ []) = unary_command s w a
parse_parts s (w ∷ a ∷ b ∷ args) = pattern_command s w (a ∷ b ∷ args)

-- `Command::from_str`
unfoldable pub parse_command : Text → Result Command CommandError
unfolding trim split_whitespace parse_parts
parse_command s = parse_parts s (split_whitespace (trim s))

-- The words of a command's `Display`, which are written with one space between them.
unfoldable pub display : Command → Text
unfolding decimal
display (switch ws) = codes "switch " ++ decimal ws
display (move_to ws) = codes "move " ++ decimal ws
display (navigate next) = codes "next"
display (navigate prev) = codes "prev"
display (collapse all) = codes "collapse all"
display (collapse invisible) = codes "collapse invisible"
display (swap next) = codes "swap next"
display (swap prev) = codes "swap prev"
display assign = codes "assign"
display (pin pattern) = codes "pin " ++ pattern
display (unpin pattern) = codes "unpin " ++ pattern
display pins = codes "pins"
display (debug true) = codes "debug on"
display (debug false) = codes "debug off"

pub data Response : Type 0 where
  done : Response
  data_of error_of : Text → Response

abbrev pub parse_data : Text → Option Text → Result Response CommandError
parse_data s none = err (invalid_command (codes "Invalid response: " ++ s))
parse_data s (some d) = ok (data_of d)

abbrev pub parse_error : Text → Text → Option Text → Result Response CommandError
parse_error s t (some msg) = ok (error_of msg)
parse_error s t none = parse_data s (strip_prefix (codes "data: ") t)

-- `Response::from_str`
unfoldable pub parse_response : Text → Result Response CommandError
unfolding trim text_eq strip_prefix
parse_response s =
    if text_eq (trim s) (codes "ok")
    then ok done
    else parse_error s (trim s) (strip_prefix (codes "error: ") (trim s))

-- `Display`
unfoldable pub response_text : Response → Text
response_text done = codes "ok"
response_text (data_of d) = codes "data: " ++ d
response_text (error_of msg) = codes "error: " ++ msg
