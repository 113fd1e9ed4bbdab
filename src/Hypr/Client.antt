-- ===== src/Hypr/Client.antt =====
-- packages/hypr-workspaced/src/client.rs and main.rs, and handle_client of daemon.rs: a command goes
-- to the daemon over the socket, and a line comes back.
-- A write that fails on the daemon's side is logged only, and left out.
pub mod Talk
pub mod Told
use foundrix.Base.{
  ℕ, ◌==◌, Bool, true, false, List, [], ◌∷◌, ◌++◌, Option, none, some, if◌then◌else◌, Text, text_eq,
  trim, join_words, codes, decimal, Result, ok, err,
}
use foundrix.Hypr.Ipc.{
  Direction, CollapseMode, Command, CommandError, invalid_command, invalid_workspace, Response,
  done, data_of, error_of, parse_bool_arg, validate_workspace, parse_command, display,
  parse_response, response_text,
}
use foundrix.Hypr.Daemon.{Daemon, Outside, handle_command}

-- `read_line`: the text up to its first line end, which is kept.
unfoldable pub read_line : Text → Text
read_line [] = []
read_line (c ∷ s) = if c == 0x0a then c ∷ [] else c ∷ read_line s

-- `Error`, Display, for the errors of the readers of `ipc.rs`.
unfoldable pub command_error_text : CommandError → Text
unfolding decimal
command_error_text (invalid_command s) = codes "Invalid command: " ++ s
command_error_text (invalid_workspace n) =
    codes "Invalid virtual workspace: " ++ decimal n ++ codes " (must be 1-9)"

-- How the daemon's loop takes a command: it answers, it goes away meanwhile, or it is gone.
pub data Delivery : Type 0 where
  answered : Response → Delivery
  dropped closed : Delivery

abbrev pub reply_of : Delivery → Response
reply_of (answered r) = r
reply_of dropped = error_of (codes "Internal error")
reply_of closed = error_of (codes "Daemon shutting down")

module _ {W : Type 0} (deliver : Command → W → Delivery × W) where
  abbrev pub replied : Delivery × W → Response × W
  replied (d, w) = (reply_of d, w)

  abbrev pub respond : Result Command CommandError → W → Response × W
  respond (err e) w = (error_of (command_error_text e), w)
  respond (ok c) w = replied (deliver c w)

  abbrev pub as_line : Response × W → Option Text × W
  as_line (r, w) = (some (response_text r ++ 0x0a ∷ []), w)

  -- `handle_client`, on what the client has sent before it closed; `none` is a failed read. The answer
  -- is what is written back, if anything.
  unfoldable pub handle_client : Option Text → W → Option Text × W
  unfolding read_line trim parse_command command_error_text response_text
  handle_client none w = (none, w)
  handle_client (some []) w = (none, w)
  handle_client (some (c ∷ s)) w = as_line (respond (parse_command (trim (read_line (c ∷ s)))) w)

-- The loop of a running daemon answers every command.
unfoldable pub deliver_running :
    {S : Type 0} → Outside S → Command → Daemon × S → Delivery × (Daemon × S)
unfolding handle_command
deliver_running o c (d, s) = let (r, d1, s1) = handle_command o c d s in (answered r, (d1, s1))

pub data ClientError : Type 0 where
  daemon_not_running : ClientError
  io other : Text → ClientError
  bad_response : CommandError → ClientError

-- How the connection and the exchange go: `failed` stands for an error of the system's.
pub data Connection : Type 0 where
  not_found refused connected : Connection
  failed : Text → Connection

-- What a client finds outside: the socket, and on it what comes back for a text.
pub record Socket (W : Type 0) : Type 0 where
  pub connect : W → Connection
  pub transfer : Text → W → Result Text Text × W

-- The result of a client: what it prints, if anything, or its error.
abbrev pub Shown : Type 0
Shown = Result (Option Text) ClientError

-- The match on the response, of the client that prints data and of the one that does not.
abbrev pub shown_of : Bool → Response → Shown
shown_of prints done = ok none
shown_of true (data_of d) = ok (some d)
shown_of false (data_of d) = ok none
shown_of prints (error_of message) = err (ClientError.other message)

abbrev pub shown_parsed : Bool → Result Response CommandError → Shown
shown_parsed prints (err e) = err (bad_response e)
shown_parsed prints (ok r) = shown_of prints r

module _ {W : Type 0} (socket : Socket W) where
  abbrev pub received : Bool → Result Text Text × W → Shown × W
  received prints (err e, w) = (err (io e), w)
  received prints (ok answer, w) = (shown_parsed prints (parse_response (read_line answer)), w)

  abbrev pub on_connection : Bool → Command → Connection → W → Shown × W
  on_connection prints c not_found w = (err daemon_not_running, w)
  on_connection prints c refused w = (err daemon_not_running, w)
  on_connection prints c (failed e) w = (err (io e), w)
  on_connection prints c connected w = received prints (socket.transfer (display c ++ 0x0a ∷ []) w)

  -- `send_command`
  unfoldable pub send_command : Command → W → Shown × W
  unfolding read_line display parse_response
  send_command c w = on_connection false c (socket.connect w) w

  -- `send_command_with_output`
  unfoldable pub send_command_with_output : Command → W → Shown × W
  unfolding read_line display parse_response
  send_command_with_output c w = on_connection true c (socket.connect w) w

-- `Commands`, as clap fills it in.
pub data Commands : Type 0 where
  daemon : Option Text → Commands
  switch move : ℕ → Commands
  next prev assign pins : Commands
  swap collapse debug : Text → Commands
  pin unpin : List Text → Commands

-- What `main` does: the daemon, one of the two clients, a message and the exit code 1, or an error.
pub data Action : Type 0 where
  run_daemon : Option Text → Action
  send send_with_output : Command → Action
  exits : Action
  fails : CommandError → Action

abbrev pub if_valid : (ℕ → Command) → Result ℕ CommandError → Action
if_valid make (ok ws) = send (make ws)
if_valid make (err e) = fails e

abbrev pub debug_action : Option Bool → Action
debug_action none = exits
debug_action (some b) = send (Command.debug b)

-- `main`
unfoldable pub action_of : Commands → Action
unfolding validate_workspace parse_bool_arg text_eq join_words
action_of (daemon service) = run_daemon service
action_of (switch ws) = if_valid Command.switch (validate_workspace ws)
action_of (move ws) = if_valid Command.move_to (validate_workspace ws)
action_of next = send (Command.navigate Direction.next)
action_of prev = send (Command.navigate Direction.prev)
action_of (swap direction) =
    if text_eq direction (codes "next")
    then send (Command.swap Direction.next)
    else if text_eq direction (codes "prev")
    then send (Command.swap Direction.prev)
    else exits
action_of (collapse mode) =
    if text_eq mode (codes "all")
    then send (Command.collapse CollapseMode.all)
    else if text_eq mode (codes "invisible")
    then send (Command.collapse CollapseMode.invisible)
    else exits
action_of assign = send Command.assign
action_of (pin pattern) = send (Command.pin (join_words pattern))
action_of (unpin pattern) = send (Command.unpin (join_words pattern))
action_of pins = send_with_output Command.pins
action_of (debug enabled) = debug_action (parse_bool_arg enabled)
