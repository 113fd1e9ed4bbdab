-- ===== src/Hypr/Client/Told.antt =====
-- packages/hypr-workspaced: a client and a running daemon together.
use foundrix.Base.{
  ◌≡◌, refl, sym, ap, ◌∙◌, Bool, true, false, List, [], ◌∷◌, ◌++◌, append_assoc, Option, none, some,
  Text, codes, trim, text_eq, is_whitespace, strip_prefix, Result, ok, err, map,
}
use foundrix.Hypr.Window
use foundrix.Hypr.Window.{WindowPattern}
use foundrix.Hypr.Registry.{join_lines}
use foundrix.Hypr.Ipc.{
  Command, invalid_command, data_of, parse_command, display, parse_response, response_text,
}
use foundrix.Hypr.Manager.{pins}
use foundrix.Hypr.Daemon.{Daemon, Outside, handle_command}
use foundrix.Hypr.Client.{
  read_line, handle_client, deliver_running, Delivery, Socket, connected, bad_response, Shown,
  shown_of, shown_parsed, received, respond, as_line, send_command, send_command_with_output,
}
use foundrix.Hypr.Client.Talk.{Presentable, heard, presented}

-- The bytes that the daemon leaves on the socket before it closes it.
abbrev pub left_on : {W : Type 0} → Option Text × W → Result Text Text × W
left_on (none, w) = (ok [], w)
left_on (some t, w) = (ok t, w)

-- The socket of a daemon that runs.
abbrev pub local : {S : Type 0} → Outside S → Socket (Daemon × S)
local o = record {
  connect = λ _. connected;
  transfer = λ t w. left_on (handle_client (deliver_running o) (some t) w);
}

-- What a client shows of the pinned patterns.
abbrev pub pins_shown : List WindowPattern → Shown
pins_shown [] = err (bad_response (invalid_command (codes "Invalid response: data: \n")))
pins_shown (p ∷ ps) = ok (some (Window.display p))

abbrev pub FirstPresentable : List WindowPattern → Type 0
FirstPresentable [] = Unit
FirstPresentable (p ∷ ps) = Presentable (data_of (Window.display p))

handle_client-line :
    {W : Type 0} (deliver : Command → W → Delivery × W) (l : Text) (w : W)
    → handle_client deliver (some (l ++ 0x0a ∷ [])) w
      ≡ as_line deliver (respond deliver (parse_command (trim (read_line (l ++ 0x0a ∷ [])))) w)
unfolding handle_client
handle_client-line deliver [] w = refl
handle_client-line deliver (c ∷ l) w = refl

module _ {S : Type 0} (o : Outside S) where
  -- What comes back for a command that the daemon reads.
  transferred :
      (prints : Bool) (t : Text) (c : Command) (d : Daemon) (s : S)
      → parse_command t ≡ ok c
      → received (local o) prints ((local o).transfer (display c ++ 0x0a ∷ []) (d, s)) ≡ (
          let (r, d1, s1) = handle_command o c d s in
          (
            shown_parsed prints (parse_response (read_line (response_text r ++ 0x0a ∷ []))),
            (d1, s1),
          ))
  unfolding deliver_running
  transferred prints t c d s h =
      ap (λ q. received (local o) prints (left_on q))
        (handle_client-line (deliver_running o) (display c) (d, s)
          ∙ ap (λ q. as_line (deliver_running o) (respond (deliver_running o) q (d, s)))
              (heard t c h))

  -- A client of a running daemon sends a command that the daemon accepts in some text, and the
  -- daemon's response is one line that ends with no white space, if it has a text. Then either
  -- client ends with what its match makes of exactly this response, and the daemon and the
  -- compositor are as `handle_command` leaves them.
  pub send_command-handle_command :
      (t : Text) (c : Command) (d : Daemon) (s : S)
      → parse_command t ≡ ok c
      → Presentable (handle_command o c d s).0
      → let (r, d1, s1) = handle_command o c d s in
        (send_command (local o) c (d, s) ≡ (shown_of false r, (d1, s1)))
        × (send_command_with_output (local o) c (d, s) ≡ (shown_of true r, (d1, s1)))
  unfolding send_command send_command_with_output
  send_command-handle_command t c d s h p = (shown false, shown true)
    where
      shown :
          (prints : Bool)
          → received (local o) prints ((local o).transfer (display c ++ 0x0a ∷ []) (d, s))
            ≡ (let (r, d1, s1) = handle_command o c d s in (shown_of prints r, (d1, s1)))
      shown prints =
          transferred prints t c d s h
          ∙ ap (λ q. let (r, d1, s1) = handle_command o c d s in (shown_parsed prints q, (d1, s1)))
              (presented (handle_command o c d s).0 [] p)

  -- The first line of the answer to `pins`.
  first_pin :
      (p : WindowPattern) (ps : List WindowPattern)
      → (rest : Text) × (response_text (data_of (join_lines (map Window.display (p ∷ ps))))
            ++ 0x0a ∷ []
          ≡ response_text (data_of (Window.display p)) ++ 0x0a ∷ rest)
  unfolding response_text join_lines
  first_pin p [] = ([], refl)
  first_pin p (q ∷ ps) = (
    join_lines (map Window.display (q ∷ ps)) ++ 0x0a ∷ [],
    append_assoc (codes "data: ")
          (Window.display p ++ 0x0a ∷ join_lines (map Window.display (q ∷ ps))) (0x0a ∷ [])
        ∙ ap (λ t. codes "data: " ++ t)
            (append_assoc (Window.display p) (0x0a ∷ join_lines (map Window.display (q ∷ ps)))
              (0x0a ∷ []))
        ∙ sym (
            append_assoc (codes "data: ") (Window.display p)
              (0x0a ∷ (join_lines (map Window.display (q ∷ ps)) ++ 0x0a ∷ []))),
  )

  asks_pins : parse_command (codes "pins") ≡ ok Command.pins
  unfolding parse_command codes text_eq is_whitespace
  asks_pins = refl

  no_pins :
      (d : Daemon) (s : S)
      → d.manager.pinned_patterns ≡ []
      → send_command_with_output (local o) Command.pins (d, s) ≡ (pins_shown [], (d, s))
  unfolding send_command_with_output handle_command pins codes parse_response read_line trim
      join_lines response_text text_eq is_whitespace strip_prefix
  no_pins d s e =
      transferred true (codes "pins") Command.pins d s asks_pins
      ∙ ap
          (λ qs. (
            shown_parsed true (
                parse_response (
                  read_line
                    (response_text (data_of (join_lines (map Window.display qs))) ++ 0x0a ∷ []))),
            (d, s),
          ))
          e

  -- The text of the first pinned pattern, if one is pinned, is one line that ends with no white
  -- space. Then the client that asks for the pins prints the first pattern alone, however many are
  -- pinned; with none pinned it ends with the error that the response is not valid.
  pub send_command_with_output-pins :
      (d : Daemon) (s : S) (ps : List WindowPattern)
      → d.manager.pinned_patterns ≡ ps
      → FirstPresentable ps
      → send_command_with_output (local o) Command.pins (d, s) ≡ (pins_shown ps, (d, s))
  unfolding send_command_with_output handle_command pins
  send_command_with_output-pins d s [] e h = no_pins d s e
  send_command_with_output-pins d s (p ∷ ps) e h =
      transferred true (codes "pins") Command.pins d s asks_pins
      ∙ ap (λ l. (shown_parsed true (parse_response (read_line l)), (d, s)))
          (ap (λ qs. response_text (data_of (join_lines (map Window.display qs))) ++ 0x0a ∷ []) e
            ∙ (first_pin p ps).1)
      ∙ ap (λ q. (shown_parsed true q, (d, s)))
          (presented (data_of (Window.display p)) (first_pin p ps).0 h)
