-- ===== src/Nsw2/Gamepad.antt =====
-- packages/nsw2-service/src/bridge.rs and report.rs: the key map, and the events that a new state of the
-- controller gives to the virtual gamepad.
pub mod Replay
use foundrix.Base.{
  ℕ, ◌+◌, ◌*◌, ◌/◌, ◌%◌, Bool, true, false, not, ◌&&◌, ◌||◌, List, [], ◌∷◌, ◌++◌, ◌==◌,
  if◌then◌else◌, ℤ, pos, eq_ℤ,
}
use foundrix.Nsw2.Report.{ControllerState}

-- The codes of evdev, in the order of `KEY_MAP`.
pub data KeyCode : Type 0 where
  btn_east btn_south btn_west btn_north btn_tr btn_tr2 btn_start btn_dpad_down btn_dpad_right
        btn_dpad_left btn_dpad_up btn_tl btn_tl2 btn_mode btn_c btn_z :
      KeyCode

-- An entry of the map: which of the three bytes, the mask of a bit, and the code.
pub data Byte : Type 0 where
  byte_0 byte_1 byte_2 : Byte

unfoldable pub key_map : List (Byte × ℕ × KeyCode)
key_map =
    (byte_0, 1, btn_east)
    ∷ (byte_0, 2, btn_south)
    ∷ (byte_0, 4, btn_west)
    ∷ (byte_0, 8, btn_north)
    ∷ (byte_0, 16, btn_tr)
    ∷ (byte_0, 32, btn_tr2)
    ∷ (byte_0, 64, btn_start)
    ∷ (byte_1, 1, btn_dpad_down)
    ∷ (byte_1, 2, btn_dpad_right)
    ∷ (byte_1, 4, btn_dpad_left)
    ∷ (byte_1, 8, btn_dpad_up)
    ∷ (byte_1, 16, btn_tl)
    ∷ (byte_1, 32, btn_tl2)
    ∷ (byte_2, 1, btn_mode)
    ∷ (byte_2, 2, btn_c)
    ∷ (byte_2, 16, btn_z)
    ∷ []

pub data Axis : Type 0 where
  abs_x abs_y abs_rx abs_ry abs_z abs_rz : Axis

pub data InputEvent : Type 0 where
  key : KeyCode → Bool → InputEvent
  absolute : Axis → ℤ → InputEvent

abbrev pub button_byte : ControllerState → Byte → ℕ
button_byte s byte_0 = s.buttons.0
button_byte s byte_1 = s.buttons.1
button_byte s byte_2 = s.buttons.2

-- `buttons[byte] & mask != 0`, for a mask of one bit.
abbrev pub is_pressed : ControllerState → Byte → ℕ → Bool
is_pressed s byte mask = button_byte s byte / mask % 2 == 1

abbrev pub same : Bool → Bool → Bool
same true b = b
same false b = not b

-- The loop over the key map.
unfoldable pub key_events :
    List (Byte × ℕ × KeyCode) → ControllerState → ControllerState → List InputEvent
key_events [] s last = []
key_events ((byte, mask, code) ∷ entries) s last =
    let rest = key_events entries s last in
    if same (is_pressed s byte mask) (is_pressed last byte mask)
    then rest
    else key code (is_pressed s byte mask) ∷ rest

abbrev pub axis_event : Axis → ℤ → ℤ → List InputEvent
axis_event axis now prev = if eq_ℤ now prev then [] else absolute axis now ∷ []

-- The events of `emit_state`; without an event nothing is emitted.
unfoldable pub emit_state : ControllerState → ControllerState → List InputEvent
unfolding key_events key_map eq_ℤ
emit_state s last =
    key_events key_map s last
    ++ (axis_event abs_x s.stick_l.0 last.stick_l.0
        ++ (axis_event abs_y s.stick_l.1 last.stick_l.1
            ++ (axis_event abs_rx s.stick_r.0 last.stick_r.0
                ++ (axis_event abs_ry s.stick_r.1 last.stick_r.1
                    ++ (axis_event abs_z (pos s.trigger_l) (pos last.trigger_l)
                        ++ axis_event abs_rz (pos s.trigger_r) (pos last.trigger_r))))))
