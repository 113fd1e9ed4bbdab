-- ===== src/Nsw2/Tests.antt =====
-- Runs of packages/nsw2-service on concrete inputs, and the theorems at such inputs.
use foundrix.Base.{
  inl, inr, pos, true, ℕ, ◌+◌, ◌*◌, ◌/◌, ◌%◌, ◌≡◌, refl, arith, List, [], ◌∷◌, get, put,
}
use foundrix.Nsw2.Report.{ControllerState, unpack_12bit, parse, neutral_frame, rumble_frame}
use foundrix.Nsw2.Report.Bounds.{unpack_12bit_packed}
use foundrix.Nsw2.Report.Pictured.{Reads, parse-Reads}
use foundrix.Nsw2.Gamepad.{
  btn_south, btn_start, byte_0, key_map, abs_z, key, absolute, is_pressed, emit_state,
}
use foundrix.Nsw2.Gamepad.Replay.{In, replay, replay-emit_state}
use foundrix.Nsw2.Effects.{
  rumble, other_kind, Event, upload, erase, playing, stopped, initial, process, process_ff,
  insert_id, remove_id, remove_effect,
}
use foundrix.Nsw2.Effects.Slots.{OneOwner, AllFit, process_ff-OneOwner}

abbrev report : List ℕ
report = 5 ∷ 0 ∷ 0 ∷ 1 ∷ 0 ∷ 16 ∷ 0 ∷ 8 ∷ 128 ∷ 255 ∷ 255 ∷ 255 ∷ 0 ∷ 36 ∷ 240 ∷ []

parse-Reads_example : Reads report (parse report)
parse-Reads_example = parse-Reads report (
  omega arith,
  (
    omega arith,
    (
      omega arith,
      (
        omega arith,
        (
          omega arith,
          (
            omega arith,
            (
              omega arith,
              (
                omega arith,
                (
                  omega arith,
                  (
                    omega arith,
                    (omega arith, (omega arith, (omega arith, (omega arith, (omega arith, tt))))),
                  ),
                ),
              ),
            ),
          ),
        ),
      ),
    ),
  ),
)

unpack_12bit_packed_example :
    unpack_12bit (3000 % 256) (3000 / 256 + 17 % 16 * 16) (17 / 16) ≡ (3000, 17)
unpack_12bit_packed_example = unpack_12bit_packed 3000 17 (omega arith) (omega arith)

motor_off : rumble_frame 0 0 ≡ neutral_frame
unfolding rumble_frame neutral_frame
motor_off = refl

abbrev events : List Event
events = upload (rumble 7 0) ∷ upload other_kind ∷ playing 0 ∷ erase 0 ∷ playing 0 ∷ stopped ∷ []

events_fit : AllFit events initial
unfolding process get put insert_id remove_id remove_effect
events_fit = (tt, (tt, (tt, ((omega arith, refl), (tt, (tt, tt))))))

process_ff-OneOwner_example : OneOwner (process_ff events initial)
process_ff-OneOwner_example = process_ff-OneOwner events events_fit

abbrev at_rest : ControllerState
at_rest = record {
  buttons = (0, 0, 0);
  stick_l = (pos 0, pos 0);
  stick_r = (pos 0, pos 0);
  trigger_l = 36;
  trigger_r = 36;
}

abbrev pressing : ControllerState
pressing = record at_rest { buttons = (66, 0, 0); trigger_l = 240 }

pressing_events :
    emit_state pressing at_rest
    ≡ key btn_south true ∷ key btn_start true ∷ absolute abs_z (pos 240) ∷ []
unfolding emit_state
pressing_events = refl

start-In_map : In (byte_0, 64, btn_start) key_map
unfolding key_map
start-In_map = inr (inr (inr (inr (inr (inr (inl refl))))))

replay-emit_state_example :
    replay btn_start (emit_state pressing at_rest) (is_pressed at_rest byte_0 64)
    ≡ is_pressed pressing byte_0 64
replay-emit_state_example = replay-emit_state pressing at_rest byte_0 64 btn_start start-In_map
