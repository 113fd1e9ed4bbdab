-- ===== src/Nsw2/Report.antt =====
-- packages/nsw2-service/src/report.rs and rumble.rs: the input report and the rumble frame. The parts
-- that `|` joins have no bit in common, so that the model adds them.
pub mod Bounds
pub mod Pictured
use foundrix.Base.{
  ℕ, zero, suc, ◌+◌, ◌*◌, ◌/◌, ◌%◌, ◌-◌, Bool, false, ◌||◌, List, [], ◌∷◌, Option, none, some, ltb,
  ◌==◌, if◌then◌else◌, length, get_elem?, Result, ok, err, ok_or, ◌>>=◌, ℤ, pos, negsuc, sub_ℕ,
}

pub record ControllerState : Type 0 where
  pub buttons : ℕ × ℕ × ℕ
  pub stick_l : ℤ × ℤ
  pub stick_r : ℤ × ℤ
  pub trigger_l : ℕ
  pub trigger_r : ℕ

-- Two 12-bit numbers from three bytes.
unfoldable pub unpack_12bit : ℕ → ℕ → ℕ → ℕ × ℕ
unpack_12bit x y z = (x + y % 16 * 256, y / 16 + z * 16)

abbrev pub clamp_i16 : ℤ → ℤ
clamp_i16 (pos n) = if ltb 32767 n then pos 32767 else pos n
clamp_i16 (negsuc n) = if ltb 32767 n then negsuc 32767 else negsuc n

unfoldable pub axis_from_12bit : ℕ → ℤ
axis_from_12bit v = clamp_i16 (sub_ℕ (v * 16) 32768)

-- `saturating_neg` of an i16.
abbrev pub saturating_neg : ℤ → ℤ
saturating_neg (pos zero) = pos 0
saturating_neg (pos (suc n)) = negsuc n
saturating_neg (negsuc n) = if ltb 32766 n then pos 32767 else pos (n + 1)

-- An index past the end of a slice, which ends the program.
pub data Panic : Type 0 where
  out_of_range : ℕ → Panic

abbrev pub byte_at : List ℕ → ℕ → Result ℕ Panic
byte_at bs i = ok_or (get_elem? bs i) (out_of_range i)

-- The state from the report, whose first byte is the report's id.
unfoldable pub state_of : List ℕ → Result ControllerState Panic
unfolding unpack_12bit axis_from_12bit
state_of report = do
  b0 ← byte_at report 3
  b1 ← byte_at report 4
  b2 ← byte_at report 5
  l0 ← byte_at report 6
  l1 ← byte_at report 7
  l2 ← byte_at report 8
  r0 ← byte_at report 9
  r1 ← byte_at report 10
  r2 ← byte_at report 11
  left ← byte_at report 13
  right ← byte_at report 14
  let l = unpack_12bit l0 l1 l2
  let r = unpack_12bit r0 r1 r2
  ok (record {
    buttons = (b0, b1, b2);
    stick_l = (saturating_neg (axis_from_12bit l.0), saturating_neg (axis_from_12bit l.1));
    stick_r = (axis_from_12bit r.0, saturating_neg (axis_from_12bit r.1));
    trigger_l = left;
    trigger_r = right;
  })

unfoldable pub parse : List ℕ → Result (Option ControllerState) Panic
unfolding state_of
parse report =
    if ltb (length report) 15 then ok none else (state_of report >>= λ state. ok (some state))

unfoldable pub build_frame : Bool → List ℕ
build_frame motor_on =
    10 ∷ 145 ∷ 0 ∷ 2 ∷ 0 ∷ 4 ∷ 0 ∷ 0 ∷ (if motor_on then 1 else 0) ∷ 0 ∷ 0 ∷ 0 ∷ []

unfoldable pub neutral_frame : List ℕ
unfolding build_frame
neutral_frame = build_frame false

-- The amplitudes are the magnitudes over 65535: above zero exactly if the magnitudes are.
unfoldable pub rumble_frame : ℕ → ℕ → List ℕ
unfolding build_frame
rumble_frame strong weak = build_frame (ltb 0 strong || ltb 0 weak)
