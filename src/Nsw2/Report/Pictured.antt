-- ===== src/Nsw2/Report/Pictured.antt =====
-- What packages/nsw2-service/src/report.rs reads from a report, by the layout of the report.
use foundrix.Base.{
  ℕ, zero, suc, ◌+◌, ◌*◌, ◌/◌, ◌%◌, ◌-◌, ◌≤◌, ◌<◌, ◌≡◌, refl, inl, inr, arith, true, List, [], ◌∷◌,
  Option, none, some, ltb, leb, if-cases, Bool-cases, length, All, Result, ok, err, ◌>>=◌, ℤ, pos,
  sub_ℕ,
}
use foundrix.Nsw2.Report.{
  ControllerState, unpack_12bit, clamp_i16, axis_from_12bit, saturating_neg, Panic, state_of, parse,
}

abbrev pub IsByte : ℕ → Type 0
IsByte b = b < 256

-- A report by its layout: three bytes that are not read, the buttons, the positions of the sticks as
-- numbers of 12 bits, a byte that is not read, the triggers, and more.
pub record Layout : Type 0 where
  pub head : ℕ × ℕ × ℕ
  pub buttons : ℕ × ℕ × ℕ
  pub left_x : ℕ
  pub left_y : ℕ
  pub right_x : ℕ
  pub right_y : ℕ
  pub gap : ℕ
  pub left_trigger : ℕ
  pub right_trigger : ℕ
  pub tail : List ℕ

abbrev pub triple : ℕ × ℕ × ℕ → List ℕ → List ℕ
triple (a, b, c) rest = a ∷ b ∷ c ∷ rest

-- Two positions in three bytes, the low bits first.
abbrev pub packed : ℕ → ℕ → ℕ × ℕ × ℕ
packed a b = (a % 256, a / 256 + b % 16 * 16, b / 16)

abbrev pub bytes_of : Layout → List ℕ
bytes_of y = triple y.head (
    triple y.buttons (
      triple (packed y.left_x y.left_y)
        (triple (packed y.right_x y.right_y) (y.gap ∷ y.left_trigger ∷ y.right_trigger ∷ y.tail))))

-- The distance of a position from the middle, 2048, times 16; and the same against the direction of the
-- axis, where the farthest is one too far for an i16.
abbrev pub along : ℕ → ℤ
along v = sub_ℕ (16 * v) 32768

abbrev pub against : ℕ → ℤ
against zero = pos 32767
against (suc v) = sub_ℕ 32768 (16 * suc v)

-- Both axes of the left stick are inverted, and of the right one the vertical axis.
abbrev pub pictured : Layout → ControllerState
pictured y = record {
  buttons = y.buttons;
  stick_l = (against y.left_x, against y.left_y);
  stick_r = (along y.right_x, against y.right_y);
  trigger_l = y.left_trigger;
  trigger_r = y.right_trigger;
}

clamp_i16-sub_ℕ : (a b : ℕ) → a ≤ b + 32767 → b ≤ a + 32768 → clamp_i16 (sub_ℕ a b) ≡ sub_ℕ a b
clamp_i16-sub_ℕ a b above below = elim (Bool-cases (leb b a)) [
  | inl e ↦ rw e (ground arith)
  | inr e ↦ rw e (ground arith)
]

-- The opposite of a difference that is not -32768.
negated : (a b : ℕ) → b ≤ a + 32767 → saturating_neg (sub_ℕ a b) ≡ sub_ℕ b a
negated a b below = elim (Bool-cases (leb b a)) [
  | inl e ↦ rw e (by (a - b) refl e)
  | inr e ↦ rw e (ground arith)
]
  where
    by : (n : ℕ) → n ≡ a - b → leb b a ≡ true → saturating_neg (pos n) ≡ sub_ℕ b a
    by zero h e = ground arith
    by (suc n) h e = ground arith

axis-along : (v : ℕ) → v < 4096 → axis_from_12bit v ≡ along v
unfolding axis_from_12bit
axis-along v h = rw (show_comm) (clamp_i16-sub_ℕ (16 * v) 32768 (omega arith) (omega arith))
  where
    show_comm : v * 16 ≡ 16 * v
    show_comm = omega arith

axis-against : (v : ℕ) → v < 4096 → saturating_neg (axis_from_12bit v) ≡ against v
axis-against zero h = rw (axis-along 0 h) refl
axis-against (suc v) h = rw (axis-along (suc v) h) (negated (16 * suc v) 32768 (omega arith))

-- The state is that of the layout whose bytes the report has.
abbrev pub Reads : List ℕ → Result (Option ControllerState) Panic → Type 0
Reads report (err p) = ⊥
Reads report (ok none) = length report < 15
Reads report (ok (some s)) =
    (y : Layout) × (bytes_of y ≡ report)
    × (y.left_x < 4096)
    × (y.left_y < 4096)
    × (y.right_x < 4096)
    × (y.right_y < 4096)
    × (s ≡ pictured y)

-- Any three bytes are the packing of what is unpacked from them.
unpacked :
    (x y z : ℕ)
    → IsByte x
    → IsByte y
    → IsByte z
    → ((unpack_12bit x y z).0 < 4096)
      × ((unpack_12bit x y z).1 < 4096)
      × (packed (unpack_12bit x y z).0 (unpack_12bit x y z).1 ≡ (x, y, z))
unfolding unpack_12bit
unpacked x y z hx hy hz =
    (omega (arith, hx, hy, hz), omega (arith, hx, hy, hz), λ i. (first i, second i, third i))
  where
    first : (x + y % 16 * 256) % 256 ≡ x
    first = omega (arith, hx, hy, hz)

    second : (x + y % 16 * 256) / 256 + (y / 16 + z * 16) % 16 * 16 ≡ y
    second = omega (arith, hx, hy, hz)

    third : (y / 16 + z * 16) / 16 ≡ z
    third = omega (arith, hx, hy, hz)

-- A property of lists of at least five elements.
by_fives :
    (P : List ℕ → Type 0) (n : ℕ) (xs : List ℕ)
    → n + 5 ≤ length xs
    → ((a b c d e : ℕ) (ys : List ℕ) → n ≤ length ys → P (a ∷ b ∷ c ∷ d ∷ e ∷ ys))
    → P xs
by_fives P n [] h k = absurd (omega arith)
by_fives P n (a ∷ []) h k = absurd (omega arith)
by_fives P n (a ∷ b ∷ []) h k = absurd (omega arith)
by_fives P n (a ∷ b ∷ c ∷ []) h k = absurd (omega arith)
by_fives P n (a ∷ b ∷ c ∷ d ∷ []) h k = absurd (omega arith)
by_fives P n (a ∷ b ∷ c ∷ d ∷ e ∷ ys) h k = k a b c d e ys (omega arith)

-- What is read from a report that is long enough.
abbrev ReadsState : List ℕ → Type 0
ReadsState report = All IsByte report → Reads report (state_of report >>= λ state. ok (some state))

long-Reads :
    (a b c d e f g h i j k l m n o : ℕ) (rest : List ℕ)
    → ReadsState (a ∷ b ∷ c ∷ d ∷ e ∷ f ∷ g ∷ h ∷ i ∷ j ∷ k ∷ l ∷ m ∷ n ∷ o ∷ rest)
unfolding state_of
long-Reads a b c d e f g h i j k l m n o rest
      (_, (_, (_, (_, (_, (_, (hg, (hh, (hi, (hj, (hk, (hl, bytes)))))))))))) =
    let (lx, ly, lp) = unpacked g h i hg hh hi in
    let (rx, ry, rp) = unpacked j k l hj hk hl in
    (
      record {
        head = (a, b, c);
        buttons = (d, e, f);
        left_x = (unpack_12bit g h i).0;
        left_y = (unpack_12bit g h i).1;
        right_x = (unpack_12bit j k l).0;
        right_y = (unpack_12bit j k l).1;
        gap = m;
        left_trigger = n;
        right_trigger = o;
        tail = rest;
      },
      λ t. triple (a, b, c) (triple (d, e, f) (triple (lp t) (triple (rp t) (m ∷ n ∷ o ∷ rest)))),
      lx,
      ly,
      rx,
      ry,
      λ t. record {
        buttons = (d, e, f);
        stick_l = (axis-against _ lx t, axis-against _ ly t);
        stick_r = (axis-along _ rx t, axis-against _ ry t);
        trigger_l = n;
        trigger_r = o;
      },
    )

-- A report of bytes is refused exactly if it is shorter than 15 bytes, and no index is out of range.
-- The state that is read from another report is that of a layout with positions below 4096 whose bytes
-- the report has: the buttons and the triggers as they are, the sticks unpacked and their distances
-- from the middle times 16, against the axis for all but the horizontal axis of the right stick, and
-- kept in the range of an i16.
pub parse-Reads : (report : List ℕ) → All IsByte report → Reads report (parse report)
unfolding parse
parse-Reads report bytes =
    if-cases (Reads report) (ltb (length report) 15) _ _ (λ k. ground (arith, k))
      (λ k.
        (by_fives ReadsState 10 report (ground (arith, k))
          (λ a b c d e xs hx.
            by_fives (λ xs. ReadsState (a ∷ b ∷ c ∷ d ∷ e ∷ xs)) 5 xs hx
              (λ f g h i j ys hy.
                by_fives (λ ys. ReadsState (a ∷ b ∷ c ∷ d ∷ e ∷ f ∷ g ∷ h ∷ i ∷ j ∷ ys)) 0 ys hy
                  (λ l m n o p rest _. long-Reads a b c d e f g h i j l m n o p rest)))
          bytes))
