-- ===== src/Nsw2/Gamepad/Replay.antt =====
-- What a gamepad shows after the events of packages/nsw2-service/src/bridge.rs.
use foundrix.Base.{
  ℕ, ◌≡◌, refl, ap, ◌∙◌, ◌⊎◌, inl, inr, subst, arith, Bool, true, false, List, [], ◌∷◌, ◌++◌, ◌==◌,
  if◌then◌else◌, if-cases, All, any, any-All, not, ◌&&◌, and-right, ==_refl, ℤ, pos, eq_ℤ,
}
use foundrix.Nsw2.Report.{ControllerState}
use foundrix.Nsw2.Gamepad.{
  KeyCode, btn_east, btn_south, btn_west, btn_north, btn_tr, btn_tr2, btn_start, btn_dpad_down,
  btn_dpad_right, btn_dpad_left, btn_dpad_up, btn_tl, btn_tl2, btn_mode, btn_c, btn_z, Byte,
  key_map, Axis, abs_x, abs_y, abs_rx, abs_ry, abs_z, abs_rz, InputEvent, key, absolute, is_pressed,
  same, key_events, axis_event, emit_state,
}

abbrev number : KeyCode → ℕ
number btn_east = 0
number btn_south = 1
number btn_west = 2
number btn_north = 3
number btn_tr = 4
number btn_tr2 = 5
number btn_start = 6
number btn_dpad_down = 7
number btn_dpad_right = 8
number btn_dpad_left = 9
number btn_dpad_up = 10
number btn_tl = 11
number btn_tl2 = 12
number btn_mode = 13
number btn_c = 14
number btn_z = 15

abbrev same_key : KeyCode → KeyCode → Bool
same_key j k = number j == number k

-- Whether a key is down after some events.
abbrev pub replay : KeyCode → List InputEvent → Bool → Bool
replay k [] down = down
replay k (key j v ∷ es) down = replay k es (if same_key j k then v else down)
replay k (absolute a v ∷ es) down = replay k es down

abbrev pub In : Byte × ℕ × KeyCode → List (Byte × ℕ × KeyCode) → Type 0
In e [] = ⊥
In e (f ∷ entries) = (f ≡ e) ⊎ In e entries

-- No two entries have one key.
abbrev Distinct : List (Byte × ℕ × KeyCode) → Type 0
Distinct [] = Unit
Distinct ((byte, mask, k) ∷ entries) = All (λ e. same_key k e.2 ≡ false) entries × Distinct entries

abbrev distinct : List (Byte × ℕ × KeyCode) → Bool
distinct [] = true
distinct ((byte, mask, k) ∷ entries) = not (any (λ e. same_key k e.2) entries) && distinct entries

distinct-Distinct :
    (entries : List (Byte × ℕ × KeyCode)) → distinct entries ≡ true → Distinct entries
distinct-Distinct [] h = tt
distinct-Distinct ((byte, mask, k) ∷ entries) h = (
  any-All (λ e. same_key k e.2) entries (ground (arith, h)),
  distinct-Distinct entries (and-right _ _ h),
)

key_map-Distinct : Distinct key_map
unfolding key_map
key_map-Distinct = distinct-Distinct key_map refl

number_sym : (m n : ℕ) → (m == n) ≡ false → (n == m) ≡ false
number_sym m n h = ground (arith, h)

same-eq : (a b : Bool) → same a b ≡ true → b ≡ a
same-eq true b h = h
same-eq false true h = cc
same-eq false false h = refl

All-In :
    (P : Byte × ℕ × KeyCode → Type 0) (e : Byte × ℕ × KeyCode) (entries : List (Byte × ℕ × KeyCode))
    → All P entries
    → In e entries
    → P e
All-In P e [] h m = absurd m
All-In P e (f ∷ entries) (hf, h) (inl q) = subst P q hf
All-In P e (f ∷ entries) (hf, h) (inr m) = All-In P e entries h m

module _ (s last : ControllerState) where
  -- The event of one entry, if there is one, and what follows.
  abbrev told : Byte → ℕ → KeyCode → List InputEvent → List InputEvent
  told byte mask j rest =
      if same (is_pressed s byte mask) (is_pressed last byte mask)
      then rest
      else key j (is_pressed s byte mask) ∷ rest

  -- An event of another key changes nothing.
  replay-told :
      (k j : KeyCode) (byte : Byte) (mask : ℕ) (rest : List InputEvent) (down : Bool)
      → same_key j k ≡ false
      → replay k (told byte mask j rest) down ≡ replay k rest down
  replay-told k j byte mask rest down h =
      if-cases (λ es. replay k es down ≡ replay k rest down)
        (same (is_pressed s byte mask) (is_pressed last byte mask)) _ _ (λ u. refl)
        (λ u. ap (λ b. replay k rest (if b then is_pressed s byte mask else down)) h)

  replay-others :
      (k : KeyCode) (entries : List (Byte × ℕ × KeyCode)) (down : Bool)
      → All (λ e. same_key k e.2 ≡ false) entries
      → replay k (key_events entries s last) down ≡ down
  unfolding key_events
  replay-others k [] down h = refl
  replay-others k ((byte, mask, j) ∷ entries) down (hj, h) =
      replay-told k j byte mask _ down (number_sym (number k) (number j) hj)
      ∙ replay-others k entries down h

  -- The event of an entry brings its key up to date.
  replay-own :
      (k : KeyCode) (byte : Byte) (mask : ℕ) (rest : List InputEvent)
      → ((down : Bool) → replay k rest down ≡ down)
      → replay k (told byte mask k rest) (is_pressed last byte mask) ≡ is_pressed s byte mask
  replay-own k byte mask rest h =
      if-cases (λ es. replay k es (is_pressed last byte mask) ≡ is_pressed s byte mask)
        (same (is_pressed s byte mask) (is_pressed last byte mask)) _ _
        (λ u. h (is_pressed last byte mask) ∙ same-eq (is_pressed s byte mask) _ u)
        (λ u.
          ap (λ b. replay k rest (if b then is_pressed s byte mask else is_pressed last byte mask))
            (==_refl (number k))
          ∙ h (is_pressed s byte mask))

  replay-key_events :
      (byte : Byte) (mask : ℕ) (k : KeyCode) (entries : List (Byte × ℕ × KeyCode))
      → Distinct entries
      → In (byte, mask, k) entries
      → replay k (key_events entries s last) (is_pressed last byte mask) ≡ is_pressed s byte mask
  unfolding key_events
  replay-key_events byte mask k [] d m = absurd m
  replay-key_events byte mask k ((byte', mask', j) ∷ entries) (dj, d) (inl q) =
      subst
        (λ e.
          replay e.2 (told byte' mask' j (key_events entries s last)) (is_pressed last e.0 e.1)
          ≡ is_pressed s e.0 e.1)
        q
        (replay-own j byte' mask' (key_events entries s last)
          (λ down. replay-others j entries down dj))
  replay-key_events byte mask k ((byte', mask', j) ∷ entries) (dj, d) (inr m) =
      replay-told k j byte' mask' _ (is_pressed last byte mask)
        (All-In (λ e. same_key j e.2 ≡ false) (byte, mask, k) entries dj m)
      ∙ replay-key_events byte mask k entries d m

replay-append :
    (k : KeyCode) (es fs : List InputEvent) (down : Bool)
    → replay k (es ++ fs) down ≡ replay k fs (replay k es down)
replay-append k [] fs down = refl
replay-append k (key j v ∷ es) fs down = replay-append k es fs _
replay-append k (absolute a v ∷ es) fs down = replay-append k es fs down

-- Events that change no key.
abbrev Quiet : List InputEvent → Type 0
Quiet es = (k : KeyCode) (down : Bool) → replay k es down ≡ down

append-Quiet : (es fs : List InputEvent) → Quiet es → Quiet fs → Quiet (es ++ fs)
append-Quiet es fs h g k down = replay-append k es fs down ∙ g k (replay k es down) ∙ h k down

axis_event-Quiet : (a : Axis) (now prev : ℤ) → Quiet (axis_event a now prev)
axis_event-Quiet a now prev =
    if-cases Quiet (eq_ℤ now prev) _ _ (λ u k down. refl) (λ u k down. refl)

module _ (s last : ControllerState) where
  -- A gamepad that shows the last state shows, after the events of a new state, each key of the map as
  -- the new state has it.
  pub replay-emit_state :
      (byte : Byte) (mask : ℕ) (k : KeyCode)
      → In (byte, mask, k) key_map
      → replay k (emit_state s last) (is_pressed last byte mask) ≡ is_pressed s byte mask
  unfolding emit_state
  replay-emit_state byte mask k m =
      replay-append k (key_events key_map s last) _ (is_pressed last byte mask)
      ∙ axes k _
      ∙ replay-key_events s last byte mask k key_map key_map-Distinct m
    where
      axes : Quiet (
          axis_event abs_x s.stick_l.0 last.stick_l.0
          ++ (axis_event abs_y s.stick_l.1 last.stick_l.1
              ++ (axis_event abs_rx s.stick_r.0 last.stick_r.0
                  ++ (axis_event abs_ry s.stick_r.1 last.stick_r.1
                      ++ (axis_event abs_z (pos s.trigger_l) (pos last.trigger_l)
                          ++ axis_event abs_rz (pos s.trigger_r) (pos last.trigger_r))))))
      axes =
          append-Quiet (axis_event abs_x s.stick_l.0 last.stick_l.0)
            (axis_event abs_y s.stick_l.1 last.stick_l.1
              ++ (axis_event abs_rx s.stick_r.0 last.stick_r.0
                  ++ (axis_event abs_ry s.stick_r.1 last.stick_r.1
                      ++ (axis_event abs_z (pos s.trigger_l) (pos last.trigger_l)
                          ++ axis_event abs_rz (pos s.trigger_r) (pos last.trigger_r)))))
            (axis_event-Quiet abs_x s.stick_l.0 last.stick_l.0)
            (append-Quiet (axis_event abs_y s.stick_l.1 last.stick_l.1)
              (axis_event abs_rx s.stick_r.0 last.stick_r.0
                ++ (axis_event abs_ry s.stick_r.1 last.stick_r.1
                    ++ (axis_event abs_z (pos s.trigger_l) (pos last.trigger_l)
                        ++ axis_event abs_rz (pos s.trigger_r) (pos last.trigger_r))))
              (axis_event-Quiet abs_y s.stick_l.1 last.stick_l.1)
              (append-Quiet (axis_event abs_rx s.stick_r.0 last.stick_r.0)
                (axis_event abs_ry s.stick_r.1 last.stick_r.1
                  ++ (axis_event abs_z (pos s.trigger_l) (pos last.trigger_l)
                      ++ axis_event abs_rz (pos s.trigger_r) (pos last.trigger_r)))
                (axis_event-Quiet abs_rx s.stick_r.0 last.stick_r.0)
                (append-Quiet (axis_event abs_ry s.stick_r.1 last.stick_r.1)
                  (axis_event abs_z (pos s.trigger_l) (pos last.trigger_l)
                    ++ axis_event abs_rz (pos s.trigger_r) (pos last.trigger_r))
                  (axis_event-Quiet abs_ry s.stick_r.1 last.stick_r.1)
                  (append-Quiet (axis_event abs_z (pos s.trigger_l) (pos last.trigger_l))
                    (axis_event abs_rz (pos s.trigger_r) (pos last.trigger_r))
                    (axis_event-Quiet abs_z (pos s.trigger_l) (pos last.trigger_l))
                    (axis_event-Quiet abs_rz (pos s.trigger_r) (pos last.trigger_r))))))
