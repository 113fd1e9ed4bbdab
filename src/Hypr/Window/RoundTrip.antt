-- ===== src/Hypr/Window/RoundTrip.antt =====
-- A window pattern is read back from its text.
use foundrix.Base.{
  ℕ, suc, ◌+◌, ◌^◌, ◌<◌, ◌≡◌, refl, sym, ap, ◌∙◌, true, false, [], ◌∷◌, some, All, arith, Text,
  text_eq, codes, split_once, ℤ, pos, negsuc, decimal, int_text, parse_digits, parse_i32, positive,
  negative, is_ascii_digit, subst,
}
use foundrix.Base.WordLaws.{parse_digits-decimal, decimal-cons, decimal-All}
use foundrix.Hypr.Window.{
  WindowPattern, class, title, pid, address, floating, fullscreen, parse, parse_value, parse_bool,
  display,
}

-- An i32.
abbrev pub IsI32 : ℤ → Type 0
IsI32 (pos n) = n < 2 ^ 31
IsI32 (negsuc n) = n < 2 ^ 31

-- A process id is an i32; the other patterns carry any text or truth value.
abbrev pub InRange : WindowPattern → Type 0
InRange (pid p) = IsI32 p
InRange _ = Unit

-- The reader of digits, on a text that does not begin with a sign.
parse_i32-digits :
    (c : ℕ) (s : Text)
    → is_ascii_digit c ≡ true
    → parse_i32 (c ∷ s) ≡ positive (parse_digits 10 0x7fff_ffff 0 (c ∷ s))
unfolding parse_i32 is_ascii_digit
parse_i32-digits c [] h = ground arith
parse_i32-digits c (d ∷ s) h = ground arith

parse_i32-minus :
    (c : ℕ) (s : Text) → parse_i32 (b'-' ∷ c ∷ s) ≡ negative (parse_digits 10 0x8000_0000 0 (c ∷ s))
unfolding parse_i32
parse_i32-minus c s = refl

next_of : (n : ℕ) → n + 1 ≡ suc n
next_of n = omega arith

parse_i32-int_text : (z : ℤ) → IsI32 z → parse_i32 (int_text z) ≡ some z
unfolding int_text
parse_i32-int_text (pos n) h = by (decimal-cons n)
  where
    by : ((c : ℕ) × (s : Text) × (decimal n ≡ c ∷ s)) → parse_i32 (decimal n) ≡ some (pos n)
    by (c, s, e) =
        ap parse_i32 e
        ∙ parse_i32-digits c s (subst (All (λ x. is_ascii_digit x ≡ true)) e (decimal-All n)).0
        ∙ ap (λ t. positive (parse_digits 10 0x7fff_ffff 0 t)) (sym e)
        ∙ ap positive (parse_digits-decimal 0x7fff_ffff n (omega arith))
parse_i32-int_text (negsuc n) h = by (decimal-cons (n + 1))
  where
    by :
        ((c : ℕ) × (s : Text) × (decimal (n + 1) ≡ c ∷ s))
        → parse_i32 (b'-' ∷ decimal (n + 1)) ≡ some (negsuc n)
    by (c, s, e) =
        ap (λ t. parse_i32 (b'-' ∷ t)) e
        ∙ parse_i32-minus c s
        ∙ ap (λ t. negative (parse_digits 10 0x8000_0000 0 t)) (sym e)
        ∙ ap negative (parse_digits-decimal 0x8000_0000 (n + 1) (omega arith))
        ∙ ap (λ x. negative (some x)) (next_of n)

-- A pattern whose process id, if it has one, is an i32 is read back from its text.
pub parse-display : (p : WindowPattern) → InRange p → parse (display p) ≡ some p
unfolding parse display codes split_once parse_value text_eq
parse-display (class v) h = refl
parse-display (title v) h = refl
parse-display (pid p) h = rw (parse_i32-int_text p h) refl
parse-display (address v) h = refl
parse-display (floating true) h = unfold parse_bool in refl
parse-display (floating false) h = unfold parse_bool in refl
parse-display (fullscreen true) h = unfold parse_bool in refl
parse-display (fullscreen false) h = unfold parse_bool in refl
