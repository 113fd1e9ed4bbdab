-- ===== src/Base/TextLaws.antt =====
-- Laws of the text operations: trimming, splitting and lines.
use mathlib.Core.List.{reverse-append, reverse-reverse, reverse}
use Prim.Native.Nat.{ℕ}
use mathlib.Core.Path.{◌≡◌, refl, sym, ap, ◌∙◌}
use mathlib.Core.Logic.{◌≢◌}
use mathlib.Core.Bool.{true, false}
use mathlib.Core.Option.{some}
use mathlib.Core.List.{[], ◌∷◌, ◌++◌, append-nil, append_assoc}
use native.Mathlib.Omega.{arith}
use foundrix.Base.Lists.{All}
use foundrix.Base.Chars.{is_whitespace}
use foundrix.Base.Texts.{Text, trim, trim_start, trim_end, split_once, strip_cr, lines_from, lines}

-- A text with a last character, which is no white space.
abbrev pub EndsWell : Text → Type 0
EndsWell s = (t : Text) × (d : ℕ) × (s ≡ t ++ d ∷ []) × (is_whitespace d ≡ false)

pub EndsWell-append : (s e : Text) → EndsWell e → EndsWell (s ++ e)
EndsWell-append s e (t, d, q, h) = (s ++ t, d, rw q (sym (append_assoc s t (d ∷ []))), h)

pub EndsWell-All :
    (c : ℕ) (s : Text) → All (λ x. is_whitespace x ≡ false) (c ∷ s) → EndsWell (c ∷ s)
EndsWell-All c [] (h, _) = ([], c, refl, h)
EndsWell-All c (d ∷ s) (h, hs) = EndsWell-append (c ∷ []) (d ∷ s) (EndsWell-All d s hs)

trim_start-cons : (c : ℕ) (s : Text) → is_whitespace c ≡ false → trim_start (c ∷ s) ≡ c ∷ s
unfolding trim_start
trim_start-cons c s h = rw h

trim_end-EndsWell : (s : Text) → EndsWell s → trim_end s ≡ s
unfolding trim_end
trim_end-EndsWell s (t, d, q, h) =
    rw (q, reverse-append t (d ∷ []), trim_start-cons d (reverse t) h, ← reverse-append t (d ∷ []))
      (reverse-reverse (t ++ d ∷ []))

-- A text that begins and ends with no white space is its own trim.
pub trim_id : (c : ℕ) (s : Text) → is_whitespace c ≡ false → EndsWell (c ∷ s) → trim (c ∷ s) ≡ c ∷ s
unfolding trim
trim_id c s h e = rw (trim_start-cons c s h) (trim_end-EndsWell (c ∷ s) e)

trim_end-space : (s : Text) (d : ℕ) → is_whitespace d ≡ true → trim_end (s ++ d ∷ []) ≡ trim_end s
unfolding trim_end trim_start
trim_end-space s d h = rw (reverse-append s (d ∷ []), h) refl

-- The line end of such a text is trimmed away.
pub trim-line :
    (c : ℕ) (s : Text)
    → is_whitespace c ≡ false
    → EndsWell (c ∷ s)
    → trim ((c ∷ s) ++ 0x0a ∷ []) ≡ c ∷ s
unfolding trim is_whitespace
trim-line c s h e =
    ap trim_end (trim_start-cons c (s ++ 0x0a ∷ []) h)
    ∙ trim_end-space (c ∷ s) 0x0a refl
    ∙ trim_end-EndsWell (c ∷ s) e

pub trim_All : (s : Text) → All (λ x. is_whitespace x ≡ false) s → trim s ≡ s
trim_All [] h = unfold trim trim_start trim_end in refl
trim_All (c ∷ s) h = trim_id c s h.0 (EndsWell-All c s h)

pub split_once-append :
    (sep : ℕ) (k s : Text) → All (λ c. c ≢ sep) k → split_once sep (k ++ sep ∷ s) ≡ some (k, s)
unfolding split_once
split_once-append sep [] s h = ground arith
split_once-append sep (c ∷ k) s (hc, hk) = ground (arith, split_once-append sep k s hk)

strip_cr-snoc : (t : Text) (d : ℕ) → d ≢ 0x0d → strip_cr (t ++ d ∷ []) ≡ t ++ d ∷ []
unfolding strip_cr
strip_cr-snoc [] d h = ground arith
strip_cr-snoc (c ∷ []) d h = ap (◌∷◌ c) (strip_cr-snoc [] d h)
strip_cr-snoc (c ∷ e ∷ t) d h = ap (◌∷◌ c) (strip_cr-snoc (e ∷ t) d h)

strip_cr-EndsWell : (s : Text) → EndsWell s → strip_cr s ≡ s
strip_cr-EndsWell s (t, d, q, h) = rw q (strip_cr-snoc t d not_cr)
  where
    not_cr : d ≢ 0x0d
    not_cr e = unfold is_whitespace in ground arith

pub lines_from-append :
    (l line rest : Text)
    → All (λ c. c ≢ 0x0a) l
    → lines_from line (l ++ 0x0a ∷ rest) ≡ strip_cr (line ++ l) ∷ lines_from [] rest
unfolding lines_from
lines_from-append [] line rest h = rw append-nil
lines_from-append (c ∷ l) line rest (hc, hl) =
    ground (arith, lines_from-append l (line ++ c ∷ []) rest hl, append_assoc line (c ∷ []) l)

-- The first line of a text that begins with a line.
pub lines-append :
    (l rest : Text) → All (λ c. c ≢ 0x0a) l → EndsWell l → lines (l ++ 0x0a ∷ rest) ≡ l ∷ lines rest
unfolding lines
lines-append l rest h e =
    lines_from-append l [] rest h ∙ ap (λ x. x ∷ lines_from [] rest) (strip_cr-EndsWell l e)
