-- ===== src/Hypr/Request/Reader.antt =====
-- A reader of Lua's string literals, and what `lua_string` means to it.
use foundrix.Base.{
  ℕ, if-cases, ==_iff, ◌+◌, ◌-◌, ◌*◌, ◌/◌, ◌%◌, ◌<◌, ◌==◌, leb, ◌≡◌, refl, sym, ap, ◌∙◌, true,
  false, ◌||◌, [], ◌∷◌, ◌++◌, append_assoc, Option, none, some, if◌then◌else◌, is_ascii_digit,
  arith, Text,
}
use foundrix.Hypr.Request.{three_digits, quote_char, quote_chars, lua_string, is_ascii_control}

abbrev pub keep : ℕ → Option (Text × Text) → Option (Text × Text)
keep c none = none
keep c (some (value, rest)) = some (c ∷ value, rest)

-- Lua's letter escapes that stand for one character.
abbrev pub letter : ℕ → Option ℕ
letter c =
    if c == b'"'
    then some b'"'
    else if c == b'\\'
    then some b'\\'
    else if c == b'n'
    then some 0x0a
    else if c == b'r'
    then some 0x0d
    else if c == b't'
    then some 0x09
    else none

-- Where a reader stands in a literal: between characters, behind a backslash, or behind one, two or
-- three digits of a number. A line end may not stand in a literal.
pub data Position : Type 0 where
  plain escaped : Position
  one two three : ℕ → Position

-- A character between others, from what the rest reads as.
abbrev pub plain_char :
    ℕ → Text → Option (Text × Text) → Option (Text × Text) → Option (Text × Text)
plain_char c s plain_rest escaped_rest =
    if c == b'"'
    then some ([], s)
    else if c == b'\\'
    then escaped_rest
    else if c == 0x0a || c == 0x0d
    then none
    else keep c plain_rest

abbrev pub letter_char : Option ℕ → Option (Text × Text) → Option (Text × Text)
letter_char none r = none
letter_char (some c) r = keep c r

-- A byte that was written in digits.
abbrev pub byte : ℕ → Option (Text × Text) → Option (Text × Text)
byte n r = if leb n 255 then keep n r else none

-- The value of a literal up to its closing quote, and the text behind it.
unfoldable pub read : Position → Text → Option (Text × Text)
unfolding is_ascii_digit
read p [] = none
read plain (c ∷ s) = plain_char c s (read plain s) (read escaped s)
read escaped (c ∷ s) =
    if is_ascii_digit c then read (one (c - b'0')) s else letter_char (letter c) (read plain s)
read (one n) (c ∷ s) =
    if is_ascii_digit c
    then read (two (n * 10 + (c - b'0'))) s
    else byte n (plain_char c s (read plain s) (read escaped s))
read (two n) (c ∷ s) =
    if is_ascii_digit c
    then read (three (n * 10 + (c - b'0'))) s
    else byte n (plain_char c s (read plain s) (read escaped s))
read (three n) (c ∷ s) = byte n (plain_char c s (read plain s) (read escaped s))

-- A literal begins with its quote.
unfoldable pub read_literal : Text → Option (Text × Text)
unfolding read
read_literal [] = none
read_literal (c ∷ s) = if c == b'"' then read plain s else none

-- The digits of a control character are read as the character.
read-control :
    (c d : ℕ) (s : Text)
    → c < 128
    → read plain (b'\\' ∷ three_digits c ++ d ∷ s) ≡ keep c (read plain (d ∷ s))
unfolding read is_ascii_digit
read-control c d s lt =
    rw
      (
        digit (c / 100) (omega arith),
        digit (c / 10 % 10) (omega arith),
        digit (c % 10) (omega arith),
        ap (λ n. leb n 255) whole,
        whole,
        lt→leb c lt,
      )
      refl
  where
    digit : (n : ℕ) → n < 10 → is_ascii_digit (b'0' + n) ≡ true
    digit n h = ground arith

    lt→leb : (n : ℕ) → n < 128 → leb n 255 ≡ true
    lt→leb n h = ground arith

    whole :
        ((b'0' + c / 100 - b'0') * 10 + (b'0' + c / 10 % 10 - b'0')) * 10 + (b'0' + c % 10 - b'0')
        ≡ c
    whole = omega arith

read-plain :
    (c d : ℕ) (s : Text)
    → (c == b'"') ≡ false
    → (c == b'\\') ≡ false
    → (c == 0x0a) ≡ false
    → (c == 0x0d) ≡ false
    → read plain (c ∷ d ∷ s) ≡ keep c (read plain (d ∷ s))
unfolding read
read-plain c d s q b n r = rw (q, b, n, r) refl

read-quote_char :
    (c d : ℕ) (s : Text) → read plain (quote_char c ++ d ∷ s) ≡ keep c (read plain (d ∷ s))
unfolding read quote_char is_ascii_control is_ascii_digit
read-quote_char c d s =
    if-cases P (c == b'"') _ _ (λ q. written b'"' q)
      (λ q.
        if-cases P (c == b'\\') _ _ (λ b. written b'\\' b)
          (λ b.
            if-cases P (c == 0x0a) _ _ (λ n. written 0x0a n)
              (λ n.
                if-cases P (c == 0x0d) _ _ (λ r. written 0x0d r)
                  (λ r.
                    if-cases P (c == 0x09) _ _ (λ t. written 0x09 t)
                      (λ t.
                        if-cases P (is_ascii_control c) _ _ (λ k. read-control c d s (ground arith))
                          (λ k. read-plain c d s q b n r))))))
  where
    P : Text → Type 0
    P t = read plain (t ++ d ∷ s) ≡ keep c (read plain (d ∷ s))

    written : (l : ℕ) → (c == l) ≡ true → keep l (read plain (d ∷ s)) ≡ keep c (read plain (d ∷ s))
    written l e = ap (λ x. keep x (read plain (d ∷ s))) (sym ((==_iff c l).0 e))

cons_of : (v rest : Text) → (d : ℕ) × (s : Text) × (quote_chars v ++ b'"' ∷ rest ≡ d ∷ s)
unfolding quote_chars quote_char
cons_of [] rest = (b'"', rest, refl)
cons_of (c ∷ v) rest = by (quote_char c ++ quote_chars v) rest
  where
    by : (t rest : Text) → (d : ℕ) × (s : Text) × (t ++ b'"' ∷ rest ≡ d ∷ s)
    by [] rest = (b'"', rest, refl)
    by (d ∷ t) rest = (d, t ++ b'"' ∷ rest, refl)

read-quote_chars : (v rest : Text) → read plain (quote_chars v ++ b'"' ∷ rest) ≡ some (v, rest)
unfolding read quote_chars
read-quote_chars [] rest = refl
read-quote_chars (c ∷ v) rest =
    rw (append_assoc (quote_char c) (quote_chars v) (b'"' ∷ rest))
      (by (cons_of v rest) (read-quote_chars v rest))
  where
    by :
        ((d : ℕ) × (s : Text) × (quote_chars v ++ b'"' ∷ rest ≡ d ∷ s))
        → read plain (quote_chars v ++ b'"' ∷ rest) ≡ some (v, rest)
        → read plain (quote_char c ++ (quote_chars v ++ b'"' ∷ rest)) ≡ some (c ∷ v, rest)
    by (d, s, e) ih =
        ap (λ t. read plain (quote_char c ++ t)) e
        ∙ read-quote_char c d s
        ∙ ap (λ t. keep c (read plain t)) (sym e)
        ∙ ap (keep c) ih

-- Whatever text stands behind it, the literal that `lua_string` writes is read by Lua's rules as the
-- text that it was given, and the reader stops at its end: no value leaves its literal.
pub read_literal-lua_string : (v rest : Text) → read_literal (lua_string v ++ rest) ≡ some (v, rest)
unfolding read_literal lua_string
read_literal-lua_string v rest =
    rw (append_assoc (quote_chars v) (b'"' ∷ []) rest) (read-quote_chars v rest)
