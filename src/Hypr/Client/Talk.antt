-- ===== src/Hypr/Client/Talk.antt =====
-- packages/hypr-workspaced/src/client.rs and daemon.rs: what a client of a running daemon is told.
use foundrix.Base.{
  ℕ, ◌==◌, ◌≡◌, ◌≢◌, refl, sym, ap, ◌∙◌, subst, true, false, List, [], ◌∷◌, ◌++◌, All, All-map,
  All-append, all, all-All, not, if◌then◌else◌, arith, Text, text_eq, codes, trim, strip_prefix,
  is_whitespace, join_words, Result, ok,
}
use foundrix.Base.TextLaws.{EndsWell, EndsWell-append, trim-line}
use foundrix.Base.WordLaws.{IsWord, join_words-EndsWell}
use foundrix.Hypr.Ipc.{
  Command, CommandError, Response, done, data_of, error_of, parse_command, display, parse_response,
  parse_error, response_text,
}
use foundrix.Hypr.Ipc.RoundTrip.{parse_command-display, display-words}
use foundrix.Hypr.Client.{read_line}

-- No line end in the text.
abbrev pub OneLine : Text → Type 0
OneLine s = All (λ c. c ≢ 0x0a) s

read_line-append : (l rest : Text) → OneLine l → read_line (l ++ 0x0a ∷ rest) ≡ l ++ 0x0a ∷ []
unfolding read_line
read_line-append [] rest h = refl
read_line-append (c ∷ l) rest (hc, hl) = ground (arith, read_line-append l rest hl)

black-ne : (c : ℕ) → is_whitespace c ≡ false → c ≢ 0x0a
black-ne c k e = unfold is_whitespace in ground arith

join_words-OneLine : (ws : List Text) → All IsWord ws → OneLine (join_words ws)
unfolding join_words
join_words-OneLine [] h = tt
join_words-OneLine (w ∷ []) ((_, h), _) = All-map black-ne w h
join_words-OneLine (w ∷ v ∷ ws) ((_, h), hs) =
    All-append (λ c. c ≢ 0x0a) w (b' ' ∷ join_words (v ∷ ws)) (All-map black-ne w h)
      (space, join_words-OneLine (v ∷ ws) hs)
  where
    space : Path ℕ b' ' 0x0a → ⊥
    space e = omega arith

headed : (x : ℕ) (w : Text) (ws : List Text) → (l : Text) × (join_words ((x ∷ w) ∷ ws) ≡ x ∷ l)
unfolding join_words
headed x w [] = (w, refl)
headed x w (v ∷ ws) = (w ++ b' ' ∷ join_words (v ∷ ws), refl)

trim-black :
    (s : Text) (x : ℕ) {l : Text}
    → s ≡ x ∷ l
    → is_whitespace x ≡ false
    → EndsWell s
    → trim (s ++ 0x0a ∷ []) ≡ s
trim-black s x {l = l} e h k =
    ap (λ t. trim (t ++ 0x0a ∷ [])) e ∙ trim-line x l h (subst EndsWell e k) ∙ sym e

-- What the daemon reads of a client's line is the command that the client was given.
pub heard :
    (t : Text) (c : Command)
    → parse_command t ≡ ok c
    → parse_command (trim (read_line (display c ++ 0x0a ∷ []))) ≡ ok c
heard t c h = by (display-words t c h)
  where
    by :
        ((w : Text) × (ws : List Text) × (display c ≡ join_words (w ∷ ws)) × All IsWord (w ∷ ws))
        → parse_command (trim (read_line (display c ++ 0x0a ∷ []))) ≡ ok c
    by ([], ws, e, ((ne, _), _)) = cc
    by (x ∷ w, ws, e, hs) =
        ap (λ l. parse_command (trim l))
          (read_line-append (display c) []
            (subst OneLine (sym e) (join_words-OneLine ((x ∷ w) ∷ ws) hs)))
        ∙ ap parse_command (
            trim-black (display c) x (e ∙ (headed x w ws).1) hs.0.1.0
              (subst EndsWell (sym e) (join_words-EndsWell (x ∷ w) ws hs)))
        ∙ parse_command-display t c h

-- A response whose text is one line that ends with no white space.
abbrev pub Presentable : Response → Type 0
Presentable done = Unit
Presentable (data_of d) = OneLine d × EndsWell d
Presentable (error_of message) = OneLine message × EndsWell message

-- `parse_response` behind the trim.
abbrev read_as : Text → Text → Result Response CommandError
read_as s t =
    if text_eq t (codes "ok") then ok done else parse_error s t (strip_prefix (codes "error: ") t)

presented_as :
    (r : Response) (x : ℕ) (l rest : Text)
    → response_text r ≡ x ∷ l
    → OneLine (x ∷ l)
    → is_whitespace x ≡ false
    → EndsWell (x ∷ l)
    → ((s : Text) → read_as s (x ∷ l) ≡ ok r)
    → parse_response (read_line (response_text r ++ 0x0a ∷ rest)) ≡ ok r
unfolding parse_response
presented_as r x l rest e one h k parsed =
    ap (λ t. parse_response (read_line (t ++ 0x0a ∷ rest))) e
    ∙ ap parse_response (read_line-append (x ∷ l) rest one)
    ∙ ap (read_as ((x ∷ l) ++ 0x0a ∷ [])) (trim-line x l h k)
    ∙ parsed ((x ∷ l) ++ 0x0a ∷ [])

pub one_line : (s : Text) → all (λ c. not (c == 0x0a)) s ≡ true → OneLine s
one_line s h = All-map (λ c k. ground arith) s (all-All (λ c. not (c == 0x0a)) s h)

-- The response is read from a first line, whatever the daemon writes behind it.
pub presented :
    (r : Response) (rest : Text)
    → Presentable r
    → parse_response (read_line (response_text r ++ 0x0a ∷ rest)) ≡ ok r
unfolding response_text codes is_whitespace text_eq strip_prefix
presented done rest h =
    presented_as done b'o' (b'k' ∷ []) rest refl (one_line (codes "ok") refl) refl
      (b'o' ∷ [], b'k', refl, refl) (λ s. refl)
presented (data_of d) rest (h, e) =
    presented_as (data_of d) b'd' _ rest refl
      (All-append (λ c. c ≢ 0x0a) (codes "data: ") d (one_line (codes "data: ") refl) h) refl
      (EndsWell-append (codes "data: ") d e) (λ s. refl)
presented (error_of d) rest (h, e) =
    presented_as (error_of d) b'e' _ rest refl
      (All-append (λ c. c ≢ 0x0a) (codes "error: ") d (one_line (codes "error: ") refl) h) refl
      (EndsWell-append (codes "error: ") d e) (λ s. refl)
