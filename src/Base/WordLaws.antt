-- ===== src/Base/WordLaws.antt =====
-- Laws of words: a text of words is its own trim, and is split into those words; a decimal is read
-- back.
use Prim.Native.Nat.{ℕ, zero, suc, ◌+◌, ◌-◌, ◌*◌, ◌/◌, ◌%◌, ◌≤◌, ◌<◌}
use mathlib.Core.Path.{◌≡◌, refl, sym, ap, ◌∙◌}
use mathlib.Core.Bool.{Bool, true, false}
use mathlib.Core.Option.{some}
use mathlib.Core.List.{List, [], ◌∷◌, ◌++◌, append-nil, append_assoc}
use native.Mathlib.Omega.{arith}
use foundrix.Base.Tests.{ltb}
use foundrix.Base.Lists.{All, All-append, is_empty}
use foundrix.Base.Chars.{is_whitespace, is_ascii_digit}
use foundrix.Base.Texts.{Text, trim, parse_digits}
use foundrix.Base.Decimal.{decimal, decimal_digits}
use foundrix.Base.Words.{words_from, split_whitespace, join_words, flush}
use foundrix.Base.TextLaws.{EndsWell, EndsWell-append, EndsWell-All, trim_id}

-- A word: not empty, and without white space.
abbrev pub IsWord : Text → Type 0
IsWord w = (is_empty w ≡ false) × All (λ c. is_whitespace c ≡ false) w

-- The words that a split finds are words.
flush-All :
    (w : Text) (ws : List Text)
    → All (λ c. is_whitespace c ≡ false) w
    → All IsWord ws
    → All IsWord (flush w ws)
flush-All [] ws h hs = hs
flush-All (c ∷ w) ws h hs = ((refl, h), hs)

words_from-All : (s w : Text) → All (λ c. is_whitespace c ≡ false) w → All IsWord (words_from w s)
unfolding words_from
words_from-All [] w h = flush-All w [] h tt
words_from-All (c ∷ s) w h =
    by (is_whitespace c) refl (words_from-All s [] tt) (words_from-All s (w ++ c ∷ []))
  where
    by :
        (b : Bool)
        → is_whitespace c ≡ b
        → All IsWord (words_from [] s)
        → (All (λ x. is_whitespace x ≡ false) (w ++ c ∷ [])
            → All IsWord (words_from (w ++ c ∷ []) s))
        → All IsWord
            (elim b [ true ↦ flush w (words_from [] s) | false ↦ words_from (w ++ c ∷ []) s ])
    by true e ih _ = flush-All w (words_from [] s) h ih
    by false e _ ih = ih (All-append _ w (c ∷ []) h (e, tt))

pub split_whitespace-All : (s : Text) → All IsWord (split_whitespace s)
unfolding split_whitespace
split_whitespace-All s = words_from-All s [] tt

words_from-append :
    (v w s : Text)
    → All (λ c. is_whitespace c ≡ false) v
    → words_from w (v ++ s) ≡ words_from (w ++ v) s
unfolding words_from
words_from-append [] w s h = rw append-nil refl
words_from-append (c ∷ v) w s (hc, hv) =
    rw (words_from, hc)
      (words_from-append v (w ++ c ∷ []) s hv
        ∙ ap (λ t. words_from t s) (append_assoc w (c ∷ []) v))

flush-word : (w : Text) (ws : List Text) → is_empty w ≡ false → flush w ws ≡ w ∷ ws
flush-word [] ws h = cc
flush-word (c ∷ w) ws h = refl

words_from-space : (w s : Text) → words_from w (b' ' ∷ s) ≡ flush w (words_from [] s)
unfolding words_from is_whitespace
words_from-space w s = refl

words_from-end : (w : Text) → words_from w [] ≡ flush w []
unfolding words_from
words_from-end w = refl

first_word :
    (w v : Text) (ws : List Text)
    → IsWord w
    → words_from [] (join_words (w ∷ v ∷ ws)) ≡ w ∷ words_from [] (join_words (v ∷ ws))
unfolding join_words
first_word w v ws (ne, hw) =
    words_from-append w [] (b' ' ∷ join_words (v ∷ ws)) hw
    ∙ words_from-space w (join_words (v ∷ ws))
    ∙ flush-word w _ ne

-- The words of a text that joins words.
pub split_whitespace-join_words :
    (ws : List Text) → All IsWord ws → split_whitespace (join_words ws) ≡ ws
unfolding split_whitespace
split_whitespace-join_words [] h = unfold words_from join_words in refl
split_whitespace-join_words (w ∷ []) ((ne, hw), _) =
    unfold join_words in
    (ap (words_from []) (sym (append-nil w))
      ∙ words_from-append w [] [] hw
      ∙ words_from-end w
      ∙ flush-word w [] ne)
split_whitespace-join_words (w ∷ v ∷ ws) ((ne, hw), hs) =
    first_word w v ws (ne, hw) ∙ ap (◌∷◌ w) (split_whitespace-join_words (v ∷ ws) hs)

pub join_words-EndsWell :
    (w : Text) (ws : List Text) → All IsWord (w ∷ ws) → EndsWell (join_words (w ∷ ws))
unfolding join_words
join_words-EndsWell [] [] ((ne, _), _) = cc
join_words-EndsWell (c ∷ w) [] ((ne, hw), _) = EndsWell-All c w hw
join_words-EndsWell w (v ∷ ws) (h, hs) =
    EndsWell-append w (b' ' ∷ join_words (v ∷ ws))
      (EndsWell-append (b' ' ∷ []) (join_words (v ∷ ws)) (join_words-EndsWell v ws hs))

-- A text that joins words begins and ends with no white space.
pub trim-join_words : (ws : List Text) → All IsWord ws → trim (join_words ws) ≡ join_words ws
unfolding join_words
trim-join_words [] h = unfold trim in refl
trim-join_words ([] ∷ ws) ((ne, _), _) = cc
trim-join_words ((c ∷ w) ∷ []) ((ne, hw), hs) = trim_id c w hw.0 (EndsWell-All c w hw)
trim-join_words ((c ∷ w) ∷ v ∷ ws) ((ne, hw), hs) =
    trim_id c (w ++ b' ' ∷ join_words (v ∷ ws)) hw.0
      (join_words-EndsWell (c ∷ w) (v ∷ ws) ((ne, hw), hs))

parse_digits-snoc :
    (limit acc n d : ℕ) (s : Text)
    → parse_digits 10 limit acc s ≡ some n
    → d < 10
    → n * 10 + d ≤ limit
    → parse_digits 10 limit acc (s ++ (b'0' + d) ∷ []) ≡ some (n * 10 + d)
unfolding parse_digits
parse_digits-snoc limit acc n d [] h lt le = ground arith
parse_digits-snoc limit acc n d (c ∷ s) h lt le =
    ground (arith, parse_digits-snoc limit (acc * 10 + (c - b'0')) n d s)

parse_digits-decimal_digits :
    (fuel limit n : ℕ)
    → n < fuel
    → n ≤ limit
    → parse_digits 10 limit 0 (decimal_digits fuel n) ≡ some n
unfolding decimal_digits
parse_digits-decimal_digits zero limit n lt le = ground arith
parse_digits-decimal_digits (suc fuel) limit n lt le =
    by (ltb n 10) refl
      (λ big. parse_digits-decimal_digits fuel limit (n / 10) (ground arith) (omega arith))
  where
    by :
        (b : Bool)
        → ltb n 10 ≡ b
        → (ltb n 10 ≡ false
            → parse_digits 10 limit 0 (decimal_digits fuel (n / 10)) ≡ some (n / 10))
        → parse_digits 10 limit 0 (elim b [
          | true ↦ (b'0' + n) ∷ []
          | false ↦ decimal_digits fuel (n / 10) ++ (b'0' + n % 10) ∷ []
        ])
          ≡ some n
    by true e _ = unfold parse_digits in ground arith
    by false e ih =
        parse_digits-snoc limit 0 (n / 10) (n % 10) (decimal_digits fuel (n / 10)) (ih e)
          (omega arith) (omega arith)
        ∙ ap some (omega arith)

-- The digits of a number within the limit are read as the number.
pub parse_digits-decimal : (limit n : ℕ) → n ≤ limit → parse_digits 10 limit 0 (decimal n) ≡ some n
unfolding decimal
parse_digits-decimal limit n le = parse_digits-decimal_digits (suc n) limit n (omega arith) le

decimal_digits-All : (fuel n : ℕ) → All (λ c. is_ascii_digit c ≡ true) (decimal_digits fuel n)
unfolding decimal_digits
decimal_digits-All zero n = tt
decimal_digits-All (suc fuel) n = by (ltb n 10) refl (decimal_digits-All fuel (n / 10))
  where
    digit : (d : ℕ) → d < 10 → is_ascii_digit (b'0' + d) ≡ true
    digit d h = unfold is_ascii_digit in ground arith

    by :
        (b : Bool)
        → ltb n 10 ≡ b
        → All (λ c. is_ascii_digit c ≡ true) (decimal_digits fuel (n / 10))
        → All
            (λ c. is_ascii_digit c ≡ true)
            (elim b [
              | true ↦ (b'0' + n) ∷ []
              | false ↦ decimal_digits fuel (n / 10) ++ (b'0' + n % 10) ∷ []
            ])
    by true e _ = (digit n (ground arith), tt)
    by false e ih =
        All-append _ (decimal_digits fuel (n / 10)) _ ih (digit (n % 10) (omega arith), tt)

pub decimal-All : (n : ℕ) → All (λ c. is_ascii_digit c ≡ true) (decimal n)
unfolding decimal
decimal-All n = decimal_digits-All (suc n) n

snoc-cons : (s : Text) (d : ℕ) → (c : ℕ) × (t : Text) × (s ++ d ∷ [] ≡ c ∷ t)
snoc-cons [] d = (d, [], refl)
snoc-cons (c ∷ s) d = (c, s ++ d ∷ [], refl)

-- There is a first digit.
pub decimal-cons : (n : ℕ) → (c : ℕ) × (t : Text) × (decimal n ≡ c ∷ t)
unfolding decimal decimal_digits
decimal-cons n = by (ltb n 10)
  where
    by :
        (b : Bool)
        → (c : ℕ) × (t : Text) × (elim b [
          | true ↦ (b'0' + n) ∷ []
          | false ↦ decimal_digits n (n / 10) ++ (b'0' + n % 10) ∷ []
        ]
            ≡ c ∷ t)
    by true = (b'0' + n, [], refl)
    by false = snoc-cons (decimal_digits n (n / 10)) (b'0' + n % 10)
