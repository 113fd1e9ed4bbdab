-- ===== src/Oidc/Encode/Form.antt =====
-- A reader of form-urlencoded texts, and what it makes of the encoding of
-- packages/oidc-credential-validator/src/main.rs.
use foundrix.Base.{
  ℕ, ◌+◌, ◌*◌, ◌/◌, ◌%◌, ◌-◌, ◌<◌, ◌≡◌, ◌≢◌, refl, ap, ◌∙◌, arith, Bool, true, false, not, ◌&&◌,
  ◌||◌, List, [], ◌∷◌, ◌++◌, ltb, ◌==◌, if◌then◌else◌, all_below, below, All, All-append, if-cases,
  Text, is_ascii_alphanumeric,
}
use foundrix.Oidc.Encode.{utf8, bytes, hex_digit, is_unreserved, escape_byte, escape_bytes}
use foundrix.Oidc.Encode.Base64.{IsByte}

-- A digit of a %-escape.
abbrev hex_value : ℕ → ℕ
hex_value c = if ltb c 58 then c - 48 else c - 55

abbrev plain_value : ℕ → ℕ
plain_value c = if c == b'+' then b' ' else c

-- A reader of form-urlencoded texts.
unfoldable pub read_form : Text → List ℕ
read_form [] = []
read_form (c ∷ []) = plain_value c ∷ []
read_form (c ∷ x ∷ []) = plain_value c ∷ plain_value x ∷ []
read_form (c ∷ x ∷ y ∷ s) = elim (c == b'%') [
  | true ↦ (hex_value x * 16 + hex_value y) ∷ read_form s
  | false ↦ plain_value c ∷ read_form (x ∷ y ∷ s)
]

read_form-escape :
    (x y : ℕ) (s : Text)
    → read_form (b'%' ∷ x ∷ y ∷ s) ≡ (hex_value x * 16 + hex_value y) ∷ read_form s
unfolding read_form
read_form-escape x y s = refl

read_form-plain :
    (c : ℕ) (s : Text) → (c == b'%') ≡ false → read_form (c ∷ s) ≡ plain_value c ∷ read_form s
unfolding read_form
read_form-plain c [] h = refl
read_form-plain c (x ∷ []) h = refl
read_form-plain c (x ∷ y ∷ s) h = ground (arith, h)

hex_value-hex_digit : (n : ℕ) → n < 16 → hex_value (hex_digit n) ≡ n
hex_value-hex_digit n h = ground arith

-- A character that stands for itself is a byte of ASCII, and none that has a meaning of its own.
abbrev unreserved_test : ℕ → Bool
unreserved_test b =
    not (is_unreserved b)
    || (ltb b 128 && (not (b == b'%') && (not (b == b'+') && not (b == b':'))))

all_unreserved : all_below 256 unreserved_test ≡ true
unfolding is_ascii_alphanumeric
all_unreserved = refl

-- What the encoding of a byte consists of.
abbrev pub IsSafe : ℕ → Type 0
IsSafe c = (c < 128) × (c ≢ b':')

unreserved_plain :
    (b : ℕ)
    → b < 256
    → is_unreserved b ≡ true
    → ((b == b'%') ≡ false) × ((b == b'+') ≡ false) × IsSafe b
unreserved_plain b h u = by (is_unreserved b) u (below 256 b unreserved_test all_unreserved h)
  where
    by :
        (x : Bool)
        → x ≡ true
        → (not x || (ltb b 128 && (not (b == b'%') && (not (b == b'+') && not (b == b':'))))) ≡ true
        → ((b == b'%') ≡ false) × ((b == b'+') ≡ false) × IsSafe b
    by true e k = (ground (arith, k), ground (arith, k), (ground (arith, k), ground (arith, k)))
    by false e k = cc

hex_digit-IsSafe : (n : ℕ) → n < 16 → IsSafe (hex_digit n)
hex_digit-IsSafe n h = (ground arith, ground arith)

escape_byte-IsSafe : (b : ℕ) → b < 256 → All IsSafe (escape_byte b)
unfolding escape_byte
escape_byte-IsSafe b h =
    if-cases (All IsSafe) (is_unreserved b) _ _ (λ u. ((unreserved_plain b h u).2, tt))
      (λ u.
        if-cases (All IsSafe) (b == b' ') _ _ (λ v. ((omega arith, omega arith), tt))
          (λ v. (
            (omega arith, omega arith),
            (
              hex_digit-IsSafe (b / 16) (omega (arith, h)),
              (hex_digit-IsSafe (b % 16) (omega arith), tt),
            ),
          )))

read_form-escape_byte :
    (b : ℕ) (s : Text) → b < 256 → read_form (escape_byte b ++ s) ≡ b ∷ read_form s
unfolding escape_byte
read_form-escape_byte b s h =
    if-cases P (is_unreserved b) _ _ unreserved
      (λ u. if-cases P (b == b' ') _ _ space (λ v. escaped))
  where
    P : Text → Type 0
    P t = read_form (t ++ s) ≡ b ∷ read_form s

    unreserved : is_unreserved b ≡ true → P (b ∷ [])
    unreserved u =
        read_form-plain b s (unreserved_plain b h u).0
        ∙ ap (λ x. x ∷ read_form s) (ground (arith, (unreserved_plain b h u).1))

    space : (b == b' ') ≡ true → P (b'+' ∷ [])
    space v = read_form-plain b'+' s refl ∙ ap (λ x. x ∷ read_form s) (ground (arith, v))

    escaped : P (b'%' ∷ hex_digit (b / 16) ∷ hex_digit (b % 16) ∷ [])
    escaped =
        read_form-escape (hex_digit (b / 16)) (hex_digit (b % 16)) s
        ∙ ap (λ x. x ∷ read_form s)
            (rw
              (
                hex_value-hex_digit (b / 16) (omega (arith, h)),
                hex_value-hex_digit (b % 16) (omega arith),
              )
              (omega arith))

pub escape_bytes-IsSafe : (bs : List ℕ) → All IsByte bs → All IsSafe (escape_bytes bs)
unfolding escape_bytes
escape_bytes-IsSafe [] h = tt
escape_bytes-IsSafe (b ∷ bs) (hb, h) =
    All-append IsSafe (escape_byte b) (escape_bytes bs) (escape_byte-IsSafe b hb)
      (escape_bytes-IsSafe bs h)

-- Any bytes are read back from their form-urlencoded text.
pub read_form-escape_bytes : (bs : List ℕ) → All IsByte bs → read_form (escape_bytes bs) ≡ bs
unfolding escape_bytes read_form
read_form-escape_bytes [] h = refl
read_form-escape_bytes (b ∷ bs) (hb, h) =
    read_form-escape_byte b (escape_bytes bs) hb ∙ ap (◌∷◌ b) (read_form-escape_bytes bs h)

-- A code point.
abbrev pub IsChar : ℕ → Type 0
IsChar c = c < 1114112

utf8-IsByte : (c : ℕ) → IsChar c → All IsByte (utf8 c)
unfolding utf8
utf8-IsByte c h =
    if-cases (All IsByte) (ltb c 128) _ _ (λ u. (ground (arith, u), tt))
      (λ u.
        if-cases (All IsByte) (ltb c 2048) _ _ (λ v. (ground (arith, v), (omega arith, tt)))
          (λ v.
            if-cases (All IsByte) (ltb c 65536) _ _
              (λ x. (ground (arith, x), (omega arith, (omega arith, tt))))
              (λ x. (omega (arith, h), (omega arith, (omega arith, (omega arith, tt)))))))

pub bytes-IsByte : (s : Text) → All IsChar s → All IsByte (bytes s)
unfolding bytes
bytes-IsByte [] h = tt
bytes-IsByte (c ∷ s) (hc, h) =
    All-append IsByte (utf8 c) (bytes s) (utf8-IsByte c hc) (bytes-IsByte s h)

-- The bytes of a text of ASCII are its characters.
pub bytes-ascii : (s : Text) → All (λ c. c < 128) s → bytes s ≡ s
unfolding bytes utf8
bytes-ascii [] h = refl
bytes-ascii (c ∷ s) (hc, h) = ground (arith, bytes-ascii s h)
