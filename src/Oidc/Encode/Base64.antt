-- ===== src/Oidc/Encode/Base64.antt =====
-- A reader of base64, and what it makes of the encoding of packages/oidc-credential-validator/src/main.rs.
use foundrix.Base.{
  ℕ, ◌+◌, ◌*◌, ◌/◌, ◌%◌, ◌-◌, ◌<◌, ◌≡◌, refl, ap, arith, Bool, true, false, not, ◌&&◌, List, [],
  ◌∷◌, ltb, ◌==◌, if◌then◌else◌, all_below, below, All, Text, codes,
}
use foundrix.Oidc.Encode.{table, entry, sextet, base64}

-- The place of a character in the table.
unfoldable pub place : ℕ → ℕ
place c =
    if ltb c 48
    then (if c == b'+' then 62 else 63)
    else if ltb c 58
    then c + 4
    else if ltb c 91
    then c - 65
    else c - 71

abbrev entry_test : ℕ → Bool
entry_test k = place (entry table k) == k && not (entry table k == b'=')

all_entries : all_below 64 entry_test ≡ true
unfolding place codes
all_entries = refl

entry-place : (k : ℕ) → k < 64 → (place (entry table k) ≡ k) × ((entry table k == b'=') ≡ false)
entry-place k l = by (entry table k) (below 64 k entry_test all_entries l)
  where
    by : (c : ℕ) → (place c == k && not (c == b'=')) ≡ true → (place c ≡ k) × ((c == b'=') ≡ false)
    by c h = (ground (arith, h), ground (arith, h))

place-sextet : (n : ℕ) → place (sextet n) ≡ n % 64
unfolding sextet
place-sextet n = (entry-place (n % 64) (omega arith)).0

sextet_plain : (n : ℕ) → (sextet n == b'=') ≡ false
unfolding sextet
sextet_plain n = (entry-place (n % 64) (omega arith)).1

-- The bytes of a group of four places.
abbrev joined : ℕ → ℕ → ℕ → ℕ → ℕ
joined p q r s = place p * 262144 + place q * 4096 + place r * 64 + place s

-- A reader of base64 with its padding.
unfoldable pub read_base64 : Text → List ℕ
unfolding place
read_base64 [] = []
read_base64 (p ∷ []) = []
read_base64 (p ∷ q ∷ []) = []
read_base64 (p ∷ q ∷ r ∷ []) = []
read_base64 (p ∷ q ∷ r ∷ s ∷ rest) =
    let more = read_base64 rest in
    if r == b'='
    then ((place p * 4 + place q / 16) ∷ [])
    else if s == b'='
    then ((place p * 4 + place q / 16) ∷ (place q % 16 * 16 + place r / 4) ∷ [])
    else (joined p q r s / 65536) ∷ (joined p q r s / 256 % 256) ∷ (joined p q r s % 256) ∷ more

abbrev pub IsByte : ℕ → Type 0
IsByte b = b < 256

-- Four groups of six bits make the number that they were taken from.
sextets_joined :
    (n : ℕ)
    → n < 16777216
    → n / 262144 % 64 * 262144 + n / 4096 % 64 * 4096 + n / 64 % 64 * 64 + n % 64 ≡ n
sextets_joined n h = omega (arith, h)

joined-sextet :
    (n : ℕ)
    → n < 16777216
    → joined (sextet (n / 262144)) (sextet (n / 4096)) (sextet (n / 64)) (sextet n) ≡ n
joined-sextet n h =
    rw (place-sextet (n / 262144), place-sextet (n / 4096), place-sextet (n / 64), place-sextet n)
      (sextets_joined n h)

cons_eq : (a b : ℕ) (s t : List ℕ) → a ≡ b → s ≡ t → a ∷ s ≡ b ∷ t
cons_eq a b s t h k = cc

-- Any bytes are read back from their base64.
pub read_base64-base64 : (bs : List ℕ) → All IsByte bs → read_base64 (base64 bs) ≡ bs
unfolding read_base64 base64
read_base64-base64 [] h = refl
read_base64-base64 (a ∷ []) (ha, h) =
    rw (place-sextet (a * 65536 / 262144), place-sextet (a * 65536 / 4096))
      (ap (λ x. x ∷ []) (omega (arith, ha)))
read_base64-base64 (a ∷ b ∷ []) (ha, (hb, h)) =
    rw
      (
        sextet_plain ((a * 65536 + b * 256) / 64),
        place-sextet ((a * 65536 + b * 256) / 262144),
        place-sextet ((a * 65536 + b * 256) / 4096),
        place-sextet ((a * 65536 + b * 256) / 64),
      )
      (cons_eq _ _ _ _ (omega (arith, ha, hb)) (cons_eq _ _ [] [] (omega (arith, ha, hb)) refl))
read_base64-base64 (a ∷ b ∷ c ∷ rest) (ha, (hb, (hc, h))) =
    rw
      (
        sextet_plain ((a * 65536 + b * 256 + c) / 64),
        sextet_plain (a * 65536 + b * 256 + c),
        joined-sextet (a * 65536 + b * 256 + c) (omega (arith, ha, hb, hc)),
      )
      (cons_eq _ _ _ _ (omega (arith, ha, hb, hc)) (
        cons_eq _ _ _ _ (omega (arith, ha, hb, hc))
          (cons_eq _ _ _ _ (omega (arith, ha, hb, hc)) (read_base64-base64 rest h))))
