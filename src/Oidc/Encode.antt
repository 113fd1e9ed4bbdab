-- ===== src/Oidc/Encode.antt =====
-- packages/oidc-credential-validator/src/main.rs: form_urlencode and base64, and the bytes of a text.
pub mod Base64
pub mod Form
use foundrix.Base.{
  ℕ, ◌+◌, ◌*◌, ◌/◌, ◌%◌, ◌^◌, ◌-◌, Bool, ◌||◌, List, [], ◌∷◌, ◌++◌, ltb, ◌==◌, if◌then◌else◌, Text,
  codes, is_ascii_alphanumeric,
}

-- The bytes of a character, by UTF-8.
unfoldable pub utf8 : ℕ → List ℕ
utf8 c =
    if ltb c 128
    then c ∷ []
    else if ltb c 2048
    then (192 + c / 64) ∷ (128 + c % 64) ∷ []
    else if ltb c 65536
    then (224 + c / 4096) ∷ (128 + c / 64 % 64) ∷ (128 + c % 64) ∷ []
    else (240 + c / 262144) ∷ (128 + c / 4096 % 64) ∷ (128 + c / 64 % 64) ∷ (128 + c % 64) ∷ []

unfoldable pub bytes : Text → List ℕ
unfolding utf8
bytes [] = []
bytes (c ∷ s) = utf8 c ++ bytes s

-- A digit of `{:02X}`.
abbrev pub hex_digit : ℕ → ℕ
hex_digit n = if ltb n 10 then 48 + n else 55 + n

abbrev pub is_unreserved : ℕ → Bool
is_unreserved b = is_ascii_alphanumeric b || (b == b'-' || (b == b'.' || (b == b'_' || b == b'~')))

unfoldable pub escape_byte : ℕ → Text
unfolding is_ascii_alphanumeric
escape_byte b =
    if is_unreserved b
    then b ∷ []
    else if b == b' '
    then b'+' ∷ []
    else b'%' ∷ hex_digit (b / 16) ∷ hex_digit (b % 16) ∷ []

-- The loop of `form_urlencode`.
unfoldable pub escape_bytes : List ℕ → Text
unfolding escape_byte
escape_bytes [] = []
escape_bytes (b ∷ bs) = escape_byte b ++ escape_bytes bs

unfoldable pub form_urlencode : Text → Text
unfolding bytes escape_bytes
form_urlencode s = escape_bytes (bytes s)

-- The table `T`.
abbrev pub table : Text
table = codes "ABCDEFGHIJKLMNOPQRSTUVWXYZabcdefghijklmnopqrstuvwxyz0123456789+/"

abbrev pub entry : List ℕ → ℕ → ℕ
entry [] n = 0
entry (c ∷ cs) n = if n == 0 then c else entry cs (n - 1)

unfoldable pub sextet : ℕ → ℕ
sextet n = entry table (n % 64)

-- The loop of `base64` over the chunks of three.
unfoldable pub base64 : List ℕ → Text
unfolding sextet
base64 [] = []
base64 (a ∷ []) = sextet (a * 65536 / 262144) ∷ sextet (a * 65536 / 4096) ∷ b'=' ∷ b'=' ∷ []
base64 (a ∷ b ∷ []) =
    sextet ((a * 65536 + b * 256) / 262144)
    ∷ sextet ((a * 65536 + b * 256) / 4096)
    ∷ sextet ((a * 65536 + b * 256) / 64)
    ∷ b'='
    ∷ []
base64 (a ∷ b ∷ c ∷ rest) =
    sextet ((a * 65536 + b * 256 + c) / 262144)
    ∷ sextet ((a * 65536 + b * 256 + c) / 4096)
    ∷ sextet ((a * 65536 + b * 256 + c) / 64)
    ∷ sextet (a * 65536 + b * 256 + c)
    ∷ base64 rest
