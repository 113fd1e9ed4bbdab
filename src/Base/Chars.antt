-- ===== src/Base/Chars.antt =====
-- Characters as code points, with the tests of Rust's `char` and `u8`.
use Prim.Native.Nat.{ℕ}
use mathlib.Core.Bool.{Bool, ◌&&◌, ◌||◌}
use foundrix.Base.Tests.{leb, ◌==◌}

-- Unicode's White_Space, which `char::is_whitespace` and `str::trim` use.
unfoldable pub is_whitespace : ℕ → Bool
is_whitespace c =
    leb 0x09 c && leb c 0x0d
    || c == 0x20
    || c == 0x85
    || c == 0xa0
    || c == 0x1680
    || leb 0x2000 c && leb c 0x200a
    || c == 0x2028
    || c == 0x2029
    || c == 0x202f
    || c == 0x205f
    || c == 0x3000

-- Unicode's general category Cc, `char::is_control`.
unfoldable pub is_control : ℕ → Bool
is_control c = leb c 0x1f || leb 0x7f c && leb c 0x9f

unfoldable pub is_ascii_digit : ℕ → Bool
is_ascii_digit c = leb b'0' c && leb c b'9'

unfoldable pub is_ascii_alphanumeric : ℕ → Bool
unfolding is_ascii_digit
is_ascii_alphanumeric c = leb b'A' c && leb c b'Z' || leb b'a' c && leb c b'z' || is_ascii_digit c
