-- ===== src/Nsw2/Report/Bounds.antt =====
-- What packages/nsw2-service/src/report.rs unpacks from three bytes of a report.
use foundrix.Base.{ℕ, ◌+◌, ◌*◌, ◌/◌, ◌%◌, ◌<◌, ◌≡◌, arith}
use foundrix.Nsw2.Report.{unpack_12bit}

-- Two numbers of 12 bits, packed into three bytes, are read back.
pub unpack_12bit_packed :
    (a b : ℕ)
    → a < 4096
    → b < 4096
    → unpack_12bit (a % 256) (a / 256 + b % 16 * 16) (b / 16) ≡ (a, b)
unfolding unpack_12bit
unpack_12bit_packed a b ha hb = λ i. (first i, second i)
  where
    first : a % 256 + (a / 256 + b % 16 * 16) % 16 * 256 ≡ a
    first = omega (arith, ha, hb)

    second : (a / 256 + b % 16 * 16) / 16 + b / 16 * 16 ≡ b
    second = omega (arith, ha, hb)
