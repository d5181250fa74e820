-- ===== src/Float.antt =====
-- The conversion of a float64, m * 10^-e, to an int64: towards 0, and as amd64 does it outside the
-- range, where Go leaves the value open: to the least int64.
use mcp_swagger.Prelude.{
  ℕ, zero, suc, ◌+◌, ◌*◌, ◌-◌, ◌/◌, ◌^◌, Bool, false, ltb, leb, ◌==◌, ℤ, pos, negsuc, if◌then◌else◌,
}

abbrev pub int64_bound : ℕ
int64_bound = 2 ^ 63

abbrev pub min_int64 : ℤ
min_int64 = negsuc (int64_bound - 1)

abbrev negate : ℕ → ℤ
negate zero = pos 0
negate (suc n) = negsuc n

-- int64(v)
unfoldable pub int64_of : ℤ → ℕ → ℤ
int64_of (pos m) e = let n = m / 10 ^ e in if ltb n int64_bound then pos n else min_int64
int64_of (negsuc m) e =
    let n = (m + 1) / 10 ^ e in if leb n int64_bound then negate n else min_int64

-- v == float64(i)
unfoldable pub equals_int : ℤ → ℕ → ℤ → Bool
equals_int (pos m) e (pos n) = m == n * 10 ^ e
equals_int (negsuc m) e (negsuc n) = m + 1 == (n + 1) * 10 ^ e
equals_int (pos m) e (negsuc n) = false
equals_int (negsuc m) e (pos n) = false
