-- ===== src/Sandbox/Options/Limits.antt =====
-- The numbers that a limit accepts.
use st5039cmd.Base.{ℕ, ◌-◌, ◌^◌, ◌≤◌, ◌<◌, ◌≡◌, ◌↔◌, List, ◌∷◌, some, arith}
use st5039cmd.Base.Numbers.{strtoul, decimal, IsDigits, strtoul-digits, scan_integer-negative}
use st5039cmd.Sandbox.Options.{parse_unsigned_limit}

-- Whatever the text, a limit that is accepted lies between 1 and the maximum.
pub parse_unsigned_limit-bounds :
    (value : List ℕ) (maximum v : ℕ)
    → parse_unsigned_limit value maximum ≡ some v
    → (1 ≤ v) × (v ≤ maximum)
unfolding parse_unsigned_limit
parse_unsigned_limit-bounds value maximum v h = ground arith

-- A text of decimal digits is accepted exactly when its value lies between 1 and the maximum, and then
-- stands for that value; leading zeros make no difference.
pub parse_unsigned_limit-digits :
    (c : ℕ) (cs : List ℕ) (maximum v : ℕ)
    → maximum < 2 ^ 64
    → IsDigits (c ∷ cs)
    → (parse_unsigned_limit (c ∷ cs) maximum ≡ some v)
      ↔ ((decimal 0 (c ∷ cs) ≡ v) × (1 ≤ v) × (v ≤ maximum))
unfolding parse_unsigned_limit
parse_unsigned_limit-digits c cs maximum v fits h = rw (strtoul-digits c cs h) (ground arith)

-- A minus sign does not make the text invalid: if 2^64 less its digits' value is a limit in range,
-- that limit is set.
pub parse_unsigned_limit-negative :
    (c : ℕ) (cs : List ℕ) (maximum v : ℕ)
    → maximum < 2 ^ 64
    → IsDigits (c ∷ cs)
    → 1 ≤ v
    → v ≤ maximum
    → decimal 0 (c ∷ cs) ≡ 2 ^ 64 - v
    → parse_unsigned_limit (b'-' ∷ c ∷ cs) maximum ≡ some v
unfolding parse_unsigned_limit strtoul
parse_unsigned_limit-negative c cs maximum v fits h low high e =
    rw (scan_integer-negative c cs h) (ground arith)
