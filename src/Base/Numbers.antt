-- ===== src/Base/Numbers.antt =====
-- `strtol`, `strtoul` and `strtoull` in base 10, on the bytes in front of the NUL: white space, a
-- sign, digits. `long` and `long long` have 64 bits.
use st5039cmd.Base.Tests.{◌==◌, ltb, leb, if◌then◌else◌, &&_iff}
use Prim.Native.Nat.{ℕ, ◌+◌, ◌-◌, ◌*◌, ◌%◌, ◌^◌, ◌≤◌}
use mathlib.Core.Path.{◌≡◌, refl}
use mathlib.Core.Bool.{Bool, true, false, not, ◌&&◌, ◌||◌}
use mathlib.Core.List.{List, [], ◌∷◌, ◌++◌}
use mathlib.Core.Option.{Option, none, some}
use native.Mathlib.Omega.{arith}
use st5039cmd.Base.Lists.{All}

abbrev pub is_space : ℕ → Bool
is_space c = c == 32 || (leb 9 c && leb c 13)

abbrev pub is_digit : ℕ → Bool
is_digit c = leb 48 c && leb c 57

unfoldable pub skip_space : List ℕ → List ℕ
skip_space [] = []
skip_space (c ∷ cs) = if is_space c then skip_space cs else c ∷ cs

-- The value of the digits in front, from `acc` on, and what follows them.
unfoldable pub read_digits : ℕ → List ℕ → ℕ × List ℕ
read_digits acc [] = (acc, [])
read_digits acc (c ∷ cs) = elim (is_digit c) [
  | true ↦ read_digits (acc * 10 + (c - 48)) cs
  | false ↦ (acc, c ∷ cs)
]

-- A sign in front, and the bytes behind it.
pub read_sign : List ℕ → Bool × List ℕ
read_sign [] = (false, [])
read_sign (c ∷ cs) =
    if c == b'-' then (true, cs) else if c == b'+' then (false, cs) else (false, c ∷ cs)

abbrev pub starts_with_digit : List ℕ → Bool
starts_with_digit [] = false
starts_with_digit (c ∷ cs) = is_digit c

-- `converted` says that `end` has moved, `rest` is the text from `end` on.
pub record Scan : Type 0 where
  pub converted : Bool
  pub negative : Bool
  pub magnitude : ℕ
  pub rest : List ℕ

unfoldable pub scan_integer : List ℕ → Scan
unfolding skip_space read_sign
scan_integer text =
    let (negative, unsigned) = read_sign (skip_space text) in
    let (magnitude, rest) = read_digits 0 unsigned in
    if starts_with_digit unsigned
    then record { converted = true; negative = negative; magnitude = magnitude; rest = rest }
    else record { converted = false; negative = false; magnitude = 0; rest = text }

abbrev pub is_empty : List ℕ → Bool
is_empty [] = true
is_empty (c ∷ cs) = false

-- `errno = 0; v = strtoul(text, &end, 10)` with `errno == 0 && end != text && *end == '\0'`: the
-- value, a negative one modulo 2^64. A larger magnitude sets `errno`.
unfoldable pub strtoul : List ℕ → Option ℕ
strtoul text =
    let s = scan_integer text in
    if s.converted && is_empty s.rest && ltb s.magnitude (2 ^ 64)
    then some (if s.negative then (2 ^ 64 - s.magnitude) % 2 ^ 64 else s.magnitude)
    else none

-- The same with `strtol` and `0 <= v && v <= bound`, for a bound in the range of `long`.
unfoldable pub strtol_below : ℕ → List ℕ → Option ℕ
strtol_below bound text =
    let s = scan_integer text in
    if s.converted
      && is_empty s.rest
      && leb s.magnitude bound
      && (not s.negative || s.magnitude == 0)
    then some s.magnitude
    else none

-- Texts of digits.
abbrev pub IsDigits : List ℕ → Type 0
IsDigits = All (λ c. is_digit c ≡ true)

unfoldable pub decimal : ℕ → List ℕ → ℕ
decimal acc [] = acc
decimal acc (c ∷ cs) = decimal (acc * 10 + (c - 48)) cs

read_digits_all : (acc : ℕ) (cs : List ℕ) → IsDigits cs → read_digits acc cs ≡ (decimal acc cs, [])
unfolding read_digits decimal
read_digits_all acc [] h = refl
read_digits_all acc (c ∷ cs) h =
    rw (h.0, read_digits) (read_digits_all (acc * 10 + (c - 48)) cs h.1)

no_prefix :
    (c : ℕ) (cs : List ℕ) → is_digit c ≡ true → read_sign (skip_space (c ∷ cs)) ≡ (false, c ∷ cs)
unfolding skip_space read_sign
no_prefix c cs h = ground arith

-- A text of digits alone is read whole, with no sign.
pub scan_integer-digits :
    (c : ℕ) (cs : List ℕ)
    → IsDigits (c ∷ cs)
    → scan_integer (c ∷ cs)
      ≡ record { converted = true; negative = false; magnitude = decimal 0 (c ∷ cs); rest = [] }
unfolding scan_integer
scan_integer-digits c cs h = rw (no_prefix c cs h.0, read_digits_all 0 (c ∷ cs) h, h.0)

pub strtoul-digits :
    (c : ℕ) (cs : List ℕ)
    → IsDigits (c ∷ cs)
    → strtoul (c ∷ cs)
      ≡ (if ltb (decimal 0 (c ∷ cs)) (2 ^ 64) then some (decimal 0 (c ∷ cs)) else none)
unfolding strtoul
strtoul-digits c cs h = rw (scan_integer-digits c cs h) (ground arith)

pub strtol_below-digits :
    (bound c : ℕ) (cs : List ℕ)
    → IsDigits (c ∷ cs)
    → strtol_below bound (c ∷ cs)
      ≡ (if leb (decimal 0 (c ∷ cs)) bound then some (decimal 0 (c ∷ cs)) else none)
unfolding strtol_below
strtol_below-digits bound c cs h = rw (scan_integer-digits c cs h) (ground arith)

pub strtol_below-le : (bound v : ℕ) (text : List ℕ) → strtol_below bound text ≡ some v → v ≤ bound
unfolding strtol_below
strtol_below-le bound v text h = ground arith

-- The same behind a minus sign.
pub scan_integer-negative :
    (c : ℕ) (cs : List ℕ)
    → IsDigits (c ∷ cs)
    → scan_integer (b'-' ∷ c ∷ cs)
      ≡ record { converted = true; negative = true; magnitude = decimal 0 (c ∷ cs); rest = [] }
unfolding scan_integer
scan_integer-negative c cs h = rw (read_digits_all 0 (c ∷ cs) h, h.0)

-- A check of a text, for concrete ones.
abbrev pub all_digits : List ℕ → Bool
all_digits [] = true
all_digits (c ∷ cs) = is_digit c && all_digits cs

pub all_digits→IsDigits : (cs : List ℕ) → all_digits cs ≡ true → IsDigits cs
all_digits→IsDigits [] h = tt
all_digits→IsDigits (c ∷ cs) h =
    let (d, ds) = (&&_iff (is_digit c) (all_digits cs)).0 h in (d, all_digits→IsDigits cs ds)

read_digits_until :
    (acc : ℕ) (cs : List ℕ) (c : ℕ) (rest : List ℕ)
    → IsDigits cs
    → is_digit c ≡ false
    → read_digits acc (cs ++ c ∷ rest) ≡ (decimal acc cs, c ∷ rest)
unfolding read_digits decimal
read_digits_until acc [] c rest h e = rw (e, read_digits)
read_digits_until acc (d ∷ cs) c rest h e =
    rw (h.0, read_digits) (read_digits_until (acc * 10 + (d - 48)) cs c rest h.1 e)

pub skip_space-append :
    (pad rest : List ℕ)
    → All (λ c. is_space c ≡ true) pad
    → skip_space (pad ++ rest) ≡ skip_space rest
unfolding skip_space
skip_space-append [] rest h = refl
skip_space-append (c ∷ cs) rest h = rw h.0 (skip_space-append cs rest h.1)

-- Digits behind white space, up to a byte that is none.
pub scan_integer-padded :
    (pad : List ℕ) (d : ℕ) (ds : List ℕ) (c : ℕ) (rest : List ℕ)
    → All (λ c. is_space c ≡ true) pad
    → IsDigits (d ∷ ds)
    → is_digit c ≡ false
    → scan_integer (pad ++ ((d ∷ ds) ++ c ∷ rest)) ≡ record {
      converted = true;
      negative = false;
      magnitude = decimal 0 (d ∷ ds);
      rest = c ∷ rest;
    }
unfolding scan_integer
scan_integer-padded pad d ds c rest hp h e = rw (
  skip_space-append pad ((d ∷ ds) ++ c ∷ rest) hp,
  no_prefix d (ds ++ c ∷ rest) h.0,
  read_digits_until 0 (d ∷ ds) c rest h e,
  h.0,
)
