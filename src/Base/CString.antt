-- ===== src/Base/CString.antt =====
-- C strings as lists of bytes, and the functions of <string.h> that the sources call on them.
use Prim.Native.Nat.{ℕ, zero, suc, ◌+◌, ◌-◌, ◌≤◌, ◌<◌}
use mathlib.Core.Logic.{◌≢◌, ◌↔◌}
use mathlib.Core.Bool.{Bool, true, false, ◌&&◌}
use Prim.Native.Char.{code}
use Prim.Native.String.{String}
use mathlib.Core.Path.{◌≡◌, refl}
use mathlib.Core.List.{List, [], ◌∷◌, ◌++◌}
use mathlib.Core.Option.{Option, none, some}
use mathlib.Core.Option
use native.Mathlib.Omega.{arith}
use st5039cmd.Base.Tests.{◌==◌, ltb, if◌then◌else◌}
use st5039cmd.Base.Lists.{
  All, length, take, replicate, length-append, length-take, length-replicate,
}

-- The bytes of a literal; every literal of the sources is ASCII.
abbrev pub codes : String → List ℕ
codes String.[] = []
codes (String.◌∷◌ c s) = code c ∷ codes s

-- The bytes before the first NUL.
unfoldable pub c_string : List ℕ → List ℕ
c_string [] = []
c_string (x ∷ xs) = if x == 0 then [] else x ∷ c_string xs

-- `strlen`.
abbrev pub strlen : List ℕ → ℕ
strlen xs = length (c_string xs)

-- `memchr`: the index of the first `b` among the first `n` bytes.
unfoldable pub memchr : ℕ → ℕ → List ℕ → Option ℕ
memchr b zero xs = none
memchr b (suc n) [] = none
memchr b (suc n) (x ∷ xs) = if x == b then some 0 else Option.map suc (memchr b n xs)

pub memchr-c_string :
    (n : ℕ) (xs : List ℕ)
    → n ≤ length xs
    → memchr 0 n xs ≡ (if ltb (strlen xs) n then some (strlen xs) else none)
unfolding memchr c_string
memchr-c_string zero xs h = ground arith
memchr-c_string (suc n) [] h = absurd (omega arith)
memchr-c_string (suc n) (x ∷ xs) h = ground (arith, memchr-c_string n xs)

pub take-strlen : (xs : List ℕ) → take (strlen xs) xs ≡ c_string xs
unfolding c_string
take-strlen [] = refl
take-strlen (x ∷ xs) = ground (arith, take-strlen xs)

pub strlen-le : (xs : List ℕ) → strlen xs ≤ length xs
unfolding c_string
strlen-le [] = omega arith
strlen-le (x ∷ xs) = ground (arith, strlen-le xs)

-- `snprintf(buffer, size, "%s", text)` into a zeroed buffer of `suc room` bytes.
unfoldable pub print_zeroed : ℕ → List ℕ → List ℕ
print_zeroed room text = let kept = take room text in kept ++ replicate (suc room - length kept) 0

pub length-print_zeroed : (room : ℕ) (text : List ℕ) → length (print_zeroed room text) ≡ room + 1
unfolding print_zeroed
length-print_zeroed room text = omega (
  arith,
  length-append (take room text) (replicate (suc room - length (take room text)) 0),
  length-take room text,
  length-replicate {A = ℕ} (suc room - length (take room text)) 0,
)

memchr-found : (xs ys : List ℕ) (n : ℕ) → length xs < n → memchr 0 n (xs ++ 0 ∷ ys) ≢ none
unfolding memchr
memchr-found [] ys zero h = absurd (omega arith)
memchr-found [] ys (suc n) h = ground arith
memchr-found (x ∷ xs) ys zero h = absurd (omega arith)
memchr-found (x ∷ xs) ys (suc n) h = ground (arith, memchr-found xs ys n)

pub memchr-print_zeroed :
    (room : ℕ) (text : List ℕ) → memchr 0 (room + 1) (print_zeroed room text) ≢ none
unfolding print_zeroed
memchr-print_zeroed room text =
    let kept = take room text in
    let e : suc room - length kept ≡ suc (room - length kept) =
      omega (arith, length-take room text) in
    rw e (
      memchr-found kept (replicate (room - length kept) 0) (room + 1)
        (omega (arith, length-take room text)))

-- `strcmp(a, b) == 0` on the bytes in front of the NULs.
unfoldable pub same_bytes : List ℕ → List ℕ → Bool
same_bytes [] [] = true
same_bytes [] (y ∷ ys) = false
same_bytes (x ∷ xs) [] = false
same_bytes (x ∷ xs) (y ∷ ys) = x == y && same_bytes xs ys

pub same_bytes_iff : (xs ys : List ℕ) → (same_bytes xs ys ≡ true) ↔ (xs ≡ ys)
unfolding same_bytes
same_bytes_iff [] [] = (λ _. refl, λ _. refl)
same_bytes_iff [] (y ∷ ys) = (λ e. cc, λ e. cc)
same_bytes_iff (x ∷ xs) [] = (λ e. cc, λ e. cc)
same_bytes_iff (x ∷ xs) (y ∷ ys) = ground (arith, same_bytes_iff xs ys)

-- `strrchr(path, '/')` and the bytes in front of it.
unfoldable pub before_last_slash : List ℕ → Option (List ℕ)
before_last_slash [] = none
before_last_slash (c ∷ cs) = elim (before_last_slash cs) [
  | some front ↦ some (c ∷ front)
  | none ↦ if c == b'/' then some [] else none
]

-- A name in a directory.
abbrev pub IsName : List ℕ → Type 0
IsName = All (λ c. (c == b'/') ≡ false)

before_last_slash-name : (name : List ℕ) → IsName name → before_last_slash name ≡ none
unfolding before_last_slash
before_last_slash-name [] h = refl
before_last_slash-name (c ∷ cs) h = rw (before_last_slash-name cs h.1, h.0)

pub before_last_slash-append :
    (front name : List ℕ) → IsName name → before_last_slash (front ++ b'/' ∷ name) ≡ some front
unfolding before_last_slash
before_last_slash-append [] name h = rw (before_last_slash-name name h)
before_last_slash-append (c ∷ cs) name h = rw (before_last_slash-append cs name h)
