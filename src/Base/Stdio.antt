-- ===== src/Base/Stdio.antt =====
-- `fgets` in a loop, on the bytes of a file. A file that cannot be read to its end fails where its
-- bytes are used up: `fgets` then returns NULL, and what it had read of the last line is lost.
use Prim.Native.Nat.{ℕ, zero, suc, ◌≤◌, ◌<◌}
use mathlib.Core.Path.{◌≡◌, refl, ap, ◌∙◌}
use mathlib.Core.Logic.{inl, inr}
use mathlib.Core.Bool.{Bool, true, false, ◌&&◌, ◌||◌}
use mathlib.Core.List.{List, [], ◌∷◌, ◌++◌}
use mathlib.Core.Option.{Option, none, some}
use native.Mathlib.Omega.{arith}
use st5039cmd.Base.Tests.{◌==◌, if◌then◌else◌, Bool-cases}
use st5039cmd.Base.Lists.{length, All, length-append}

pub record File : Type 0 where
  pub bytes : List ℕ
  pub fails : Bool

-- What one `fgets` puts in front of its NUL, and whether it met the end of the file.
pub record Line : Type 0 where
  pub text : List ℕ
  pub at_end : Bool

-- One line of at most `room` bytes, and what is left.
unfoldable pub read_line : ℕ → List ℕ → Line × List ℕ
read_line zero xs = (record { text = []; at_end = false }, xs)
read_line (suc room) [] = (record { text = []; at_end = true }, [])
read_line (suc room) (x ∷ xs) =
    let (more, rest) = read_line room xs in
    if x == 10
    then (record { text = x ∷ []; at_end = false }, xs)
    else (record { text = x ∷ more.text; at_end = more.at_end }, rest)

pub lines_from : ℕ → ℕ → List ℕ → List Line
lines_from zero room xs = []
lines_from (suc fuel) room [] = []
lines_from (suc fuel) room (x ∷ xs) =
    let (line, rest) = read_line room (x ∷ xs) in line ∷ lines_from fuel room rest

-- The lines that ended before the end of the file.
pub whole_lines : List Line → List Line
whole_lines [] = []
whole_lines (l ∷ ls) = if l.at_end then whole_lines ls else l ∷ whole_lines ls

-- `while (fgets(line, room + 1, file) != NULL)`; every line takes a byte at least.
unfoldable pub file_lines : ℕ → File → List Line
unfolding read_line lines_from whole_lines
file_lines room file =
    let ls = lines_from (length file.bytes) room file.bytes in
    if file.fails then whole_lines ls else ls

-- One `fgets` into a buffer of `room + 1` bytes: what it puts there, and what is left. `none` is NULL.
unfoldable pub fgets : ℕ → File → Option (List ℕ) × File
fgets room file =
    let (line, rest) = read_line room file.bytes in
    (
      if length line.text == 0 || line.at_end && file.fails then none else some line.text,
      record file { bytes = rest },
    )

-- The bytes of the lines, put together again.
pub joined : List Line → List ℕ
joined [] = []
joined (l ∷ ls) = l.text ++ joined ls

pub read_line-parts :
    (room : ℕ) (xs : List ℕ) → (read_line room xs).0.text ++ (read_line room xs).1 ≡ xs
unfolding read_line
read_line-parts zero xs = refl
read_line-parts (suc room) [] = refl
read_line-parts (suc room) (x ∷ xs) = elim (Bool-cases (x == 10)) [
  | inl over ↦ ground (arith, over)
  | inr on ↦ ground (arith, on, read_line-parts room xs)
]

read_line-takes : (room x : ℕ) (xs : List ℕ) → 0 < length (read_line (suc room) (x ∷ xs)).0.text
unfolding read_line
read_line-takes room x xs = elim (Bool-cases (x == 10)) [
  | inl over ↦ ground (arith, over)
  | inr on ↦ ground (arith, on)
]

lines_from-joined :
    (fuel room : ℕ) (xs : List ℕ) → length xs ≤ fuel → joined (lines_from fuel (suc room) xs) ≡ xs
unfolding joined lines_from
lines_from-joined zero room [] h = refl
lines_from-joined zero room (x ∷ xs) h = absurd (omega arith)
lines_from-joined (suc fuel) room [] h = refl
lines_from-joined (suc fuel) room (x ∷ xs) h =
    let (line, rest) = read_line (suc room) (x ∷ xs) in
    let parts = read_line-parts (suc room) (x ∷ xs) in
    ap (λ r. line.text ++ r)
      (lines_from-joined fuel room rest
        (omega (arith, ap length parts, length-append line.text rest, read_line-takes room x xs)))
    ∙ parts

-- A text file of given lines, each with its newline.
unfoldable pub text_of : List (List ℕ) → List ℕ
text_of [] = []
text_of (t ∷ ts) = t ++ 10 ∷ text_of ts

unfoldable pub newline_ended : List (List ℕ) → List Line
newline_ended [] = []
newline_ended (t ∷ ts) = record { text = t ++ 10 ∷ []; at_end = false } ∷ newline_ended ts

-- A line that fits a buffer of `room` bytes in front of the NUL.
abbrev pub FitsLine : ℕ → List ℕ → Type 0
FitsLine room t = (length t < room) × All (λ c. (c == 10) ≡ false) t

pub read_line-text :
    (room : ℕ) (t rest : List ℕ)
    → FitsLine room t
    → read_line room (t ++ 10 ∷ rest) ≡ (record { text = t ++ 10 ∷ []; at_end = false }, rest)
unfolding read_line
read_line-text zero t rest h = absurd (omega (arith, h.0))
read_line-text (suc room) [] rest h = refl
read_line-text (suc room) (x ∷ xs) rest h =
    rw (h.1.0, read_line-text room xs rest (omega (arith, h.0), h.1.1))

read_line-from :
    (fuel room : ℕ) (t rest : List ℕ)
    → FitsLine room t
    → lines_from (suc fuel) room (t ++ 10 ∷ rest)
      ≡ record { text = t ++ 10 ∷ []; at_end = false } ∷ lines_from fuel room rest
unfolding lines_from
read_line-from fuel room [] rest h = rw (read_line-text room [] rest h)
read_line-from fuel room (x ∷ xs) rest h = rw (read_line-text room (x ∷ xs) rest h)

lines_from-text_of :
    (fuel room : ℕ) (ts : List (List ℕ))
    → All (FitsLine room) ts
    → length (text_of ts) ≤ fuel
    → lines_from fuel room (text_of ts) ≡ newline_ended ts
unfolding text_of newline_ended
lines_from-text_of zero room [] h enough = unfold lines_from in refl
lines_from-text_of (suc fuel) room [] h enough = unfold lines_from in refl
lines_from-text_of zero room (t ∷ ts) h enough =
    absurd (omega (arith, length-append t (10 ∷ text_of ts)))
lines_from-text_of (suc fuel) room (t ∷ ts) h enough =
    read_line-from fuel room t (text_of ts) h.0
    ∙ ap (λ r. record { text = t ++ 10 ∷ []; at_end = false } ∷ r)
        (lines_from-text_of fuel room ts h.1 (omega (arith, length-append t (10 ∷ text_of ts))))

-- The lines of a text file whose lines fit the buffer.
pub file_lines-text_of :
    (room : ℕ) (ts : List (List ℕ))
    → All (FitsLine room) ts
    → file_lines room (record { bytes = text_of ts; fails = false }) ≡ newline_ended ts
unfolding file_lines
file_lines-text_of room ts h = lines_from-text_of (length (text_of ts)) room ts h (omega arith)
