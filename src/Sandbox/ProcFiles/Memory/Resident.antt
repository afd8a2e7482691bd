-- ===== src/Sandbox/ProcFiles/Memory/Resident.antt =====
-- What is read from a status file with a resident size.
use mathlib.Core.List.{append_assoc}
use st5039cmd.Base.{
  ℕ, ◌^◌, ◌<◌, ◌≡◌, refl, ap, ◌∙◌, Bool, true, false, List, [], ◌∷◌, ◌++◌, All, All-append, Option,
  none, some, length, lt→ltb, ◌==◌, arith,
}
use st5039cmd.Base.CString.{codes, c_string, same_bytes}
use st5039cmd.Base.Numbers.{scan_integer-padded, skip_space, is_space, IsDigits, decimal}
use st5039cmd.Base.Stdio.{text_of, newline_ended, FitsLine, file_lines-text_of}
use st5039cmd.Sandbox.ProcessTree.Sample.{read_success}
use st5039cmd.Sandbox.ProcFiles.{opened}
use st5039cmd.Sandbox.ProcFiles.Memory.{
  strip_label, to_ulong, leading_word, scan_kilobytes, scan_behind, scan_label, resident_label,
  resident, scan_lines, memory_result, read_process_memory,
}

strip_label-append : (label rest : List ℕ) → strip_label label (label ++ rest) ≡ some rest
unfolding strip_label
strip_label-append [] rest = refl
strip_label-append (c ∷ cs) rest = ground (arith, strip_label-append cs rest)

-- A line as the kernel writes it: the label, white space, digits, and the unit.
abbrev pub size_line : List ℕ → List ℕ → List ℕ → List ℕ
size_line label pad digits = label ++ (pad ++ (digits ++ codes " kB"))

scan_kilobytes-unit :
    (value : ℕ)
    → value < 2 ^ 64
    → scan_kilobytes (record {
      converted = true;
      negative = false;
      magnitude = value;
      rest = codes " kB" ++ 10 ∷ [];
    })
      ≡ some value
unfolding scan_kilobytes to_ulong leading_word skip_space same_bytes
scan_kilobytes-unit value h = rw (lt→ltb value (2 ^ 64) h)

append-behind :
    (label pad digits : List ℕ)
    → size_line label pad digits ++ 10 ∷ []
      ≡ label ++ (pad ++ (digits ++ 32 ∷ b'k' ∷ b'B' ∷ 10 ∷ []))
append-behind label pad digits = simp append_assoc

scan_label-size :
    (label pad : List ℕ) (d : ℕ) (ds : List ℕ)
    → All (λ c. is_space c ≡ true) pad
    → IsDigits (d ∷ ds)
    → decimal 0 (d ∷ ds) < 2 ^ 64
    → scan_label label (size_line label pad (d ∷ ds) ++ 10 ∷ []) ≡ some (decimal 0 (d ∷ ds))
unfolding scan_label scan_behind
scan_label-size label pad d ds hp h fits =
    ap (λ t. scan_behind (strip_label label t)) (append-behind label pad (d ∷ ds))
    ∙ ap scan_behind (strip_label-append label _)
    ∙ ap scan_kilobytes (scan_integer-padded pad d ds 32 (b'k' ∷ b'B' ∷ 10 ∷ []) hp h refl)
    ∙ scan_kilobytes-unit (decimal 0 (d ∷ ds)) fits

-- A byte that is no NUL and no newline.
abbrev pub IsText : ℕ → Type 0
IsText c = ((c == 0) ≡ false) × ((c == 10) ≡ false)

c_string-line : (t : List ℕ) → All IsText t → c_string (t ++ 10 ∷ []) ≡ t ++ 10 ∷ []
unfolding c_string
c_string-line [] h = refl
c_string-line (x ∷ xs) h = rw h.0.0 (ap (◌∷◌ x) (c_string-line xs h.1))

-- A line that fits the buffer.
abbrev pub IsStatusLine : List ℕ → Type 0
IsStatusLine t = (length t < 255) × All IsText t

-- A line in front of the one with the resident size.
abbrev pub IsOther : List ℕ → Type 0
IsOther t = IsStatusLine t × (scan_label resident_label (t ++ 10 ∷ []) ≡ none)

fitting : (ts : List (List ℕ)) → All IsStatusLine ts → All (FitsLine 255) ts
fitting [] h = tt
fitting (t ∷ ts) h = ((h.0.0, no_newline t h.0.1), fitting ts h.1)
  where
    no_newline : (t : List ℕ) → All IsText t → All (λ c. (c == 10) ≡ false) t
    no_newline [] h = tt
    no_newline (x ∷ xs) h = (h.0.1, no_newline xs h.1)

others : (ts : List (List ℕ)) → All IsOther ts → All IsStatusLine ts
others [] h = tt
others (t ∷ ts) h = (h.0.0, others ts h.1)

-- The loop stops at the first line with a resident size.
scan_lines-resident :
    (before : List (List ℕ)) (line : List ℕ) (after : List (List ℕ)) (n : ℕ) (v : Option ℕ)
    → All IsOther before
    → All IsText line
    → scan_label resident_label (line ++ 10 ∷ []) ≡ some n
    → scan_lines (newline_ended (before ++ line ∷ after)) v ≡ resident n
unfolding scan_lines newline_ended
scan_lines-resident [] line after n v h k e =
    let here = ap (scan_label resident_label) (c_string-line line k) ∙ e in rw (here, scan_lines)
scan_lines-resident (t ∷ ts) line after n v h k e =
    let other = ap (scan_label resident_label) (c_string-line t h.0.0.1) ∙ h.0.1 in
    rw (other, scan_lines) (scan_lines-resident ts line after n _ h.1 k e)

digit-IsText : (cs : List ℕ) → IsDigits cs → All IsText cs
digit-IsText [] h = tt
digit-IsText (c ∷ cs) h = (ground (arith, h.0), digit-IsText cs h.1)

-- White space inside a line.
abbrev pub IsBlank : ℕ → Type 0
IsBlank c = (is_space c ≡ true) × IsText c

blank-IsText : (cs : List ℕ) → All IsBlank cs → All IsText cs
blank-IsText [] h = tt
blank-IsText (c ∷ cs) h = (h.0.1, blank-IsText cs h.1)

blank-space : (cs : List ℕ) → All IsBlank cs → All (λ c. is_space c ≡ true) cs
blank-space [] h = tt
blank-space (c ∷ cs) h = (h.0.0, blank-space cs h.1)

-- A status file with a line `VmRSS:`, white space, digits and the unit gives the number that the
-- digits stand for, as a resident size, whatever follows the line.
pub read_process_memory-resident :
    (before : List (List ℕ)) (pad : List ℕ) (d : ℕ) (ds : List ℕ) (after : List (List ℕ))
    (gone : Bool)
    → All IsOther before
    → All IsStatusLine after
    → All IsBlank pad
    → IsDigits (d ∷ ds)
    → decimal 0 (d ∷ ds) < 2 ^ 64
    → length (size_line resident_label pad (d ∷ ds)) < 255
    → read_process_memory (
        opened
          (record {
            bytes = text_of (before ++ size_line resident_label pad (d ∷ ds) ∷ after);
            fails = false;
          })
          gone
          true)
      ≡ read_success (decimal 0 (d ∷ ds)) false
unfolding read_process_memory memory_result
read_process_memory-resident before pad d ds after gone hb ha hp h fits short =
    let line = size_line resident_label pad (d ∷ ds) in
    let text : All IsText line =
      All-append IsText resident_label (pad ++ ((d ∷ ds) ++ codes " kB"))
        (
          (refl, refl),
          ((refl, refl), ((refl, refl), ((refl, refl), ((refl, refl), ((refl, refl), tt))))),
        )
        (All-append IsText pad ((d ∷ ds) ++ codes " kB") (blank-IsText pad hp) (
          All-append IsText (d ∷ ds) (codes " kB") (digit-IsText (d ∷ ds) h)
            ((refl, refl), ((refl, refl), ((refl, refl), tt))))) in
    let lines = file_lines-text_of 255 (before ++ line ∷ after) (
      All-append (FitsLine 255) before (line ∷ after) (fitting before (others before hb))
        (fitting (line ∷ after) ((short, text), ha))) in
    let found =
      scan_lines-resident before line after (decimal 0 (d ∷ ds)) none hb text
        (scan_label-size resident_label pad d ds (blank-space pad hp) h fits) in
    ap (memory_result false true) (ap (λ ls. scan_lines ls none) lines ∙ found)
