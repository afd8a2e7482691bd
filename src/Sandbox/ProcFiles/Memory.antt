-- ===== src/Sandbox/ProcFiles/Memory.antt =====
-- Sandbox/process_tree.c: `read_process_memory`, with the `sscanf` of a line of /proc/PID/status.
pub mod Resident
use st5039cmd.Base.{
  ℕ, zero, suc, ◌-◌, ◌%◌, ◌^◌, Bool, true, false, not, ◌&&◌, ◌||◌, List, [], ◌∷◌, Option, none,
  some, ltb, ◌==◌, if◌then◌else◌,
}
use st5039cmd.Base.CString.{codes, c_string, same_bytes}
use st5039cmd.Base.Numbers.{Scan, scan_integer, skip_space, is_space}
use st5039cmd.Base.Stdio.{File, Line, file_lines}
use st5039cmd.Sandbox.ProcessTree.Sample.{
  MemoryRead, read_error, process_gone, read_success, ulong_max,
}
use st5039cmd.Sandbox.ProcFiles.{Opened, not_opened, opened}

-- The literal part of the format.
unfoldable pub strip_label : List ℕ → List ℕ → Option (List ℕ)
strip_label [] text = some text
strip_label (c ∷ cs) [] = none
strip_label (c ∷ cs) (d ∷ text) = let rest = strip_label cs text in if c == d then rest else none

-- `%lu`: a negative number modulo 2^64, and the largest value for one that is too large.
unfoldable pub to_ulong : Scan → ℕ
to_ulong s =
    if ltb s.magnitude (2 ^ 64)
    then if s.negative then (2 ^ 64 - s.magnitude) % 2 ^ 64 else s.magnitude
    else ulong_max

-- `%7s`.
pub leading_word : ℕ → List ℕ → List ℕ
leading_word zero text = []
leading_word (suc n) [] = []
leading_word (suc n) (c ∷ cs) = let rest = leading_word n cs in if is_space c then [] else c ∷ rest

pub scan_kilobytes : Scan → Option ℕ
scan_kilobytes s =
    if s.converted && same_bytes (leading_word 7 (skip_space s.rest)) (codes "kB")
    then some (to_ulong s)
    else none

-- `sscanf(line, "LABEL %lu %7s", &value, unit) == 2 && strcmp(unit, "kB") == 0`.
pub scan_behind : Option (List ℕ) → Option ℕ
scan_behind none = none
scan_behind (some rest) = scan_kilobytes (scan_integer rest)

pub scan_label : List ℕ → List ℕ → Option ℕ
scan_label label line = scan_behind (strip_label label line)

abbrev pub resident_label : List ℕ
resident_label = codes "VmRSS:"

abbrev pub virtual_label : List ℕ
virtual_label = codes "VmSize:"

-- How the loop ends: with a resident size, or with the last virtual size.
pub data MemoryScan : Type 0 where
  resident : ℕ → MemoryScan
  ended : Option ℕ → MemoryScan

pub or_else : Option ℕ → Option ℕ → Option ℕ
or_else none before = before
or_else (some n) before = some n

pub scan_lines : List Line → Option ℕ → MemoryScan
scan_lines [] virtual_size = ended virtual_size
scan_lines (l ∷ ls) virtual_size = elim (scan_label resident_label (c_string l.text)) [
  | some kilobytes ↦ resident kilobytes
  | none ↦ scan_lines ls (or_else (scan_label virtual_label (c_string l.text)) virtual_size)
]

pub memory_result : (failed closes : Bool) → MemoryScan → MemoryRead
memory_result failed closes (resident n) = if closes then read_success n false else read_error
memory_result failed closes (ended (some n)) =
    if failed || not closes then read_error else read_success n true
memory_result failed closes (ended none) =
    if failed || not closes then read_error else read_success 0 false

unfoldable pub read_process_memory : Opened → MemoryRead
unfolding strip_label to_ulong leading_word scan_kilobytes scan_behind scan_label or_else scan_lines
    memory_result skip_space
read_process_memory (not_opened gone) = if gone then process_gone else read_error
read_process_memory (opened file gone closes) =
    memory_result file.fails closes (scan_lines (file_lines 255 file) none)
