-- ===== src/Sandbox/ProcFiles/Tests.antt =====
-- Files of /proc with small contents: a command that looks like fields, a status file with a resident
-- size, a directory with one process that is gone.
use st5039cmd.Base.{
  ℕ, ◌≡◌, refl, Bool, true, false, not, ◌&&◌, length, List, [], ◌∷◌, ◌++◌, some, All, arith, ltb,
  ◌==◌, if◌then◌else◌,
}
use st5039cmd.Base.Numbers.{decimal, strtol_below, scan_integer, read_digits, strtoul}
use st5039cmd.Base.CString.{codes}
use st5039cmd.Base.Stdio.{text_of}
use st5039cmd.Sandbox.ProcessTree.Sample.{read_success}
use st5039cmd.Sandbox.ProcFiles.{
  StatRead, stat_gone, stat_success, opened, parse_stat, parse_pid_token, parse_unsigned_token,
  is_delimiter,
}
use st5039cmd.Sandbox.ProcFiles.Stat.{
  StatNumbers, process_of, IsField, IsFieldByte, stat_line, parse_stat_lem,
}
use st5039cmd.Sandbox.ProcFiles.Memory.{resident_label, read_process_memory}
use st5039cmd.Sandbox.ProcFiles.Memory.Resident.{IsText, size_line, read_process_memory-resident}
use st5039cmd.Sandbox.ProcFiles.Listing.{collect_all_processes, directory_name_to_pid}
use st5039cmd.Sandbox.ProcFiles.Listing.Collected.{listed, IsRead, collect_all_processes_lem}

-- `7 (a) S 1 9` names a process `a) S 1 9`.
abbrev misleading : List ℕ
misleading = codes "7 (a) S 1 9"

abbrev numbers : StatNumbers
numbers = record { state = b'R'; parent = 12; group = 34; user = 5; system = 6 }

abbrev eight_fields : List (List ℕ)
eight_fields =
    codes "1"
    ∷ codes "0"
    ∷ codes "-1"
    ∷ codes "4"
    ∷ codes "0"
    ∷ codes "0"
    ∷ codes "0"
    ∷ codes "0"
    ∷ []

-- Tests of the predicates on fields.
unfoldable are_field_bytes : List ℕ → Bool
are_field_bytes [] = true
are_field_bytes (c ∷ cs) = not (is_delimiter c) && not (c == b')') && are_field_bytes cs

field_bytes : (w : List ℕ) → are_field_bytes w ≡ true → All IsFieldByte w
unfolding are_field_bytes
field_bytes [] e = tt
field_bytes (c ∷ cs) e =
    ((ground (arith, e), ground (arith, e)), field_bytes cs (ground (arith, e)))

unfoldable are_fields : List (List ℕ) → Bool
unfolding are_field_bytes
are_fields [] = true
are_fields (w ∷ ws) = ltb 0 (length w) && are_field_bytes w && are_fields ws

fields : (ws : List (List ℕ)) → are_fields ws ≡ true → All IsField ws
unfolding are_fields
fields [] e = tt
fields (w ∷ ws) e =
    ((ground (arith, e), field_bytes w (ground (arith, e))), fields ws (ground (arith, e)))

-- All fields of the line.
abbrev all_fields : List (List ℕ)
all_fields =
    (b'R' ∷ []) ∷ codes "12" ∷ codes "34" ∷ (eight_fields ++ codes "5" ∷ codes "6" ∷ codes "0" ∷ [])

clean : All IsField all_fields
unfolding are_fields
clean = fields all_fields refl

parse_stat_lem_example :
    parse_stat 7 (
      stat_line misleading b'R'
        (codes "12")
        (codes "34")
        eight_fields
        (codes "5")
        (codes "6")
        (codes "0" ∷ []))
    ≡ some (process_of 7 numbers)
unfolding parse_stat parse_pid_token parse_unsigned_token strtol_below scan_integer read_digits
    strtoul
parse_stat_lem_example =
    parse_stat_lem 7 misleading numbers (codes "12") (codes "34") eight_fields (codes "5")
      (codes "6") (codes "0" ∷ []) clean refl refl refl refl refl

abbrev name_line : List ℕ
name_line = codes "Name:"

name_IsText : All IsText name_line
name_IsText = ((refl, refl), ((refl, refl), ((refl, refl), ((refl, refl), ((refl, refl), tt)))))

memory_resident :
    read_process_memory (
      opened
        (record {
          bytes =
              text_of (name_line ∷ size_line resident_label (9 ∷ []) (codes "52") ∷ name_line ∷ []);
          fails = false;
        })
        false
        true)
    ≡ read_success 52 false
unfolding decimal read_process_memory
memory_resident =
    read_process_memory-resident (name_line ∷ []) (9 ∷ []) b'5' (codes "2") (name_line ∷ []) false
      (((omega arith, name_IsText), refl), tt) ((omega arith, name_IsText), tt)
      ((refl, (refl, refl)), tt) (refl, (refl, tt)) (omega arith) (omega arith)

-- The process 2 is gone when it is read.
read_small : ℕ → StatRead
read_small pid = if pid == 2 then stat_gone else stat_success (process_of pid numbers)

collects :
    collect_all_processes 40
      (λ n. true)
      read_small
      (some (codes "1" ∷ codes "self" ∷ codes "2" ∷ codes "3" ∷ []))
      false
      true
    ≡ some (process_of 1 numbers ∷ process_of 3 numbers ∷ [])
unfolding collect_all_processes read_small directory_name_to_pid strtol_below scan_integer
    read_digits
collects = refl

collect_all_processes_lem_example :
    (false ≡ false)
    × (process_of 1 numbers ∷ process_of 3 numbers ∷ []
        ≡ listed 40 (λ n. true) read_small (codes "1" ∷ codes "self" ∷ codes "2" ∷ codes "3" ∷ []))
    × All
        (λ name. IsRead 40 (λ n. true) read_small (directory_name_to_pid name))
        (codes "1" ∷ codes "self" ∷ codes "2" ∷ codes "3" ∷ [])
collect_all_processes_lem_example =
    collect_all_processes_lem 40 (λ n. true) read_small
      (codes "1" ∷ codes "self" ∷ codes "2" ∷ codes "3" ∷ []) false true
      (process_of 1 numbers ∷ process_of 3 numbers ∷ []) collects
