-- ===== src/Sandbox/ProcFiles.antt =====
-- Sandbox/process_tree.c: what it reads from /proc: `read_process_stat`, `read_process_memory`,
-- `directory_name_to_pid`. A path of `build_proc_path` has at most 33 bytes and so always fits its 64;
-- that function is left out.
pub mod Stat
pub mod Memory
pub mod Listing
pub mod Tests
use st5039cmd.Base.{
  ℕ, ◌+◌, ◌-◌, ◌^◌, Bool, true, false, not, ◌&&◌, ◌||◌, List, [], ◌∷◌, Option, none, some, length,
  ltb, leb, ◌==◌, if◌then◌else◌,
}
use st5039cmd.Base.CString.{c_string}
use st5039cmd.Base.Numbers.{strtoul, strtol_below, is_digit}
use st5039cmd.Base.Stdio.{File, Line, file_lines}
use st5039cmd.Sandbox.ProcessTree.{Process}

-- INT_MAX.
abbrev pub int_max : ℕ
int_max = 2 ^ 31 - 1

-- `parse_pid_token` and `parse_unsigned_token`.
unfoldable pub parse_pid_token : List ℕ → Option ℕ
parse_pid_token token = strtol_below int_max token

unfoldable pub parse_unsigned_token : List ℕ → Option ℕ
parse_unsigned_token token = strtoul token

-- `strrchr(line, ')') + 1`: what stands behind the last parenthesis.
pub behind_last_paren : List ℕ → Option (List ℕ)
behind_last_paren [] = none
behind_last_paren (c ∷ cs) = elim (behind_last_paren cs) [
  | some rest ↦ some rest
  | none ↦ if c == b')' then some cs else none
]

-- The delimiters of `strtok_r`.
abbrev pub is_delimiter : ℕ → Bool
is_delimiter c = c == 32 || c == 9 || c == 13 || c == 10

pub begins_word : List ℕ → Bool
begins_word [] = false
begins_word (c ∷ cs) = not (is_delimiter c)

pub add_letter : ℕ → List (List ℕ) → List (List ℕ)
add_letter c [] = (c ∷ []) ∷ []
add_letter c (w ∷ ws) = (c ∷ w) ∷ ws

-- The tokens that `strtok_r` finds, in order.
pub tokens : List ℕ → List (List ℕ)
tokens [] = []
tokens (c ∷ cs) =
    let ws = tokens cs in
    if is_delimiter c then ws else if begins_word cs then add_letter c ws else (c ∷ []) ∷ ws

-- `*process` and the four flags `found_…`.
pub record StatFields : Type 0 where
  pub process : Process
  pub found_parent : Bool
  pub found_group : Bool
  pub found_user_ticks : Bool
  pub found_system_ticks : Bool

pub store_state : List ℕ → StatFields → Option StatFields
store_state [] f = none
store_state (c ∷ []) f = some (record f { process = record f.process { state = c } })
store_state (c ∷ d ∷ cs) f = none

pub store_parent : Option ℕ → StatFields → Option StatFields
store_parent none f = none
store_parent (some n) f =
    some (record f { process = record f.process { parent_pid = n }; found_parent = true })

pub store_group : Option ℕ → StatFields → Option StatFields
store_group none f = none
store_group (some n) f =
    some (record f { process = record f.process { process_group_id = n }; found_group = true })

pub store_user : Option ℕ → StatFields → Option StatFields
store_user none f = none
store_user (some n) f =
    some (record f { process = record f.process { user_ticks = n }; found_user_ticks = true })

pub store_system : Option ℕ → StatFields → Option StatFields
store_system none f = none
store_system (some n) f =
    some (record f { process = record f.process { system_ticks = n }; found_system_ticks = true })

-- The body of the loop for one field; fields of other numbers are skipped.
pub store_field : ℕ → List ℕ → StatFields → Option StatFields
store_field number token f =
    if number == 3
    then store_state token f
    else if number == 4
    then store_parent (parse_pid_token token) f
    else if number == 5
    then store_group (parse_pid_token token) f
    else if number == 14
    then store_user (parse_unsigned_token token) f
    else if number == 15
    then store_system (parse_unsigned_token token) f
    else some f

-- `while (token != NULL && field_number <= 15u)`.
pub store_fields : ℕ → List (List ℕ) → StatFields → Option StatFields
store_fields number [] f = some f
store_fields number (token ∷ rest) f = elim (leb number 15) [
  | false ↦ some f
  | true ↦ elim (store_field number token f) [
    | none ↦ none
    | some f' ↦ store_fields (number + 1) rest f'
  ]
]

pub no_fields : ℕ → StatFields
no_fields pid = record {
  process = record {
    pid = pid;
    parent_pid = 0;
    process_group_id = 0;
    state = 0;
    user_ticks = 0;
    system_ticks = 0;
  };
  found_parent = false;
  found_group = false;
  found_user_ticks = false;
  found_system_ticks = false;
}

pub check_found : Option StatFields → Option Process
check_found none = none
check_found (some f) =
    if f.found_parent && f.found_group && f.found_user_ticks && f.found_system_ticks
    then some f.process
    else none

-- `command_end[1] != ' '`, and the fields from `command_end + 2` on.
pub parse_command_end : ℕ → Option (List ℕ) → Option Process
parse_command_end pid none = none
parse_command_end pid (some []) = none
parse_command_end pid (some (c ∷ cs)) =
    if c == 32 then check_found (store_fields 3 (tokens cs) (no_fields pid)) else none

-- The line as a string.
unfoldable pub parse_stat : ℕ → List ℕ → Option Process
unfolding behind_last_paren begins_word add_letter tokens store_state store_parent store_group
    store_user store_system store_field store_fields no_fields check_found parse_command_end
    parse_pid_token parse_unsigned_token
parse_stat pid line = parse_command_end pid (behind_last_paren line)

-- `ProcReadResult` of `read_process_stat`, with the process.
pub data StatRead : Type 0 where
  stat_error stat_gone : StatRead
  stat_success : Process → StatRead

-- What `fopen` gives: an error, with whether it says that the process is gone, or a file, with
-- whether a failed read says so, and whether `fclose` succeeds.
pub data Opened : Type 0 where
  not_opened : (gone : Bool) → Opened
  opened : File → (gone closes : Bool) → Opened

pub stat_result : Option Process → StatRead
stat_result none = stat_error
stat_result (some p) = stat_success p

pub read_first_line : ℕ → (at_end gone closes : Bool) → List Line → StatRead
read_first_line pid at_end gone closes [] = if at_end || gone then stat_gone else stat_error
read_first_line pid at_end gone closes (l ∷ ls) =
    if closes then stat_result (parse_stat pid (c_string l.text)) else stat_error

unfoldable pub read_process_stat : ℕ → Opened → StatRead
unfolding stat_result read_first_line
read_process_stat pid (not_opened gone) = if gone then stat_gone else stat_error
read_process_stat pid (opened file gone closes) =
    read_first_line pid (not file.fails) gone closes (file_lines 4095 file)
