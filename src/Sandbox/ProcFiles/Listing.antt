-- ===== src/Sandbox/ProcFiles/Listing.antt =====
-- Sandbox/process_tree.c: `directory_name_to_pid`, `append_process` and `collect_all_processes`. The
-- array is its filled part and its capacity; a write goes behind the filled part.
pub mod Collected
use st5039cmd.Base.{
  ℕ, ◌+◌, ◌-◌, ◌*◌, ◌/◌, ◌%◌, ◌^◌, Bool, true, false, not, ◌&&◌, ◌||◌, List, [], ◌∷◌, ◌++◌, Option,
  none, some, length, ltb, ◌==◌, if◌then◌else◌,
}
use st5039cmd.Base.Numbers.{is_digit, all_digits, strtol_below}
use st5039cmd.Sandbox.ProcessTree.{Process}
use st5039cmd.Sandbox.ProcFiles.{parse_pid_token, StatRead, stat_error, stat_gone, stat_success}

-- SIZE_MAX.
abbrev pub size_max : ℕ
size_max = 2 ^ 64 - 1

unfoldable pub directory_name_to_pid : List ℕ → Option ℕ
unfolding parse_pid_token
directory_name_to_pid [] = none
directory_name_to_pid (c ∷ cs) = if all_digits (c ∷ cs) then parse_pid_token (c ∷ cs) else none

pub record Table : Type 0 where
  pub processes : List Process
  pub capacity : ℕ

abbrev pub empty_table : Table
empty_table = record { processes = []; capacity = 0 }

-- A process written to the first free slot.
pub put : Process → Table → Table
put p t = record t { processes = t.processes ++ p ∷ [] }

pub doubled : ℕ → ℕ
doubled capacity = if capacity == 0 then 128 else capacity * 2 % 2 ^ 64

-- `size` is `sizeof(ProcessTreeProcess)`, `realloc` whether so many bytes can be had.
module _ (size : ℕ) (realloc : ℕ → Bool) where
  unfoldable pub append_process : Process → Table → Option Table
  unfolding put doubled
  append_process p t =
      if ltb (length t.processes) t.capacity
      then some (put p t)
      else let new_capacity = doubled t.capacity in
        if ltb new_capacity t.capacity || ltb (size_max / size) new_capacity
        then none
        else if realloc (new_capacity * size)
        then some (put p (record t { capacity = new_capacity }))
        else none

  -- One entry of the directory: its name, and what `read_process_stat` returns for a pid.
  module _ (read_process_stat : ℕ → StatRead) where
    pub collect_read : StatRead → Table → Option Table
    collect_read stat_gone t = some t
    collect_read stat_error t = none
    collect_read (stat_success p) t = append_process p t

    pub collect_pid : Option ℕ → Table → Option Table
    collect_pid none t = some t
    collect_pid (some pid) t = collect_read (read_process_stat pid) t

    -- The loop; `fails` says that the end of the entries is an error of `readdir`.
    pub collect_entries : (fails : Bool) → List (List ℕ) → Table → Option Table
    collect_entries fails [] t = if fails then none else some t
    collect_entries fails (name ∷ names) t = elim (collect_pid (directory_name_to_pid name) t) [
      | none ↦ none
      | some t' ↦ collect_entries fails names t'
    ]

    pub collected_processes : (closes : Bool) → Option Table → Option (List Process)
    collected_processes closes none = none
    collected_processes closes (some t) = if closes then some t.processes else none

    -- `none` for the names is a directory that cannot be opened.
    unfoldable pub collect_all_processes :
        Option (List (List ℕ)) → (fails closes : Bool) → Option (List Process)
    unfolding append_process collect_read collect_pid collect_entries collected_processes
    collect_all_processes none fails closes = none
    collect_all_processes (some names) fails closes =
        collected_processes closes (collect_entries fails names empty_table)
