-- ===== src/Sandbox/ProcessTree/Sample.antt =====
-- Sandbox/process_tree.c: the second half of `process_tree_sample`, which adds up the selected
-- processes. `read_process_memory` and the two allocations are arguments.
pub mod Gather
pub mod Whole
use st5039cmd.Base.{
  ℕ, zero, suc, ◌+◌, ◌-◌, ◌^◌, Bool, true, false, ◌||◌, List, [], ◌∷◌, ◌++◌, Option, none, some,
  length, ltb, ◌==◌, if◌then◌else◌,
}
use st5039cmd.Sandbox.ProcessTree.{Process, select}

-- `ULLONG_MAX` and `ULONG_MAX` of a 64-bit Linux.
abbrev pub ulong_max : ℕ
ulong_max = 2 ^ 64 - 1

-- `ProcReadResult` of `read_process_memory`, with its two out-parameters.
pub data MemoryRead : Type 0 where
  read_error process_gone : MemoryRead
  read_success : ℕ → Bool → MemoryRead

pub record ProcessTreeSample : Type 0 where
  pub processes : List Process
  pub process_count : ℕ
  pub memory_kilobytes : ℕ
  pub user_ticks : ℕ
  pub system_ticks : ℕ
  pub used_virtual_memory_fallback : Bool

abbrev pub empty_sample : ProcessTreeSample
empty_sample = record {
  processes = [];
  process_count = 0;
  memory_kilobytes = 0;
  user_ticks = 0;
  system_ticks = 0;
  used_virtual_memory_fallback = false;
}

-- `if (MAX - total < value) total = MAX; else total += value;`
unfoldable pub saturating_add : ℕ → ℕ → ℕ
saturating_add total value = if ltb (ulong_max - total) value then ulong_max else total + value

-- The part of the loop body in front of the memory read.
pub add_process : ProcessTreeSample → Process → ProcessTreeSample
add_process sample p = record sample {
  processes = sample.processes ++ p ∷ [];
  process_count = sample.process_count + 1;
  user_ticks = saturating_add sample.user_ticks p.user_ticks;
  system_ticks = saturating_add sample.system_ticks p.system_ticks;
}

pub add_memory : ProcessTreeSample → ℕ → Bool → ProcessTreeSample
add_memory sample kilobytes fallback = record sample {
  memory_kilobytes = saturating_add sample.memory_kilobytes kilobytes;
  used_virtual_memory_fallback = sample.used_virtual_memory_fallback || fallback;
}

pub count_selected : List Bool → ℕ
count_selected [] = 0
count_selected (true ∷ flags) = suc (count_selected flags)
count_selected (false ∷ flags) = count_selected flags

module _ (read_process_memory : ℕ → MemoryRead) where
  -- `none` is the return of -1, behind `process_tree_sample_destroy`.
  pub gather : List Process → List Bool → ProcessTreeSample → Option ProcessTreeSample
  gather [] selected sample = some sample
  gather (p ∷ ps) [] sample = some sample
  gather (p ∷ ps) (false ∷ flags) sample = gather ps flags sample
  gather (p ∷ ps) (true ∷ flags) sample = elim (read_process_memory p.pid) [
    | read_error ↦ none
    | process_gone ↦ gather ps flags (add_process sample p)
    | read_success kilobytes fallback ↦
        gather ps flags (add_memory (add_process sample p) kilobytes fallback)
  ]

  pub gather_selected : List Process → (ℕ → Bool) → Option (List Bool) → Option ProcessTreeSample
  gather_selected ps calloc none = none
  gather_selected ps calloc (some selected) =
      if calloc (count_selected selected) || count_selected selected == 0
      then gather ps selected empty_sample
      else none

  -- `collected` is what `collect_all_processes` gives, `calloc` whether an allocation succeeds.
  unfoldable pub process_tree_sample :
      ℕ
      → ℕ
      → Bool
      → (collected : Option (List Process)) → (calloc : ℕ → Bool) → Option ProcessTreeSample
  unfolding select saturating_add add_process add_memory count_selected gather gather_selected
  process_tree_sample supervisor_pid leader_pid leader_alive none calloc = none
  process_tree_sample supervisor_pid leader_pid leader_alive (some ps) calloc =
      if supervisor_pid == 0
      then none
      else if calloc (if length ps == 0 then 1 else length ps)
      then gather_selected ps calloc (select supervisor_pid leader_pid leader_alive ps)
      else none
