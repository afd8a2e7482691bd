-- ===== src/Sandbox/ProcessTree.antt =====
-- Sandbox/process_tree.c: the processes that belong to the workload. The flags of `selected` are a
-- list as long as that of the processes. A pid is a natural number: what the code stores comes from
-- `parse_pid_token`, which refuses negative numbers.
pub mod Flags
pub mod Membership
pub mod Sweep
pub mod Select
pub mod Sample
pub mod Tests
use st5039cmd.Base.{
  ℕ, zero, suc, ◌+◌, Bool, true, false, not, ◌&&◌, ◌||◌, List, [], ◌∷◌, map, Option, none, some,
  length, get_or, set, ◌==◌, if◌then◌else◌,
}

-- `ProcessTreeProcess`.
pub record Process : Type 0 where
  pub pid : ℕ
  pub parent_pid : ℕ
  pub process_group_id : ℕ
  pub state : ℕ
  pub user_ticks : ℕ
  pub system_ticks : ℕ

pub process_is_selected_parent : List Process → List Bool → ℕ → Bool
process_is_selected_parent [] selected parent = false
process_is_selected_parent (p ∷ ps) [] parent = false
process_is_selected_parent (p ∷ ps) (s ∷ ss) parent =
    (s && p.pid == parent) || process_is_selected_parent ps ss parent

-- Who is in the workload by itself: the leader, and every child of the supervisor.
pub is_root : ℕ → ℕ → Bool → Process → Bool
is_root supervisor_pid leader_pid leader_alive p =
    (leader_alive && p.pid == leader_pid) || p.parent_pid == supervisor_pid

module _ (processes : List Process) where
  -- The test of the inner `if`, and what the flags are behind it.
  pub joins : List Bool → ℕ → Process → Bool
  joins selected index p =
      not (get_or selected index false)
      && process_is_selected_parent processes selected p.parent_pid

  pub mark : List Bool → ℕ → Process → List Bool
  mark selected index p = if joins selected index p then set selected index true else selected

  -- One pass of the `for` loop: the processes still to visit, the index, the flags, `changed`.
  pub sweep : List Process → ℕ → List Bool → Bool → List Bool × Bool
  sweep [] index selected changed = (selected, changed)
  sweep (p ∷ rest) index selected changed =
      sweep rest (index + 1) (mark selected index p) (changed || joins selected index p)

  -- `do … while (changed)`, with fuel for the passes.
  pub grow : ℕ → List Bool → Option (List Bool)
  grow zero selected = none
  grow (suc fuel) selected =
      let (next, changed) = sweep processes 0 selected false in
      let rest = grow fuel next in if changed then rest else some next

-- One pass more than there are processes.
unfoldable pub select : ℕ → ℕ → Bool → List Process → Option (List Bool)
unfolding process_is_selected_parent is_root joins mark sweep grow
select supervisor_pid leader_pid leader_alive processes =
    grow processes (suc (length processes))
      (map (is_root supervisor_pid leader_pid leader_alive) processes)
