-- ===== src/Sandbox/ProcessTree/Tests.antt =====
-- A small /proc: supervisor 10 with the leader 20, its child 30, an orphan 40 that the supervisor
-- adopted with a child 50, and two processes of others.
use st5039cmd.Base.{
  ℕ, ◌≡◌, ◌↔◌, refl, Bool, true, false, List, [], ◌∷◌, some, length, get_or, arith,
}
use st5039cmd.Sandbox.ProcessTree.{Process, select, is_root}
use st5039cmd.Sandbox.ProcessTree.Membership.{InTree}
use st5039cmd.Sandbox.ProcessTree.Select.{select_lem}
use st5039cmd.Sandbox.ProcessTree.Sample.{
  MemoryRead, read_success, ProcessTreeSample, empty_sample, gather, process_tree_sample,
}
use st5039cmd.Sandbox.ProcessTree.Sample.Gather.{chosen, Gathered, gather_lem}
use st5039cmd.Sandbox.ProcessTree.Sample.Whole.{Undisturbed, Sampled, process_tree_sample_lem}

abbrev pub process : ℕ → ℕ → Process
process pid parent = record {
  pid = pid;
  parent_pid = parent;
  process_group_id = pid;
  state = 83;
  user_ticks = 7;
  system_ticks = 2;
}

abbrev pub listing : List Process
listing =
    process 50 40 ∷ process 1 0 ∷ process 30 20 ∷ process 20 10 ∷ process 40 10 ∷ process 60 1 ∷ []

abbrev wanted : List Bool
wanted = true ∷ false ∷ true ∷ true ∷ true ∷ false ∷ []

abbrev pub memory : ℕ → MemoryRead
memory pid = read_success 100 false

selects : select 10 20 true listing ≡ some wanted
unfolding select
selects = refl

select_lem_example :
    (selected : List Bool) × (select 10 20 true listing ≡ some selected)
    × (length selected ≡ length listing)
    × ((i : ℕ) → (get_or selected i false ≡ true) ↔ ∥ InTree listing (is_root 10 20 true) i ∥₁)
select_lem_example = select_lem 10 20 true listing

abbrev small_sample : ProcessTreeSample
small_sample = empty_sample

gather_lem_example :
    (t : ProcessTreeSample) × (gather memory listing wanted empty_sample ≡ some t)
    × Gathered memory empty_sample (chosen listing wanted) t
unfolding chosen
gather_lem_example =
    gather_lem memory listing wanted empty_sample
      (record { memory_fits = omega arith; user_fits = omega arith; system_fits = omega arith })
      ((λ e. cc), ((λ e. cc), ((λ e. cc), ((λ e. cc), tt))))

pub undisturbed : Undisturbed memory (λ n. true)
undisturbed = record { allocates = λ n. refl; reads = λ p e. cc }

process_tree_sample_lem_example :
    (t : ProcessTreeSample) × (process_tree_sample memory 10 20 true (some listing) (λ n. true)
      ≡ some t)
    × Sampled memory (λ n. true) listing (is_root 10 20 true) t
process_tree_sample_lem_example =
    process_tree_sample_lem memory (λ n. true) 10 20 true listing (omega arith) undisturbed
