-- ===== src/Sandbox/ProcessTree/Sample/Whole.antt =====
-- `process_tree_sample` from the process list to the sample.
use mathlib.Core.Logic.{∥∥₁_elim, ∥∥₁_map}
use native.Mathlib.Bridge.{le_prop}
use st5039cmd.Base.{
  ◌==◌, ℕ, zero, suc, ◌<◌, ◌≡◌, ◌≢◌, ◌↔◌, refl, ◌∙◌, Bool, true, false, List, [], ◌∷◌, some, length,
  All, get_or, arith, if◌then◌else◌,
}
use st5039cmd.Sandbox.ProcessTree.{Process, select, is_root}
use st5039cmd.Sandbox.ProcessTree.Membership.{InTree}
use st5039cmd.Sandbox.ProcessTree.Select.{select_lem}
use st5039cmd.Sandbox.ProcessTree.Sample.{
  MemoryRead, read_error, ProcessTreeSample, empty_sample, gather, gather_selected, count_selected,
  process_tree_sample,
}
use st5039cmd.Sandbox.ProcessTree.Sample.Gather.{chosen, Gathered, gather_lem, Fits}

All-of {ℓ} : {P : Process → Type ℓ} → ((p : Process) → P p) → (ps : List Process) → All P ps
All-of h [] = tt
All-of h (p ∷ ps) = (h p, All-of h ps)

-- Nothing is chosen when and only when no flag is set.
chosen-nonempty :
    (ps : List Process) (flags : List Bool) (i : ℕ)
    → length flags ≡ length ps
    → get_or flags i false ≡ true
    → 0 < length (chosen ps flags)
unfolding chosen
chosen-nonempty [] [] i e h = cc
chosen-nonempty [] (b ∷ flags) i e h = absurd (omega arith)
chosen-nonempty (p ∷ ps) [] i e h = cc
chosen-nonempty (p ∷ ps) (true ∷ flags) i e h = omega arith
chosen-nonempty (p ∷ ps) (false ∷ flags) zero e h = cc
chosen-nonempty (p ∷ ps) (false ∷ flags) (suc i) e h = chosen-nonempty ps flags i (omega arith) h

chosen-flag :
    (ps : List Process) (flags : List Bool)
    → 0 < length (chosen ps flags)
    → (i : ℕ) × (get_or flags i false ≡ true)
unfolding chosen
chosen-flag [] flags h = absurd (omega arith)
chosen-flag (p ∷ ps) [] h = absurd (omega arith)
chosen-flag (p ∷ ps) (true ∷ flags) h = (0, refl)
chosen-flag (p ∷ ps) (false ∷ flags) h = let (i, e) = chosen-flag ps flags h in (suc i, e)

empty_sample-Fits : Fits empty_sample
empty_sample-Fits = record {
  memory_fits = omega arith;
  user_fits = omega arith;
  system_fits = omega arith;
}

module _ (read : ℕ → MemoryRead) (calloc : ℕ → Bool) where
  -- Allocation and reading of memory figures succeed.
  pub record Undisturbed : Type 0 where
    pub allocates : (n : ℕ) → calloc n ≡ true
    pub reads : (p : Process) → read p.pid ≢ read_error

  pub record Sampled (ps : List Process) (root : Process → Bool) (t : ProcessTreeSample)
      : Type 0 where
    pub flags : List Bool
    pub members : (i : ℕ) → (get_or flags i false ≡ true) ↔ ∥ InTree ps root i ∥₁
    pub gathered : Gathered read empty_sample (chosen ps flags) t
    pub alive : (0 < t.process_count) ↔ ∥ ((i : ℕ) × InTree ps root i) ∥₁

  process_tree_sample-gather :
      (supervisor_pid leader_pid : ℕ) (leader_alive : Bool) (ps : List Process) (flags : List Bool)
      → 0 < supervisor_pid
      → Undisturbed
      → select supervisor_pid leader_pid leader_alive ps ≡ some flags
      → process_tree_sample read supervisor_pid leader_pid leader_alive (some ps) calloc
        ≡ gather read ps flags empty_sample
  unfolding process_tree_sample gather_selected
  process_tree_sample-gather supervisor_pid leader_pid leader_alive ps flags h u e = rw e (
      ground (
        arith,
        u.allocates (if length ps == 0 then 1 else length ps),
        u.allocates (count_selected flags),
      ))

  -- Undisturbed, a sample of a real supervisor succeeds: it holds the processes of the tree with their
  -- capped sums, and its count is positive exactly when the tree has a process.
  pub process_tree_sample_lem :
      (supervisor_pid leader_pid : ℕ) (leader_alive : Bool) (ps : List Process)
      → 0 < supervisor_pid
      → Undisturbed
      → (t : ProcessTreeSample) × (process_tree_sample read supervisor_pid leader_pid leader_alive
            (some ps)
            calloc
          ≡ some t)
        × Sampled ps (is_root supervisor_pid leader_pid leader_alive) t
  process_tree_sample_lem supervisor_pid leader_pid leader_alive ps h u =
      let (flags, e, sized, members) = select_lem supervisor_pid leader_pid leader_alive ps in
      let (t, ran, g) =
        gather_lem read ps flags empty_sample empty_sample-Fits
          (All-of u.reads (chosen ps flags)) in
      (
        t,
        process_tree_sample-gather supervisor_pid leader_pid leader_alive ps flags h u e ∙ ran,
        record {
          flags = flags;
          members = members;
          gathered = g;
          alive = (
            λ more.
                let (i, on) = chosen-flag ps flags (omega (arith, g.counted)) in
                ∥∥₁_map ((members i).0 on) (λ m. (i, m)),
            λ some_member. ∥∥₁_elim some_member le_prop (λ (i, m).
                let on = (members i).1 ∣ m ∣₁ in
                omega (arith, g.counted, chosen-nonempty ps flags i sized on)),
          );
        },
      )
