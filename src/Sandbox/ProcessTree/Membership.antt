-- ===== src/Sandbox/ProcessTree/Membership.antt =====
-- The process tree of the workload as a relation on the indices of the process list.
use st5039cmd.Base.{
  ℕ, zero, suc, ◌≡◌, refl, Bool, true, false, List, [], ◌∷◌, some, get_elem?, get_or, arith, ◌==◌,
  Bool-cases, inl, inr,
}
use st5039cmd.Sandbox.ProcessTree.{Process, process_is_selected_parent}

-- The least set with the roots in it that has a process as soon as it has a parent of it.
pub data InTree (ps : List Process) (root : Process → Bool) : ℕ → Type 0 where
  rooted : (i : ℕ) (p : Process) → get_elem? ps i ≡ some p → root p ≡ true → InTree ps root i
  child :
      (i j : ℕ) (p q : Process)
      → InTree ps root j
      → get_elem? ps j ≡ some q
      → get_elem? ps i ≡ some p
      → q.pid ≡ p.parent_pid
      → InTree ps root i

abbrev pub SelectedParent : List Process → List Bool → ℕ → Type 0
SelectedParent ps selected parent =
    (j : ℕ) × (q : Process) × (get_elem? ps j ≡ some q)
    × (get_or selected j false ≡ true)
    × (q.pid ≡ parent)

pub SelectedParent-found :
    (ps : List Process) (ss : List Bool) (parent : ℕ)
    → process_is_selected_parent ps ss parent ≡ true
    → SelectedParent ps ss parent
unfolding process_is_selected_parent
SelectedParent-found [] ss parent h = cc
SelectedParent-found (p ∷ ps) [] parent h = cc
SelectedParent-found (p ∷ ps) (false ∷ ss) parent h =
    let (j, q, e, s, f) = SelectedParent-found ps ss parent h in (suc j, q, e, s, f)
SelectedParent-found (p ∷ ps) (true ∷ ss) parent h = elim (Bool-cases (p.pid == parent)) [
  | inl e ↦ (0, p, refl, refl, ground arith)
  | inr e ↦
      let (j, q, e', s, f) = SelectedParent-found ps ss parent (ground arith) in
      (suc j, q, e', s, f)
]

pub SelectedParent-seen :
    (ps : List Process) (ss : List Bool) (j parent : ℕ) (q : Process)
    → get_elem? ps j ≡ some q
    → get_or ss j false ≡ true
    → q.pid ≡ parent
    → process_is_selected_parent ps ss parent ≡ true
unfolding process_is_selected_parent
SelectedParent-seen [] ss j parent q e s f = cc
SelectedParent-seen (p ∷ ps) [] j parent q e s f = cc
SelectedParent-seen (p ∷ ps) (b ∷ ss) zero parent q e s f = ground arith
SelectedParent-seen (p ∷ ps) (b ∷ ss) (suc j) parent q e s f =
    ground (arith, SelectedParent-seen ps ss j parent q e s f)
