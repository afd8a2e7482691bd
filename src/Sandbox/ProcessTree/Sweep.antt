-- ===== src/Sandbox/ProcessTree/Sweep.antt =====
-- One pass over the processes: what it selects belongs to the tree, what was selected stays so, and
-- a pass that changes nothing found nothing left to select.
use native.Mathlib.Decide.{ℕ_discrete}
use st5039cmd.Base.{
  ℕ, zero, suc, ◌+◌, ◌≤◌, ◌<◌, ◌≡◌, refl, sym, ap, ◌∙◌, subst, Bool, true, false, ◌||◌, List, [],
  ◌∷◌, some, length, length-set, get_elem?, get_or, arith, Bool-cases, inl, inr, if◌then◌else◌,
}
use st5039cmd.Sandbox.ProcessTree.{Process, joins, mark, sweep}
use st5039cmd.Sandbox.ProcessTree.Flags.{unset, unset-set, get_or-set_ne, set_keeps}
use st5039cmd.Sandbox.ProcessTree.Membership.{InTree, child, SelectedParent-found}

module _ (ps : List Process) (root : Process → Bool) where
  abbrev pub Sound : List Bool → Type 0
  Sound selected = (j : ℕ) → get_or selected j false ≡ true → InTree ps root j

  mark-Sound :
      (selected : List Bool) (index : ℕ) (p : Process)
      → get_elem? ps index ≡ some p
      → Sound selected
      → Sound (mark ps selected index p)
  unfolding mark joins
  mark-Sound selected index p e s j h = elim (Bool-cases (joins ps selected index p)) [
    | inl hit ↦
        let (k, q, at_k, on, parent) =
          SelectedParent-found ps selected p.parent_pid (ground arith) in
        elim (ℕ_discrete index j) [
          | yes same ↦ subst (InTree ps root) same (child index k p q (s k on) at_k e parent)
          | no other ↦ s j (ground (arith, get_or-set_ne selected index j other))
        ]
    | inr miss ↦ s j (ground arith)
  ]

  -- `rest` is what stands in the list from `index` on.
  abbrev pub Suffix : List Process → ℕ → Type 0
  Suffix rest index = (k : ℕ) → get_elem? rest k ≡ get_elem? ps (index + k)

  suffix_head :
      (p : Process) (rest : List Process) (index : ℕ)
      → Suffix (p ∷ rest) index
      → get_elem? ps index ≡ some p
  suffix_head p rest index h =
      let e : index + 0 ≡ index = omega arith in subst (λ i. get_elem? ps i ≡ some p) e (sym (h 0))

  suffix_tail :
      (p : Process) (rest : List Process) (index : ℕ)
      → Suffix (p ∷ rest) index
      → Suffix rest (index + 1)
  suffix_tail p rest index h k =
      let e : index + suc k ≡ index + 1 + k = omega arith in h (suc k) ∙ ap (get_elem? ps) e

  pub sweep-Sound :
      (rest : List Process) (index : ℕ) (selected : List Bool) (changed : Bool)
      → Suffix rest index
      → Sound selected
      → Sound (sweep ps rest index selected changed).0
  unfolding sweep
  sweep-Sound [] index selected changed f s = s
  sweep-Sound (p ∷ rest) index selected changed f s =
      sweep-Sound rest (index + 1) (mark ps selected index p) _ (suffix_tail p rest index f)
        (mark-Sound selected index p (suffix_head p rest index f) s)

module _ (ps : List Process) where
  mark_keeps :
      (selected : List Bool) (index : ℕ) (p : Process) (j : ℕ)
      → get_or selected j false ≡ true
      → get_or (mark ps selected index p) j false ≡ true
  unfolding mark
  mark_keeps selected index p j h = ground (arith, set_keeps selected index j)

  length-mark :
      (selected : List Bool) (index : ℕ) (p : Process)
      → length (mark ps selected index p) ≡ length selected
  unfolding mark
  length-mark selected index p = ground (arith, length-set selected index true)

  pub sweep_keeps :
      (rest : List Process) (index : ℕ) (selected : List Bool) (changed : Bool) (j : ℕ)
      → get_or selected j false ≡ true
      → get_or (sweep ps rest index selected changed).0 j false ≡ true
  unfolding sweep
  sweep_keeps [] index selected changed j h = h
  sweep_keeps (p ∷ rest) index selected changed j h =
      sweep_keeps rest (index + 1) (mark ps selected index p) _ j (mark_keeps selected index p j h)

  pub length-sweep :
      (rest : List Process) (index : ℕ) (selected : List Bool) (changed : Bool)
      → length (sweep ps rest index selected changed).0 ≡ length selected
  unfolding sweep
  length-sweep [] index selected changed = refl
  length-sweep (p ∷ rest) index selected changed =
      length-sweep rest (index + 1) (mark ps selected index p) _ ∙ length-mark selected index p

  unset-mark :
      (selected : List Bool) (index : ℕ) (p : Process)
      → index < length selected
      → (if joins ps selected index p then 1 else 0) + unset (mark ps selected index p)
        ≤ unset selected
  unfolding mark joins
  unset-mark selected index p h = ground (arith, unset-set selected index h)

  -- A pass that reports a change leaves fewer flags unset.
  pub unset-sweep :
      (rest : List Process) (index : ℕ) (selected : List Bool) (changed : Bool)
      → index + length rest ≤ length selected
      → (if (sweep ps rest index selected changed).1 then 1 else 0)
          + unset (sweep ps rest index selected changed).0
        ≤ (if changed then 1 else 0) + unset selected
  unfolding sweep
  unset-sweep [] index selected changed h = omega arith
  unset-sweep (p ∷ rest) index selected changed h = ground (
    arith,
    unset-sweep rest (index + 1) (mark ps selected index p) (changed || joins ps selected index p),
    unset-mark selected index p,
    length-mark selected index p,
  )

  mark_miss :
      (selected : List Bool) (index : ℕ) (p : Process)
      → joins ps selected index p ≡ false
      → mark ps selected index p ≡ selected
  unfolding mark
  mark_miss selected index p h = rw h

  abbrev Quiet : List Process → ℕ → List Bool → Type 0
  Quiet rest index selected =
      (k : ℕ) (p : Process) → get_elem? rest k ≡ some p → joins ps selected (index + k) p ≡ false

  Quiet-cons :
      (p : Process) (rest : List Process) (index : ℕ) (selected : List Bool)
      → joins ps selected index p ≡ false
      → Quiet rest (index + 1) selected
      → Quiet (p ∷ rest) index selected
  Quiet-cons p rest index selected miss later zero q e =
      let i : index ≡ index + 0 = omega arith in
      let same : p ≡ q = cc in
      subst (λ j. joins ps selected j q ≡ false) i
        (subst (λ r. joins ps selected index r ≡ false) same miss)
  Quiet-cons p rest index selected miss later (suc k) q e =
      let i : index + 1 + k ≡ index + suc k = omega arith in
      subst (λ j. joins ps selected j q ≡ false) i (later k q e)

  -- A pass that reports no change found no process to add.
  pub sweep-Quiet :
      (rest : List Process) (index : ℕ) (selected : List Bool) (changed : Bool)
      → (sweep ps rest index selected changed).1 ≡ false
      → (changed ≡ false)
        × ((sweep ps rest index selected changed).0 ≡ selected)
        × Quiet rest index selected
  unfolding sweep
  sweep-Quiet [] index selected changed h = (h, refl, λ k p e. cc)
  sweep-Quiet (p ∷ rest) index selected changed h =
      let (c, same, later) = sweep-Quiet rest (index + 1) (mark ps selected index p) _ h in
      let miss : joins ps selected index p ≡ false = ground arith in
      let marked = mark_miss selected index p miss in
      (
        ground arith,
        same ∙ marked,
        Quiet-cons p rest index selected miss (subst (Quiet rest (index + 1)) marked later),
      )
