-- ===== src/Sandbox/ProcessTree/Select.antt =====
-- The `do … while (changed)` loop of `process_tree_sample` ends, with the flags set exactly at the
-- processes of the tree.
use mathlib.Core.Bool.{So-prop}
use mathlib.Core.Logic.{∥∥₁_elim}
use st5039cmd.Base.{
  ℕ, zero, suc, ◌+◌, ◌<◌, ◌≡◌, ◌↔◌, refl, ap, ◌∙◌, Bool, true, false, List, [], ◌∷◌, map, some,
  length, get_elem?, get_or, arith, Bool-cases, inl, inr,
}
use st5039cmd.Sandbox.ProcessTree.{Process, sweep, joins, grow, select, is_root}
use st5039cmd.Sandbox.ProcessTree.Flags.{unset, unset-le}
use st5039cmd.Sandbox.ProcessTree.Membership.{InTree, rooted, child, SelectedParent-seen}
use st5039cmd.Sandbox.ProcessTree.Sweep.{
  Sound, sweep-Sound, sweep_keeps, length-sweep, unset-sweep, sweep-Quiet,
}

module _ (ps : List Process) (root : Process → Bool) where
  -- What holds of the flags before and after each pass.
  record Inv (selected : List Bool) : Type 0 where
    sized : length selected ≡ length ps
    sound : Sound ps root selected
    roots :
        (i : ℕ) (p : Process)
        → get_elem? ps i ≡ some p
        → root p ≡ true
        → get_or selected i false ≡ true

  sweep-Inv : (selected : List Bool) → Inv selected → Inv (sweep ps ps 0 selected false).0
  sweep-Inv selected v = record {
    sized = length-sweep ps ps 0 selected false ∙ v.sized;
    sound = sweep-Sound ps root ps 0 selected false (λ k. ap (get_elem? ps) (omega arith)) v.sound;
    roots = λ i p e r. sweep_keeps ps ps 0 selected false i (v.roots i p e r);
  }

  -- Nothing is left to add: whoever has a selected parent is selected.
  abbrev Closed : List Bool → Type 0
  Closed selected =
      (k : ℕ) (p : Process) → get_elem? ps k ≡ some p → joins ps selected (0 + k) p ≡ false

  Closed-complete :
      (selected : List Bool)
      → Inv selected
      → Closed selected
      → {i : ℕ} → InTree ps root i
      → get_or selected i false ≡ true
  unfolding joins
  Closed-complete selected v c (rooted i p e r) = v.roots i p e r
  Closed-complete selected v c (child i j p q t at_j at_i parent) =
      let on = Closed-complete selected v c t in
      let seen = SelectedParent-seen ps selected j p.parent_pid q at_j on parent in
      let z : 0 + i ≡ i = omega arith in ground (arith, c i p at_i, z)

  grow_lem :
      (fuel : ℕ) (selected : List Bool)
      → unset selected < fuel
      → Inv selected
      → (final : List Bool) × (grow ps fuel selected ≡ some final) × Inv final × Closed final
  unfolding grow
  grow_lem zero selected h v = absurd (omega arith)
  grow_lem (suc fuel) selected h v =
      let less = unset-sweep ps ps 0 selected false (omega (arith, v.sized)) in
      elim (Bool-cases (sweep ps ps 0 selected false).1) [
        | inl more ↦
            let (final, e, w, c) =
              grow_lem fuel (sweep ps ps 0 selected false).0 (ground arith)
                (sweep-Inv selected v) in
            (final, rw more e, w, c)
        | inr done ↦
            let (_, same, quiet) = sweep-Quiet ps ps 0 selected false done in
            (selected, ground (arith, done, same), v, quiet)
      ]

length-map : (f : Process → Bool) (ps : List Process) → length (map f ps) ≡ length ps
length-map f [] = refl
length-map f (p ∷ ps) = ap suc (length-map f ps)

get_or-map :
    (f : Process → Bool) (ps : List Process) (i : ℕ) (p : Process)
    → get_elem? ps i ≡ some p
    → get_or (map f ps) i false ≡ f p
get_or-map f [] i p e = cc
get_or-map f (q ∷ ps) zero p e = ground arith
get_or-map f (q ∷ ps) (suc i) p e = get_or-map f ps i p e

flag_from-map :
    (f : Process → Bool) (ps : List Process) (i : ℕ)
    → get_or (map f ps) i false ≡ true
    → (p : Process) × (get_elem? ps i ≡ some p) × (f p ≡ true)
flag_from-map f [] i h = cc
flag_from-map f (p ∷ ps) zero h = (p, refl, h)
flag_from-map f (p ∷ ps) (suc i) h = flag_from-map f ps i h

map-Inv : (f : Process → Bool) (ps : List Process) → Inv ps f (map f ps)
map-Inv f ps = record {
  sized = length-map f ps;
  sound = λ j h. let (p, at_j, r) = flag_from-map f ps j h in rooted j p at_j r;
  roots = λ i p e r. get_or-map f ps i p e ∙ r;
}

-- The selection always ends, and selects exactly the leader (while it lives), the children of the
-- supervisor, and all their descendants.
pub select_lem :
    (supervisor_pid leader_pid : ℕ) (leader_alive : Bool) (ps : List Process)
    → (selected : List Bool) × (select supervisor_pid leader_pid leader_alive ps ≡ some selected)
      × (length selected ≡ length ps)
      × ((i : ℕ)
          → (get_or selected i false ≡ true)
            ↔ ∥ InTree ps (is_root supervisor_pid leader_pid leader_alive) i ∥₁)
unfolding select
select_lem supervisor_pid leader_pid leader_alive ps =
    let root = is_root supervisor_pid leader_pid leader_alive in
    let first = map-Inv root ps in
    let fits : unset (map root ps) < suc (length ps) =
      omega (arith, unset-le (map root ps), first.sized) in
    let (final, e, v, c) = grow_lem ps root (suc (length ps)) (map root ps) fits first in
    (
      final,
      e,
      v.sized,
      λ i. (
        λ on. ∣ v.sound i on ∣₁,
        λ t. ∥∥₁_elim t (So-prop _) (λ m. Closed-complete ps root final v c m),
      ),
    )
