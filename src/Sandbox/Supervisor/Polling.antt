-- ===== src/Sandbox/Supervisor/Polling.antt =====
-- `poll_workload`: what it leaves alone, and what its answer says.
use mathlib.Core.Logic.{∥∥₁_elim}
use mathlib.Core.Path.{ap₂}
use st5039cmd.Base.{
  ℕ, ◌<◌, ◌≡◌, ◌↔◌, inl, inr, refl, ap, ◌∙◌, Bool, true, false, List, [], ◌∷◌, Option, none, some,
  arith, Bool-cases, ltb, ltb→lt,
}
use st5039cmd.Base.Int.{pos}
use st5039cmd.Sandbox.ProcessTree.{Process, is_root}
use st5039cmd.Sandbox.ProcessTree.Membership.{InTree}
use st5039cmd.Sandbox.ProcessTree.Sample.Whole.{Undisturbed, process_tree_sample_lem}
use st5039cmd.Sandbox.ProcessTree.Sample.{ProcessTreeSample, process_tree_sample}
use st5039cmd.Sandbox.State.{
  SandboxState, Mutex, Call, leader_exits, workload_exits, step, snapshot,
}
use st5039cmd.Sandbox.State.Order.{
  IsConsistent, step-IsConsistent, Later, Later-refl, Later-trans, step-Later,
}
use st5039cmd.Sandbox.State.Runs.{run-IsConsistent, run-Later}
use st5039cmd.Sandbox.Supervisor.{
  ChildStatus, Supervised, Waited, reaped, wait_interrupted, no_children, wait_failed,
  is_first_leader, note_reaped, reap_available_children, Look, natural, sample, Moment, advance,
  mark_gone, membership, conclude, look_around, after_reaping, poll_workload,
}

-- No signal was sent, the fields still agree, and the state is a later one.
pub record Follows (s t : Supervised) : Type 0 where
  pub same_sent : t.sent ≡ s.sent
  pub keeps : IsConsistent s.state → IsConsistent t.state
  pub later : Later s.state t.state

pub Follows-refl : (s : Supervised) → Follows s s
Follows-refl s = record { same_sent = refl; keeps = λ v. v; later = Later-refl s.state }

pub Follows-trans : {s t u : Supervised} → Follows s t → Follows t u → Follows s u
Follows-trans a b = record {
  same_sent = b.same_sent ∙ a.same_sent;
  keeps = λ v. b.keeps (a.keeps v);
  later = Later-trans a.later b.later;
}

pub advance-Follows : (calls : List Call) (s : Supervised) → Follows s (advance calls s)
unfolding advance
advance-Follows calls s = record {
  same_sent = refl;
  keeps = run-IsConsistent s.state calls;
  later = run-Later s.state calls;
}

mark_gone-Follows : (m : Mutex) (s : Supervised) → Follows s (mark_gone m s)
unfolding mark_gone step
mark_gone-Follows m s = record {
  same_sent = refl;
  keeps = λ v. step-IsConsistent s.state (workload_exits m) v;
  later = step-Later s.state (workload_exits m);
}

note_reaped-Follows :
    (m : Mutex) (pid : ℕ) (status : ChildStatus) (s : Supervised)
    → Follows s (note_reaped m pid status s)
unfolding note_reaped step
note_reaped-Follows m pid status s = elim (Bool-cases (is_first_leader pid s)) [
  | inl first ↦ rw first (record {
    same_sent = refl;
    keeps = λ v. step-IsConsistent s.state (leader_exits m) v;
    later = step-Later s.state (leader_exits m);
  })
  | inr other ↦ rw other (record { same_sent = refl; keeps = λ v. v; later = Later-refl s.state })
]

pub reap-Follows :
    (m : Mutex) (answers : List Waited) (s : Supervised)
    → Follows s (reap_available_children m answers s).0
unfolding reap_available_children
reap-Follows m [] s = Follows-refl s
reap-Follows m (reaped pid status ∷ answers) s =
    Follows-trans (note_reaped-Follows m pid status s)
      (reap-Follows m answers (note_reaped m pid status s))
reap-Follows m (wait_interrupted ∷ answers) s = reap-Follows m answers s
reap-Follows m (no_children ∷ answers) s = Follows-refl s
reap-Follows m (wait_failed ∷ answers) s = Follows-refl s

conclude-Follows : (k : Moment) (o : Option Bool) (s : Supervised) → Follows s (conclude k o s).0
unfolding conclude
conclude-Follows k none s = Follows-refl s
conclude-Follows k (some true) s = advance-Follows k.meanwhile s
conclude-Follows k (some false) s =
    Follows-trans (advance-Follows k.meanwhile s)
      (mark_gone-Follows k.mark_mutex (advance k.meanwhile s))

look_around-Follows :
    (active : Bool) (k : Moment) (o : Option SandboxState) (s : Supervised)
    → Follows s (look_around active k o s).0
unfolding look_around
look_around-Follows active k none s = Follows-refl s
look_around-Follows active k (some seen) s = conclude-Follows k (membership active k seen) s

after_reaping-Follows :
    (active : Bool) (k : Moment) (s : Supervised) (ok : Bool)
    → Follows s (after_reaping active k (s, ok)).0
unfolding after_reaping
after_reaping-Follows active k s false = Follows-refl s
after_reaping-Follows active k s true =
    look_around-Follows active k (snapshot k.snapshot_mutex s.state) s

-- A poll sends no signal, and keeps the fields of the state in agreement.
pub poll_workload-Follows :
    (active : Bool) (k : Moment) (s : Supervised) → Follows s (poll_workload active k s).0
unfolding poll_workload
poll_workload-Follows active k s =
    let there = advance k.earlier s in
    let after = reap_available_children k.reap_mutex k.waited there in
    Follows-trans (advance-Follows k.earlier s) (
      Follows-trans (reap-Follows k.reap_mutex k.waited there)
        (after_reaping-Follows active k after.0 after.1))

some_inj_false : {b : Bool} → some b ≡ some false → b ≡ false
some_inj_false e = cc

sampled :
    (l : Look) (seen : SandboxState) (ps : List Process) (supervisor : ℕ) (t : ProcessTreeSample)
    → l.collected ≡ some ps
    → seen.supervisor_pid ≡ pos supervisor
    → process_tree_sample l.read_memory supervisor
        (natural seen.child_pid)
        seen.leader_alive
        (some ps)
        l.calloc
      ≡ some t
    → sample l seen ≡ some t
unfolding sample
sampled l seen ps supervisor t e f ran =
    ap₂
      (λ a c.
        process_tree_sample l.read_memory a (natural seen.child_pid) seen.leader_alive c l.calloc)
      (ap natural f) e
    ∙ ran

membership-sampled :
    (k : Moment) (seen : SandboxState) (t : ProcessTreeSample)
    → sample k.look seen ≡ some t
    → membership false k seen ≡ some (ltb 0 t.process_count)
unfolding membership
membership-sampled k seen t e = rw (e, membership)

-- Without a cgroup, a poll whose processes could all be read says that the workload is gone exactly
-- when no process of the table belongs to the workload's tree.
pub membership-InTree :
    (k : Moment) (seen : SandboxState) (ps : List Process) (supervisor : ℕ)
    → k.look.collected ≡ some ps
    → seen.supervisor_pid ≡ pos supervisor
    → 0 < supervisor
    → Undisturbed k.look.read_memory k.look.calloc
    → (membership false k seen ≡ some false)
      ↔ ((i : ℕ) → ¬ InTree ps (is_root supervisor (natural seen.child_pid) seen.leader_alive) i)
membership-InTree k seen ps supervisor e f h u =
    let (t, ran, whole) =
      process_tree_sample_lem k.look.read_memory k.look.calloc supervisor (natural seen.child_pid)
        seen.leader_alive ps h u in
    let here = membership-sampled k seen t (sampled k.look seen ps supervisor t e f ran) in
    rw here (
      (λ said i m.
          let counted = some_inj_false said in
          let some_process = whole.alive.1 ∣ (i, m) ∣₁ in ground (arith, counted, some_process)),
      λ empty. elim (Bool-cases (ltb 0 t.process_count)) [
        | inl more ↦ absurd (
            ∥∥₁_elim (whole.alive.0 (ltb→lt 0 t.process_count more)) (λ x y. absurd x)
              (λ (i, m). empty i m))
        | inr none_left ↦ ap some none_left
      ],
    )
