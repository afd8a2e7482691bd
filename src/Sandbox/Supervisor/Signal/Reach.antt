-- ===== src/Sandbox/Supervisor/Signal/Reach.antt =====
-- `signal_workload`: whom a signal reaches, and whom it never goes to.
use mathlib.Core.Bool.{false≢true}
use mathlib.Core.List.{Memᴰ}
use mathlib.Core.List.Memᴰ
use st5039cmd.Base.{
  &&_iff, Option-cases, zero, suc, ℕ, ◌≡◌, ◌⊎◌, inl, inr, refl, sym, ap, Bool, true, false, ◌&&◌,
  ◌||◌, List, [], ◌∷◌, ◌++◌, All, All-append, none, some, arith, Bool-cases, ◌==◌, if◌then◌else◌,
}
use st5039cmd.Base.Int.{pos, is_positive, int_eq}
use st5039cmd.Sandbox.ProcessTree.{Process}
use st5039cmd.Sandbox.ProcessTree.Sample.{ProcessTreeSample}
use st5039cmd.Sandbox.State.{SandboxState}
use st5039cmd.Sandbox.Supervisor.{Sent, to_cgroup, to_group, to_process, sample}
use st5039cmd.Sandbox.Supervisor.Signal.{
  KillAnswer, delivered, no_such_process, kill_failed, Delivery, sigkill, skips, signal_each,
  kills_cgroup, signal_group, signal_sampled, signal_seen, is_delivered,
}

-- Never a process that is the supervisor, never pid 0 or a negative one; a group only if it is a real
-- one; the whole cgroup only with SIGKILL, and only if it is in use.
abbrev pub Aimed : Bool → ℕ → SandboxState → Sent → Type 0
Aimed active number seen to_cgroup = (active ≡ true) × (number ≡ sigkill)
Aimed active number seen (to_group g n) =
    (g ≡ seen.child_process_group_id) × (is_positive g ≡ true) × (n ≡ number)
Aimed active number seen (to_process p n) =
    (is_positive p ≡ true) × (int_eq p seen.supervisor_pid ≡ false) × (n ≡ number)

or_false : (a b c : Bool) → (a || b || c) ≡ false → (a ≡ false) × (b ≡ false)
or_false a b c h = ground (arith, h)

kills_cgroup-Aimed :
    (active : Bool) (number : ℕ)
    → kills_cgroup active number ≡ true
    → (active ≡ true) × (number ≡ sigkill)
unfolding kills_cgroup
kills_cgroup-Aimed active number h = ground (arith, h)

skips-group :
    (seen : SandboxState) (g : Bool) (p : Process)
    → (p.pid == 0) ≡ false
    → int_eq (pos p.pid) seen.supervisor_pid ≡ false
    → skips seen g p ≡ true
    → (g ≡ true) × (int_eq (pos p.process_group_id) seen.child_process_group_id ≡ true)
unfolding skips
skips-group seen g p h k skip =
    let left : (g && int_eq (pos p.process_group_id) seen.child_process_group_id) ≡ true =
      rw (h, k) at skip in
    (&&_iff g (int_eq (pos p.process_group_id) seen.child_process_group_id)).0 left

positive_pos : (n : ℕ) → (n == 0) ≡ false → is_positive (pos n) ≡ true
positive_pos zero h = absurd (false≢true (sym h))
positive_pos (suc n) h = refl

skips-parts :
    (seen : SandboxState) (g : Bool) (p : Process)
    → skips seen g p ≡ false
    → ((p.pid == 0) ≡ false) × (int_eq (pos p.pid) seen.supervisor_pid ≡ false)
unfolding skips
skips-parts seen g p h = or_false (p.pid == 0) (int_eq (pos p.pid) seen.supervisor_pid) _ h

skips-Aimed :
    (active : Bool) (number : ℕ) (seen : SandboxState) (g : Bool) (p : Process)
    → skips seen g p ≡ false
    → Aimed active number seen (to_process (pos p.pid) number)
skips-Aimed active number seen g p h =
    let (some_pid, other) = skips-parts seen g p h in (positive_pos p.pid some_pid, other, refl)

signal_each-Aimed :
    (active : Bool) (number : ℕ) (seen : SandboxState) (g : Bool) (killed : ℕ → KillAnswer)
    (ps : List Process)
    → All (Aimed active number seen) (signal_each seen g number killed ps).0
unfolding signal_each
signal_each-Aimed active number seen g killed [] = tt
signal_each-Aimed active number seen g killed (p ∷ ps) =
    let ih = signal_each-Aimed active number seen g killed ps in
    elim (Bool-cases (skips seen g p)) [
      | inl skip ↦ rw skip ih
      | inr go ↦ rw go (skips-Aimed active number seen g p go, ih)
    ]

signal_group-Aimed :
    (active : Bool) (number : ℕ) (seen : SandboxState)
    → All (Aimed active number seen) (signal_group active number seen)
unfolding signal_group
signal_group-Aimed active number seen =
    All-append (Aimed active number seen)
      (if kills_cgroup active number then to_cgroup ∷ [] else [])
      (if is_positive seen.child_process_group_id
        then to_group seen.child_process_group_id number ∷ []
        else [])
      (elim (Bool-cases (kills_cgroup active number)) [
        | inl kill ↦ rw kill (kills_cgroup-Aimed active number kill, tt)
        | inr spare ↦ rw spare tt
      ])
      (elim (Bool-cases (is_positive seen.child_process_group_id)) [
        | inl real ↦ rw real ((refl, real, refl), tt)
        | inr none_set ↦ rw none_set tt
      ])

-- The calls of one `signal_workload` behind its snapshot.
signal_seen-calls :
    (active : Bool) (number : ℕ) (d : Delivery) (seen : SandboxState) (t : ProcessTreeSample)
    → sample d.look seen ≡ some t
    → (signal_seen active number d (some seen)).0
      ≡ signal_group active number seen
        ++ (signal_each seen
            (is_positive seen.child_process_group_id && is_delivered d.group_killed)
            number
            d.killed
            t.processes).0
unfolding signal_seen signal_sampled
signal_seen-calls active number d seen t e = rw (e, signal_sampled)

signal_seen-failed :
    (active : Bool) (number : ℕ) (d : Delivery) (seen : SandboxState)
    → sample d.look seen ≡ none
    → (signal_seen active number d (some seen)).0 ≡ signal_group active number seen
unfolding signal_seen signal_sampled
signal_seen-failed active number d seen e = rw (e, signal_sampled)

-- Every signal is aimed: never at the supervisor, at pid 0 or at a negative pid; at a group only if it
-- is the workload's; at the whole cgroup only with SIGKILL, and only if the cgroup is in use.
pub signal_seen-Aimed :
    (active : Bool) (number : ℕ) (d : Delivery) (seen : SandboxState)
    → All (Aimed active number seen) (signal_seen active number d (some seen)).0
signal_seen-Aimed active number d seen = elim (Option-cases (sample d.look seen)) [
  | inl failed ↦
      rw (signal_seen-failed active number d seen failed) (signal_group-Aimed active number seen)
  | inr (t, e) ↦ rw (signal_seen-calls active number d seen t e) (
      All-append (Aimed active number seen) _ _ (signal_group-Aimed active number seen)
        (signal_each-Aimed active number seen _ d.killed t.processes))
]

-- A process of the sample has the signal sent to it, or to the workload's group, which it is in and
-- for which `kill` returned 0.
abbrev pub Reached : ℕ → KillAnswer → SandboxState → Process → List Sent → Type 0
Reached number group_killed seen p calls =
    Memᴰ (to_process (pos p.pid) number) calls
    ⊎ (Memᴰ (to_group seen.child_process_group_id number) calls
        × (group_killed ≡ delivered)
        × (int_eq (pos p.process_group_id) seen.child_process_group_id ≡ true))

signal_each-sends :
    (seen : SandboxState) (g : Bool) (number : ℕ) (killed : ℕ → KillAnswer) (p : Process)
    (ps : List Process)
    → Memᴰ p ps
    → skips seen g p ≡ false
    → Memᴰ (to_process (pos p.pid) number) (signal_each seen g number killed ps).0
unfolding signal_each
signal_each-sends seen g number killed p [] m h = absurd (Memᴰ.not-nil m)
signal_each-sends seen g number killed p (q ∷ ps) (Memᴰ.head e) h =
    let go : skips seen g q ≡ false = rw⁻¹ e h in
    rw go (Memᴰ.head (ap (λ x. to_process (pos x.pid) number) e))
signal_each-sends seen g number killed p (q ∷ ps) (Memᴰ.tail m) h =
    let ih = signal_each-sends seen g number killed p ps m h in
    elim (Bool-cases (skips seen g q)) [ inl skip ↦ rw skip ih | inr go ↦ rw go (Memᴰ.tail ih) ]

signal_group-sends :
    (active : Bool) (number : ℕ) (seen : SandboxState)
    → is_positive seen.child_process_group_id ≡ true
    → Memᴰ (to_group seen.child_process_group_id number) (signal_group active number seen)
unfolding signal_group
signal_group-sends active number seen h = rw h (Memᴰ.append_right _ (Memᴰ.head refl))

delivered_only : (k : KillAnswer) → is_delivered k ≡ true → k ≡ delivered
delivered_only delivered h = refl
delivered_only no_such_process h = absurd (false≢true h)
delivered_only kill_failed h = absurd (false≢true h)

-- If the process tree could be sampled, the signal reaches every process of the sample but the
-- supervisor: by a `kill` of its own, or through the workload's group, which was signalled.
pub signal_seen_reaches :
    (active : Bool) (number : ℕ) (d : Delivery) (seen : SandboxState) (t : ProcessTreeSample)
    (p : Process)
    → sample d.look seen ≡ some t
    → Memᴰ p t.processes
    → (p.pid == 0) ≡ false
    → int_eq (pos p.pid) seen.supervisor_pid ≡ false
    → Reached number d.group_killed seen p (signal_seen active number d (some seen)).0
signal_seen_reaches active number d seen t p e m some_pid other =
    let g = is_positive seen.child_process_group_id && is_delivered d.group_killed in
    rw (signal_seen-calls active number d seen t e) (elim (Bool-cases (skips seen g p)) [
      | inr go ↦ inl (
          Memᴰ.append_right (signal_group active number seen)
            (signal_each-sends seen g number d.killed p t.processes m go))
      | inl skip ↦
          let (grouped, inside) = skips-group seen g p some_pid other skip in
          let (real, got) =
            (&&_iff (is_positive seen.child_process_group_id) (is_delivered d.group_killed)).0
              grouped in
          inr (
            Memᴰ.append_left _ (signal_group-sends active number seen real),
            delivered_only d.group_killed got,
            inside,
          )
    ])
