-- ===== src/Sandbox/State/Order.antt =====
-- One call: what it keeps, and in which direction the state moves.
use st5039cmd.Base.{◌≡◌, ◌≢◌, refl, true, false, arith}
use st5039cmd.Sandbox.State.{
  SandboxState, no_reason, Call, step, request_termination, mark_leader_exited,
  mark_workload_exited, takes_snapshot, requests, leader_exits, workload_exits,
}

-- A request and its reason come together, and a leader lives only in a live workload.
pub record IsConsistent (s : SandboxState) : Type 0 where
  pub unrequested : s.termination_requested ≡ false → s.termination_reason ≡ no_reason
  pub requested : s.termination_requested ≡ true → s.termination_reason ≢ no_reason
  pub leader : s.leader_alive ≡ true → s.workload_alive ≡ true

pub step-IsConsistent : (s : SandboxState) (c : Call) → IsConsistent s → IsConsistent (step s c)
unfolding step request_termination mark_leader_exited mark_workload_exited
step-IsConsistent s (takes_snapshot m) v = v
step-IsConsistent s (requests m r) v = record {
  unrequested = grind arith;
  requested = grind arith;
  leader = grind arith;
}
step-IsConsistent s (leader_exits m) v = record {
  unrequested = grind arith;
  requested = grind arith;
  leader = grind arith;
}
step-IsConsistent s (workload_exits m) v = record {
  unrequested = grind arith;
  requested = grind arith;
  leader = grind arith;
}

-- What no call undoes: a request with its reason, an exit, and who the workload and its supervisor are.
pub record Later (s t : SandboxState) : Type 0 where
  pub same_child : t.child_pid ≡ s.child_pid
  pub same_group : t.child_process_group_id ≡ s.child_process_group_id
  pub same_supervisor : t.supervisor_pid ≡ s.supervisor_pid
  pub stays_requested :
      s.termination_requested ≡ true
      → (t.termination_requested ≡ true) × (t.termination_reason ≡ s.termination_reason)
  pub leader_stays_dead : s.leader_alive ≡ false → t.leader_alive ≡ false
  pub stays_dead :
      s.workload_alive ≡ false
      → (t.workload_alive ≡ false)
        × (t.termination_requested ≡ s.termination_requested)
        × (t.termination_reason ≡ s.termination_reason)

pub Later-refl : (s : SandboxState) → Later s s
Later-refl s = record {
  same_child = refl;
  same_group = refl;
  same_supervisor = refl;
  stays_requested = λ h. (h, refl);
  leader_stays_dead = λ h. h;
  stays_dead = λ h. (h, refl, refl);
}

pub Later-trans : {s t u : SandboxState} → Later s t → Later t u → Later s u
Later-trans {s} {t} {u} a b = record {
  same_child = ground arith;
  same_group = ground arith;
  same_supervisor = ground arith;
  stays_requested = λ h. ground (arith, a.stays_requested h, b.stays_requested);
  leader_stays_dead = λ h. b.leader_stays_dead (a.leader_stays_dead h);
  stays_dead = λ h. ground (arith, a.stays_dead h, b.stays_dead);
}

pub step-Later : (s : SandboxState) (c : Call) → Later s (step s c)
unfolding step request_termination mark_leader_exited mark_workload_exited
step-Later s (takes_snapshot m) = Later-refl s
step-Later s (requests m r) = grind arith
step-Later s (leader_exits m) = grind arith
step-Later s (workload_exits m) = grind arith
