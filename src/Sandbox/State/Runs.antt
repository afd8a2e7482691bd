-- ===== src/Sandbox/State/Runs.antt =====
-- Any interleaving of calls: the first request wins, and is reported once.
use st5039cmd.Base.{ℕ, ◌+◌, ◌≤◌, ◌≡◌, ◌≢◌, Bool, true, false, List, [], ◌∷◌, All, arith}
use st5039cmd.Sandbox.State.{
  SandboxState, TerminationReason, no_reason, Mutex, Call, step, run, created, failed, ignored,
  request_termination, mark_leader_exited, mark_workload_exited, takes_snapshot, requests,
  leader_exits, workload_exits,
}
use st5039cmd.Sandbox.State.Order.{
  IsConsistent, step-IsConsistent, Later, Later-refl, Later-trans, step-Later,
}

-- No interleaving breaks the agreement of the fields.
pub run-IsConsistent :
    (s : SandboxState) (cs : List Call) → IsConsistent s → IsConsistent (run s cs)
unfolding run
run-IsConsistent s [] v = v
run-IsConsistent s (c ∷ cs) v = run-IsConsistent (step s c) cs (step-IsConsistent s c v)

-- Through any interleaving: the workload stays the same, a request and its reason stay, and what has
-- exited stays so, after which nothing is requested any more.
pub run-Later : (s : SandboxState) (cs : List Call) → Later s (run s cs)
unfolding run
run-Later s [] = Later-refl s
run-Later s (c ∷ cs) = Later-trans (step-Later s c) (run-Later (step s c) cs)

-- The first request that meets a live workload fixes the reason, whatever the other threads ask for.
pub first_request_wins :
    (s : SandboxState) (m : Mutex) (reason : TerminationReason) (cs : List Call)
    → s.workload_alive ≡ true
    → s.termination_requested ≡ false
    → reason ≢ no_reason
    → m.locks ≡ true
    → let t = run s (requests m reason ∷ cs) in
      (t.termination_requested ≡ true) × (t.termination_reason ≡ reason)
unfolding run step request_termination
first_request_wins s m reason cs alive free given locked =
    let s' = step s (requests m reason) in
    let set : (s'.termination_requested ≡ true) × (s'.termination_reason ≡ reason) = grind arith in
    let (kept, same) = (run-Later s' cs).stays_requested set.0 in (kept, ground (arith, set))

-- 1 for a call that is told that it created the request.
unfoldable pub reported : SandboxState → Call → ℕ
reported s (takes_snapshot m) = 0
reported s (requests m reason) = elim (request_termination m reason s).1 [
  | created ↦ 1
  | ignored ↦ 0
  | failed ↦ 0
]
reported s (leader_exits m) = 0
reported s (workload_exits m) = 0

unfoldable pub reports : SandboxState → List Call → ℕ
reports s [] = 0
reports s (c ∷ cs) = reported s c + reports (step s c) cs

abbrev pub flag : Bool → ℕ
flag true = 1
flag false = 0

reported-le :
    (s : SandboxState) (c : Call)
    → reported s c + flag s.termination_requested ≤ flag (step s c).termination_requested
unfolding reported step request_termination mark_leader_exited mark_workload_exited
reported-le s (takes_snapshot m) = omega arith
reported-le s (requests m r) = ground arith
reported-le s (leader_exits m) = ground arith
reported-le s (workload_exits m) = ground arith

-- At most one call of all threads is told that it created the request, and none if there was one
-- before; a report means that the request is in the state.
pub reports_once :
    (s : SandboxState) (cs : List Call)
    → reports s cs + flag s.termination_requested ≤ flag (run s cs).termination_requested
unfolding reports run
reports_once s [] = omega arith
reports_once s (c ∷ cs) = omega (arith, reported-le s c, reports_once (step s c) cs)

-- The mutex of a request can be released.
abbrev pub Unlocks : Call → Type 0
Unlocks (requests m _) = m.unlocks ≡ true
Unlocks _ = Unit {0}

reported-eq :
    (s : SandboxState) (c : Call)
    → Unlocks c
    → reported s c + flag s.termination_requested ≡ flag (step s c).termination_requested
unfolding reported step request_termination mark_leader_exited mark_workload_exited
reported-eq s (takes_snapshot m) h = omega arith
reported-eq s (requests m r) h = ground arith
reported-eq s (leader_exits m) h = ground arith
reported-eq s (workload_exits m) h = ground arith

-- With a mutex that can be released, exactly one call is told so if a request was made, and none if
-- none was.
pub reports_exactly :
    (s : SandboxState) (cs : List Call)
    → All Unlocks cs
    → reports s cs + flag s.termination_requested ≡ flag (run s cs).termination_requested
unfolding reports run
reports_exactly s [] h = omega arith
reports_exactly s (c ∷ cs) h = omega (arith, reported-eq s c h.0, reports_exactly (step s c) cs h.1)
