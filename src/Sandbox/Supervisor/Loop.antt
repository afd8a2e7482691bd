-- ===== src/Sandbox/Supervisor/Loop.antt =====
-- Sandbox/Sandbox.c: `supervise_workload` and `report_child_status`.
pub mod Quiet
use st5039cmd.Base.{
  ℕ, Bool, true, false, not, ◌&&◌, List, [], ◌∷◌, Option, none, some, ◌==◌, if◌then◌else◌,
}
use st5039cmd.Sandbox.State.{
  SandboxState, TerminationReason, no_reason, supervisor_error, operator_signal, is_no_reason,
  Mutex, Call, snapshot, request_termination,
}
use st5039cmd.Sandbox.Supervisor.{
  ChildStatus, exited_with, signalled_by, unrecognized, Supervised, Moment, Polled, alive, gone,
  poll_failed, poll_workload, advance,
}
use st5039cmd.Sandbox.Supervisor.Wait.{Ending, terminate_workload}

-- What one round of the loop meets: `operator_signal_number`, the calls of other threads in front of
-- its request, the poll, the calls before the snapshot, and whether the sleep returns 0.
pub record Turn : Type 0 where
  pub operator_signal_number : ℕ
  pub before_request : List Call
  pub request_mutex : Mutex
  pub poll : Moment
  pub between : List Call
  pub snapshot_mutex : Mutex
  pub sleeps : Bool

-- The function's end: the reason, and whether 0 is returned; or it still runs.
pub data Verdict : Type 0 where
  ended : TerminationReason → Bool → Verdict
  running : Verdict

module _ (active : Bool) (e : Ending active) where
  -- A termination for a reason.
  pub terminate_for : TerminationReason → Supervised → Supervised × Verdict
  terminate_for why s = let (after, ok) = terminate_workload active e s in (after, ended why ok)

  -- The round's end behind its snapshot; `none` goes on to the next round.
  pub decide : Option SandboxState → Bool → Option TerminationReason
  decide none sleeps = some supervisor_error
  decide (some seen) sleeps =
      if seen.termination_requested
      then some seen.termination_reason
      else if sleeps
      then none
      else some supervisor_error

  pub request_operator : List Call → Mutex → Supervised → Supervised
  request_operator earlier m s =
      let there = advance earlier s in
      record there { state = (request_termination m operator_signal there.state).0 }

  unfoldable pub supervise_workload : List Turn → Supervised → Supervised × Verdict
  unfolding terminate_for decide request_operator
  supervise_workload [] s = (s, running)
  supervise_workload (t ∷ turns) s = elim (t.operator_signal_number == 0) [
    | false ↦ terminate_for operator_signal (request_operator t.before_request t.request_mutex s)
    | true ↦
        let (polled, seen) = poll_workload active t.poll s in
        elim seen [
          | poll_failed ↦ terminate_for supervisor_error polled
          | gone ↦ (polled, ended no_reason true)
          | alive ↦
              let next = advance t.between polled in
              elim (decide (snapshot t.snapshot_mutex next.state) t.sleeps) [
                | some reason ↦ terminate_for reason next
                | none ↦ supervise_workload turns next
              ]
        ]
  ]

-- Whether EXIT_SUCCESS is returned.
unfoldable pub report_child_status : ChildStatus → TerminationReason → Bool
report_child_status (exited_with code) why = code == 0 && is_no_reason why
report_child_status (signalled_by _) _ = false
report_child_status (unrecognized _) _ = false
