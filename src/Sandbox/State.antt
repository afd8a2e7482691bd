-- ===== src/Sandbox/State.antt =====
-- Sandbox/monitor.c, monitor.h: the state that the threads share, behind its mutex. What the mutex
-- calls return is the argument `Mutex` of each operation; a call that runs is atomic.
pub mod Order
pub mod Runs
pub mod Tests
use Prim.Native.String.{String}
use st5039cmd.Base.{
  ℕ, Bool, true, false, not, ◌&&◌, ◌||◌, List, [], ◌∷◌, Option, none, some, if◌then◌else◌,
}
use st5039cmd.Base.Int.{ℤ, minus_one, is_positive}

pub data TerminationReason : Type 0 where
  no_reason timeout memory_limit monitor_error supervisor_error operator_signal : TerminationReason

abbrev pub is_no_reason : TerminationReason → Bool
is_no_reason TerminationReason.no_reason = true
is_no_reason _ = false

-- `sandbox_termination_reason_name`.
pub sandbox_termination_reason_name : TerminationReason → String
sandbox_termination_reason_name TerminationReason.no_reason = "none"
sandbox_termination_reason_name TerminationReason.timeout = "timeout exceeded"
sandbox_termination_reason_name TerminationReason.memory_limit = "memory limit exceeded"
sandbox_termination_reason_name TerminationReason.monitor_error = "monitor error"
sandbox_termination_reason_name TerminationReason.supervisor_error = "supervisor error"
sandbox_termination_reason_name TerminationReason.operator_signal = "operator signal"

-- `SandboxState` without the mutex; `SandboxStateSnapshot` has the same fields.
pub record SandboxState : Type 0 where
  pub supervisor_pid : ℤ
  pub child_pid : ℤ
  pub child_process_group_id : ℤ
  pub leader_alive : Bool
  pub workload_alive : Bool
  pub termination_requested : Bool
  pub termination_reason : TerminationReason

-- Whether `pthread_mutex_lock` and `pthread_mutex_unlock` succeed in a call.
pub record Mutex : Type 0 where
  pub locks : Bool
  pub unlocks : Bool

abbrev pub sound_mutex : Mutex
sound_mutex = record { locks = true; unlocks = true }

-- `sandbox_state_init`, `none` if the mutex cannot be made.
unfoldable pub init : (getpid : ℤ) (mutex_made : Bool) → Option SandboxState
init getpid mutex_made =
    if mutex_made
    then some (record {
      supervisor_pid = getpid;
      child_pid = minus_one;
      child_process_group_id = minus_one;
      leader_alive = false;
      workload_alive = false;
      termination_requested = false;
      termination_reason = TerminationReason.no_reason;
    })
    else none

-- The new state, and whether 0 is returned.
unfoldable pub set_workload : Mutex → ℤ → ℤ → SandboxState → SandboxState × Bool
set_workload m child_pid child_process_group_id s =
    if not (is_positive child_pid) || not (is_positive child_process_group_id) || not m.locks
    then (s, false)
    else (
      record s {
        child_pid = child_pid;
        child_process_group_id = child_process_group_id;
        leader_alive = true;
        workload_alive = true;
        termination_requested = false;
        termination_reason = TerminationReason.no_reason;
      },
      m.unlocks,
    )

unfoldable pub snapshot : Mutex → SandboxState → Option SandboxState
snapshot m s = if m.locks && m.unlocks then some s else none

-- The returns -1, 0 and 1 of `sandbox_state_request_termination`.
pub data Requested : Type 0 where
  failed ignored created : Requested

unfoldable pub request_termination :
    Mutex → TerminationReason → SandboxState → SandboxState × Requested
request_termination m reason s =
    if is_no_reason reason || not m.locks
    then (s, failed)
    else if s.workload_alive && not s.termination_requested
    then (
      record s { termination_requested = true; termination_reason = reason },
      if m.unlocks then created else failed,
    )
    else (s, if m.unlocks then ignored else failed)

unfoldable pub mark_leader_exited : Mutex → SandboxState → SandboxState × Bool
mark_leader_exited m s =
    if m.locks then (record s { leader_alive = false }, m.unlocks) else (s, false)

unfoldable pub mark_workload_exited : Mutex → SandboxState → SandboxState × Bool
mark_workload_exited m s =
    if m.locks
    then (record s { leader_alive = false; workload_alive = false }, m.unlocks)
    else (s, false)

-- A call that some thread makes once the workload is set.
pub data Call : Type 0 where
  takes_snapshot : Mutex → Call
  requests : Mutex → TerminationReason → Call
  leader_exits : Mutex → Call
  workload_exits : Mutex → Call

unfoldable pub step : SandboxState → Call → SandboxState
step s (Call.takes_snapshot m) = s
step s (Call.requests m reason) = (request_termination m reason s).0
step s (Call.leader_exits m) = (mark_leader_exited m s).0
step s (Call.workload_exits m) = (mark_workload_exited m s).0

-- The calls of all threads, in the order in which the mutex lets them in.
unfoldable pub run : SandboxState → List Call → SandboxState
run s [] = s
run s (c ∷ cs) = run (step s c) cs
