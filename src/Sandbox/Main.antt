-- ===== src/Sandbox/Main.antt =====
-- Sandbox/Sandbox.c: `main` of the controller, from the arguments to the exit code. The branch of
-- the child behind `fork` never comes back to it.
pub mod Success
pub mod Tests
use st5039cmd.Base.{
  ℕ, Bool, true, false, not, ◌&&◌, ◌||◌, List, [], Option, none, some, ltb, ◌==◌, if◌then◌else◌,
}
use st5039cmd.Base.Int.{ℤ, is_positive}
use st5039cmd.Sandbox.Options.{SandboxOptions, parse_options}
use st5039cmd.Sandbox.State.{
  SandboxState, TerminationReason, no_reason, supervisor_error, operator_signal, monitor_error,
  is_no_reason, Mutex, Call, init, set_workload, run, request_termination, mark_workload_exited,
}
use st5039cmd.Sandbox.Supervisor.{Supervised, no_status, mark_gone}
use st5039cmd.Sandbox.Supervisor.Wait.{Ending, terminate_workload}
use st5039cmd.Sandbox.Supervisor.Loop.{
  Turn, Verdict, ended, running, supervise_workload, report_child_status,
}

-- What one thread creation meets: the calls of other threads before it, whether it succeeds, and the
-- mutex of the request that a failure makes.
pub record Thread : Type 0 where
  pub earlier : List Call
  pub created : Bool
  pub mutex : Mutex

-- What the calls of `main` return, and what its loops meet. `cgroup_active` is what
-- `sandbox_cgroup_prepare` leaves; `fork` is the child's pid or an error's -1; `parent_setpgid` is
-- true also for EACCES and ESRCH.
pub record Setup : Type 0 where
  pub getpid : ℤ
  pub mutex_made : Bool
  pub subreaper : Bool
  pub handlers : Bool
  pub cgroup_active : Bool
  pub pipe_made : Bool
  pub fork : ℤ
  pub parent_setpgid : Bool
  pub set_mutex : Mutex
  pub attached : Bool
  pub operator_signal_number : ℕ
  pub released : Bool
  pub timeout_thread : Thread
  pub memory_thread : Thread
  pub cpu_thread : Thread
  pub turns : List Turn
  pub ending : Ending cgroup_active
  pub cleanup : Ending cgroup_active
  pub last_mutex : Mutex

-- EXIT_FAILURE without a supervised child; or the end of a supervised one, with whether the workload
-- is known to be gone and whether EXIT_SUCCESS is returned; or still in `supervise_workload`.
pub data Exit : Type 0 where
  not_launched : Exit
  finished : Supervised → TerminationReason → (workload_finished exit_success : Bool) → Exit
  supervising : Supervised → Exit

-- `termination_reason` when the child is to be released.
unfoldable pub reason_before_release : Setup → TerminationReason
reason_before_release k =
    let isolated =
      if k.parent_setpgid && (not k.cgroup_active || k.attached)
      then no_reason
      else supervisor_error in
    if k.operator_signal_number == 0 then isolated else operator_signal

-- `termination_reason` when the monitors start.
unfoldable pub launch_reason : Setup → TerminationReason
unfolding reason_before_release
launch_reason k =
    let asked = reason_before_release k in
    if is_no_reason asked && not k.released then supervisor_error else asked

pub start_thread : Thread → SandboxState → SandboxState
start_thread t s =
    let there = run s t.earlier in
    if t.created then there else (request_termination t.mutex monitor_error there).0

-- The memory monitor runs only under a limit.
pub start_monitors : Setup → SandboxOptions → SandboxState → SandboxState
start_monitors k options s =
    let timed = start_thread k.timeout_thread s in
    let limited =
      if ltb 0 options.memory_limit_kilobytes then start_thread k.memory_thread timed else timed in
    start_thread k.cpu_thread limited

-- The end of `main`, from the joins on.
pub conclude : Setup → TerminationReason → Bool → Supervised → Exit
conclude k why workload_finished s =
    let last = if workload_finished then mark_gone k.last_mutex s else s in
    finished last why workload_finished (
      workload_finished && elim s.status.leader_status [
        | none ↦ false
        | some status ↦ report_child_status status why
      ])

-- The label `cleanup` with a child: what is not finished is terminated once more.
pub clean_up : Setup → TerminationReason → Bool → Supervised → Exit
clean_up k why true s = conclude k why true s
clean_up k why false s =
    let (after, ok) = terminate_workload k.cgroup_active k.cleanup s in
    conclude k (if is_no_reason why then supervisor_error else why) ok after

pub after_loop : Setup → Supervised × Verdict → Exit
after_loop k (s, ended why ok) = clean_up k why ok s
after_loop k (s, running) = supervising s

pub supervise_child : Setup → SandboxOptions → SandboxState → Exit
supervise_child k options s =
    let started : Supervised = record {
      state = start_monitors k options s;
      status = no_status;
      sent = [];
    } in
    if is_no_reason (launch_reason k)
    then after_loop k (supervise_workload k.cgroup_active k.ending k.turns started)
    else let (after, ok) = terminate_workload k.cgroup_active k.ending started in
      clean_up k (launch_reason k) ok after

-- Behind `fork`. A failed `set_workload` kills the child and waits for it.
pub launched : Setup → SandboxOptions → SandboxState → Exit
launched k options s =
    let (set, ok) = set_workload k.set_mutex k.fork k.fork s in
    if is_positive k.fork && ok then supervise_child k options set else not_launched

pub prepared : Setup → SandboxOptions → Option SandboxState → Exit
prepared k options none = not_launched
prepared k options (some s) =
    if k.subreaper && k.handlers && k.pipe_made then launched k options s else not_launched

pub main_with : Setup → Option SandboxOptions → Exit
main_with k none = not_launched
main_with k (some options) = prepared k options (init k.getpid k.mutex_made)

pub main : List (List ℕ) → Setup → Exit
main arguments k = main_with k (parse_options arguments)
