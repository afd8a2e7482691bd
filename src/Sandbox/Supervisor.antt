-- ===== src/Sandbox/Supervisor.antt =====
-- Sandbox/Sandbox.c: the supervisor's loop. The kernel and the other threads are arguments: each
-- record says what one call of a function meets. Waiting and signalling stand in Wait and Signal.
pub mod Signal
pub mod Wait
pub mod Loop
pub mod Polling
pub mod Tests
use st5039cmd.Base.{
  ℕ, ◌+◌, Bool, true, false, not, ◌&&◌, List, [], ◌∷◌, Option, none, some, ltb, if◌then◌else◌,
}
use st5039cmd.Base.Int.{ℤ, pos, negsuc, int_eq}
use st5039cmd.Sandbox.ProcessTree.{Process}
use st5039cmd.Sandbox.ProcessTree.Sample.{MemoryRead, ProcessTreeSample, process_tree_sample}
use st5039cmd.Sandbox.State.{
  SandboxState, Mutex, Call, run, snapshot, mark_leader_exited, mark_workload_exited,
}

-- What the macros of `sys/wait.h` say of a status.
pub data ChildStatus : Type 0 where
  exited_with signalled_by unrecognized : ℕ → ChildStatus

-- `leader_status` and `leader_status_available` are one option.
pub record WorkloadStatus : Type 0 where
  pub leader_status : Option ChildStatus
  pub reaped_processes : ℕ

abbrev pub no_status : WorkloadStatus
no_status = record { leader_status = none; reaped_processes = 0 }

-- A `kill` that was called, or a write to `cgroup.kill`.
pub data Sent : Type 0 where
  to_cgroup : Sent
  to_group to_process : ℤ → ℕ → Sent

-- The shared state, the status, and the signals sent so far, in order.
pub record Supervised : Type 0 where
  pub state : SandboxState
  pub status : WorkloadStatus
  pub sent : List Sent

-- What `waitpid` returns before it returns 0.
pub data Waited : Type 0 where
  reaped : ℕ → ChildStatus → Waited
  wait_interrupted no_children wait_failed : Waited

is_first_leader : ℕ → Supervised → Bool
is_first_leader pid s =
    int_eq (pos pid) s.state.child_pid
    && elim s.status.leader_status [ none ↦ true | some _ ↦ false ]

-- One reaped process.
pub note_reaped : Mutex → ℕ → ChildStatus → Supervised → Supervised
note_reaped m pid status s =
    let counted = s.status.reaped_processes + 1 in
    if is_first_leader pid s
    then record s {
      state = (mark_leader_exited m s.state).0;
      status = record { leader_status = some status; reaped_processes = counted };
    }
    else record s { status = record s.status { reaped_processes = counted } }

-- The answers of `waitpid` in turn, then 0.
pub reap_available_children : Mutex → List Waited → Supervised → Supervised × Bool
reap_available_children m [] s = (s, true)
reap_available_children m (reaped pid status ∷ answers) s =
    reap_available_children m answers (note_reaped m pid status s)
reap_available_children m (wait_interrupted ∷ answers) s = reap_available_children m answers s
reap_available_children m (no_children ∷ answers) s = (s, true)
reap_available_children m (wait_failed ∷ answers) s = (s, false)

-- What a sample of the process tree meets.
pub record Look : Type 0 where
  pub collected : Option (List Process)
  pub calloc : ℕ → Bool
  pub read_memory : ℕ → MemoryRead

-- A pid that is not positive is no process: 0 is refused for the supervisor, and no process has it.
abbrev pub natural : ℤ → ℕ
natural (pos n) = n
natural (negsuc n) = 0

unfoldable pub sample : Look → SandboxState → Option ProcessTreeSample
sample l s =
    process_tree_sample l.read_memory (natural s.supervisor_pid) (natural s.child_pid)
      s.leader_alive l.collected l.calloc

-- One poll: the calls of other threads before it and before its end, the mutex in its three calls,
-- `waitpid`, the cgroup's membership (`none` is an error), the process tree.
pub record Moment : Type 0 where
  pub earlier : List Call
  pub reap_mutex : Mutex
  pub waited : List Waited
  pub snapshot_mutex : Mutex
  pub populated : Option Bool
  pub look : Look
  pub meanwhile : List Call
  pub mark_mutex : Mutex

pub data Polled : Type 0 where
  alive gone poll_failed : Polled

pub advance : List Call → Supervised → Supervised
advance calls s = record s { state = run s.state calls }

unfoldable pub mark_gone : Mutex → Supervised → Supervised
mark_gone m s = record s { state = (mark_workload_exited m s.state).0 }

-- `*workload_alive`, or an error.
unfoldable pub membership : Bool → Moment → SandboxState → Option Bool
membership true k seen = k.populated
membership false k seen = elim (sample k.look seen) [
  | none ↦ none
  | some t ↦ some (ltb 0 t.process_count)
]

pub conclude : Moment → Option Bool → Supervised → Supervised × Polled
conclude k none s = (s, poll_failed)
conclude k (some true) s = (advance k.meanwhile s, alive)
conclude k (some false) s = (mark_gone k.mark_mutex (advance k.meanwhile s), gone)

pub look_around : Bool → Moment → Option SandboxState → Supervised → Supervised × Polled
look_around active k none s = (s, poll_failed)
look_around active k (some seen) s = conclude k (membership active k seen) s

pub after_reaping : Bool → Moment → Supervised × Bool → Supervised × Polled
after_reaping active k (s, false) = (s, poll_failed)
after_reaping active k (s, true) = look_around active k (snapshot k.snapshot_mutex s.state) s

-- `active` is the field of the cgroup.
unfoldable pub poll_workload : (active : Bool) → Moment → Supervised → Supervised × Polled
unfolding reap_available_children note_reaped is_first_leader advance mark_gone membership conclude
    look_around after_reaping
poll_workload active k s =
    after_reaping active k (reap_available_children k.reap_mutex k.waited (advance k.earlier s))
