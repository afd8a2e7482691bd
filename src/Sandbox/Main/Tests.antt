-- ===== src/Sandbox/Main/Tests.antt =====
-- A run whose workload exits by itself, and the theorem at it.
use st5039cmd.Base.{ℕ, ◌≡◌, ◌&&◌, refl, Bool, true, false, List, [], ◌∷◌}
use st5039cmd.Base.CString.{codes, same_bytes}
use st5039cmd.Base.Int.{pos}
use st5039cmd.Sandbox.Options.{parse_options, classify}
use st5039cmd.Sandbox.State.{
  sound_mutex, init, set_workload, run, step, snapshot, request_termination, mark_leader_exited,
  mark_workload_exited,
}
use st5039cmd.Sandbox.Supervisor.{exited_with, reaped, poll_workload}
use st5039cmd.Sandbox.Supervisor.Loop.{Turn, supervise_workload, report_child_status}
use st5039cmd.Sandbox.Supervisor.Tests.{stubborn, turns, moment}
use st5039cmd.Sandbox.Main.{
  Thread, Setup, Exit, not_launched, finished, supervising, main, main_with, prepared, launched,
  supervise_child, launch_reason, start_monitors, start_thread, after_loop, clean_up, conclude,
}
use st5039cmd.Sandbox.Main.Success.{succeeds, IsClean, IsReleased, main-IsClean}

abbrev started : Thread
started = record { earlier = []; created = true; mutex = sound_mutex }

abbrev pub setup : Setup
setup = record {
  getpid = pos 10;
  mutex_made = true;
  subreaper = true;
  handlers = true;
  cgroup_active = true;
  pipe_made = true;
  fork = pos 20;
  parent_setpgid = true;
  set_mutex = sound_mutex;
  attached = true;
  operator_signal_number = 0;
  released = true;
  timeout_thread = started;
  memory_thread = started;
  cpu_thread = started;
  turns = turns;
  ending = stubborn;
  cleanup = stubborn;
  last_mutex = sound_mutex;
}

-- The first round finds the cgroup empty.
abbrev at_once : List Turn
at_once =
    record {
      operator_signal_number = 0;
      before_request = [];
      request_mutex = sound_mutex;
      poll = record (moment false) { waited = reaped 20 (exited_with 0) ∷ [] };
      between = [];
      snapshot_mutex = sound_mutex;
      sleeps = true;
    }
    ∷ []

abbrev arguments : List (List ℕ)
arguments = codes "./job" ∷ []

exits_with_success : succeeds (main arguments setup) ≡ true
unfolding main main_with prepared launched supervise_child launch_reason start_monitors start_thread
    after_loop clean_up conclude parse_options classify same_bytes init set_workload run step
    snapshot mark_leader_exited mark_workload_exited poll_workload supervise_workload
    report_child_status
exits_with_success = refl

-- The timeout thread cannot be made, and the first poll finds the workload gone.
abbrev unwatched : Setup
unwatched = record setup { timeout_thread = record started { created = false }; turns = at_once }

-- The request of the failed `pthread_create` stands in the shared state that the exit with success
-- leaves behind.
left_behind : Exit → Bool
left_behind not_launched = false
left_behind (finished s why done exit_success) = exit_success && s.state.termination_requested
left_behind (supervising s) = false

request_unread : left_behind (main arguments unwatched) ≡ true
unfolding main main_with prepared launched supervise_child launch_reason start_monitors start_thread
    after_loop clean_up conclude parse_options classify same_bytes init set_workload run step
    snapshot mark_leader_exited mark_workload_exited poll_workload supervise_workload
    report_child_status request_termination left_behind
request_unread = refl

main-IsClean_example : IsClean (main arguments setup) × IsReleased setup
main-IsClean_example = main-IsClean arguments setup exits_with_success
