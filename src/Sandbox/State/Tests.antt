-- ===== src/Sandbox/State/Tests.antt =====
-- The shared state at concrete runs.
use st5039cmd.Base.{◌+◌, ◌≤◌, ◌≡◌, refl, true, false, List, [], ◌∷◌}
use st5039cmd.Base.Int.{pos}
use st5039cmd.Sandbox.State.{
  SandboxState, timeout, memory_limit, no_reason, sound_mutex, Call, run, requests, leader_exits,
  workload_exits,
}
use st5039cmd.Sandbox.State.Order.{IsConsistent, Later}
use st5039cmd.Sandbox.State.Runs.{
  run-IsConsistent, run-Later, first_request_wins, reports, flag, reports_once, reports_exactly,
}

abbrev pub live_state : SandboxState
live_state = record {
  supervisor_pid = pos 10;
  child_pid = pos 20;
  child_process_group_id = pos 20;
  leader_alive = true;
  workload_alive = true;
  termination_requested = false;
  termination_reason = no_reason;
}

abbrev pub race : List Call
race =
    requests sound_mutex memory_limit
    ∷ leader_exits sound_mutex
    ∷ requests sound_mutex timeout
    ∷ workload_exits sound_mutex
    ∷ []

pub live_state-IsConsistent : IsConsistent live_state
live_state-IsConsistent = record {
  unrequested = λ e. refl;
  requested = λ e. cc;
  leader = λ e. refl;
}

run-IsConsistent_example : IsConsistent (run live_state race)
run-IsConsistent_example = run-IsConsistent live_state race live_state-IsConsistent

race-Later : Later live_state (run live_state race)
race-Later = run-Later live_state race

first_request_wins_example :
    let t = run live_state (requests sound_mutex timeout ∷ race) in
    (t.termination_requested ≡ true) × (t.termination_reason ≡ timeout)
first_request_wins_example =
    first_request_wins live_state sound_mutex timeout race refl refl (λ e. cc) refl

reports_once_example :
    reports live_state race + flag live_state.termination_requested
    ≤ flag (run live_state race).termination_requested
reports_once_example = reports_once live_state race

reports_exactly_example :
    reports live_state race + flag live_state.termination_requested
    ≡ flag (run live_state race).termination_requested
reports_exactly_example = reports_exactly live_state race (refl, (tt, (refl, (tt, tt))))
