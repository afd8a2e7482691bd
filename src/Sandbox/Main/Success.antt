-- ===== src/Sandbox/Main/Success.antt =====
-- What EXIT_SUCCESS of the controller means.
use mathlib.Core.Bool.{false≢true}
use st5039cmd.Base.{
  &&_iff, ℕ, ◌≡◌, ◌≢◌, inl, inr, refl, sym, ap, ◌∙◌, Bool, true, false, ◌&&◌, List, [], Option,
  none, some, arith, Bool-cases, Option-cases, ltb, if◌then◌else◌,
}
use st5039cmd.Base.Int.{ℤ, is_positive}
use st5039cmd.Sandbox.Options.{SandboxOptions, parse_options}
use st5039cmd.Sandbox.State.{
  SandboxState, TerminationReason, no_reason, supervisor_error, monitor_error, is_no_reason, Mutex,
  requests, run, step, init, set_workload,
}
use st5039cmd.Sandbox.State.Order.{IsConsistent, step-IsConsistent}
use st5039cmd.Sandbox.State.Runs.{run-IsConsistent}
use st5039cmd.Sandbox.Supervisor.{
  ChildStatus, exited_with, signalled_by, unrecognized, Supervised, no_status, mark_gone,
}
use st5039cmd.Sandbox.Supervisor.Wait.{terminate_workload}
use st5039cmd.Sandbox.Supervisor.Loop.{
  Verdict, ended, running, supervise_workload, report_child_status,
}
use st5039cmd.Sandbox.Supervisor.Loop.Quiet.{Undisturbed, supervise_workload-Undisturbed}
use st5039cmd.Sandbox.Main.{
  Thread, Setup, Exit, not_launched, finished, supervising, launch_reason, start_thread,
  start_monitors, conclude, clean_up, after_loop, supervise_child, launched, prepared, main_with,
  main,
}

abbrev pub succeeds : Exit → Bool
succeeds not_launched = false
succeeds (finished s why done exit_success) = exit_success
succeeds (supervising s) = false

-- The leader exited with 0, the workload is known to be gone, `termination_reason` of `main` stayed
-- without a reason, and no signal was sent to the workload.
abbrev pub IsClean : Exit → Type 0
IsClean not_launched = ⊥
IsClean (finished s why done exit_success) =
    (s.status.leader_status ≡ some (exited_with 0))
    × (done ≡ true)
    × (why ≡ no_reason)
    × (s.sent ≡ [])
IsClean (supervising s) = ⊥

is_no_reason→no_reason : (why : TerminationReason) → is_no_reason why ≡ true → why ≡ no_reason
is_no_reason→no_reason why h = ground (arith, h)

report-success :
    (status : ChildStatus) (why : TerminationReason)
    → report_child_status status why ≡ true
    → (status ≡ exited_with 0) × (why ≡ no_reason)
unfolding report_child_status
report-success (exited_with code) why h = ground (arith, h, is_no_reason→no_reason why)
report-success (signalled_by n) why h = absurd (false≢true h)
report-success (unrecognized n) why h = absurd (false≢true h)

conclude-IsClean :
    (k : Setup) (why : TerminationReason) (done : Bool) (s : Supervised)
    → (why ≡ no_reason → s.sent ≡ [])
    → succeeds (conclude k why done s) ≡ true
    → IsClean (conclude k why done s)
unfolding conclude mark_gone
conclude-IsClean k why false s quiet h = absurd (false≢true h)
conclude-IsClean k why true s quiet h = elim (Option-cases s.status.leader_status) [
  | inl missing ↦ absurd (false≢true (rw missing at h))
  | inr (status, given) ↦
      let (ended_well, unforced) = report-success status why (rw given at h) in
      (given ∙ ap some ended_well, refl, unforced, quiet unforced)
]

supervisor_error_given :
    (why : TerminationReason) → (if is_no_reason why then supervisor_error else why) ≢ no_reason
supervisor_error_given why = ground arith

clean_up-IsClean :
    (k : Setup) (why : TerminationReason) (ok : Bool) (s : Supervised)
    → (why ≡ no_reason → (ok ≡ true) × (s.sent ≡ []))
    → succeeds (clean_up k why ok s) ≡ true
    → IsClean (clean_up k why ok s)
unfolding clean_up
clean_up-IsClean k why true s quiet h = conclude-IsClean k why true s (λ given. (quiet given).1) h
clean_up-IsClean k why false s quiet h =
    conclude-IsClean k _ _ _ (λ given. absurd (supervisor_error_given why given)) h

clean_up-given :
    (k : Setup) (why : TerminationReason) (ok : Bool) (s : Supervised)
    → why ≢ no_reason
    → succeeds (clean_up k why ok s) ≡ true
    → ⊥
unfolding clean_up conclude
clean_up-given k why true s given h =
    given (conclude-IsClean k why true s (λ e. absurd (given e)) h).2
clean_up-given k why false s given h =
    let again = supervisor_error_given why in
    let (after, ok) = terminate_workload k.cgroup_active k.cleanup s in
    again
      (conclude-IsClean k (if is_no_reason why then supervisor_error else why) ok after
        (λ e. absurd (again e)) h).2

after_loop-IsClean :
    (k : Setup) (s : Supervised) (r : Supervised × Verdict)
    → s.sent ≡ []
    → Undisturbed s r
    → succeeds (after_loop k r) ≡ true
    → IsClean (after_loop k r)
unfolding after_loop
after_loop-IsClean k s (t, ended why ok) fresh u h =
    clean_up-IsClean k why ok t (λ given. ((u given).0, (u given).1 ∙ fresh)) h
after_loop-IsClean k s (t, running) fresh u h = absurd (false≢true h)

start_thread-IsConsistent :
    (t : Thread) (s : SandboxState) → IsConsistent s → IsConsistent (start_thread t s)
unfolding start_thread step
start_thread-IsConsistent t s v =
    let there = run-IsConsistent s t.earlier v in
    elim (Bool-cases t.created) [
      | inl made ↦ rw made there
      | inr failed ↦
          rw failed (step-IsConsistent (run s t.earlier) (requests t.mutex monitor_error) there)
    ]

start_monitors-IsConsistent :
    (k : Setup) (options : SandboxOptions) (s : SandboxState)
    → IsConsistent s
    → IsConsistent (start_monitors k options s)
unfolding start_monitors
start_monitors-IsConsistent k options s v =
    let timed = start_thread-IsConsistent k.timeout_thread s v in
    start_thread-IsConsistent k.cpu_thread _
      (elim (Bool-cases (ltb 0 options.memory_limit_kilobytes)) [
        | inl limit ↦ rw limit (start_thread-IsConsistent k.memory_thread _ timed)
        | inr free ↦ rw free timed
      ])

supervise_child-IsClean :
    (k : Setup) (options : SandboxOptions) (s : SandboxState)
    → IsConsistent s
    → succeeds (supervise_child k options s) ≡ true
    → IsClean (supervise_child k options s) × (is_no_reason (launch_reason k) ≡ true)
unfolding supervise_child
supervise_child-IsClean k options s v h =
    let started : Supervised = record {
      state = start_monitors k options s;
      status = no_status;
      sent = [];
    } in
    elim (Bool-cases (is_no_reason (launch_reason k))) [
      | inl on ↦ (
        rw on (
            after_loop-IsClean k started
              (supervise_workload k.cgroup_active k.ending k.turns started) refl
              (supervise_workload-Undisturbed k.cgroup_active k.ending k.turns started
                (start_monitors-IsConsistent k options s v))
              (rw on at h)),
        on,
      )
      | inr over ↦ absurd (
          clean_up-given k (launch_reason k) _ _
            (λ given. false≢true (sym over ∙ ap is_no_reason given)) (rw over at h))
    ]

set_workload-IsConsistent :
    (m : Mutex) (child : ℤ) (s : SandboxState)
    → (set_workload m child child s).1 ≡ true
    → IsConsistent (set_workload m child child s).0
unfolding set_workload
set_workload-IsConsistent m child s h = record {
  unrequested = grind (arith, h);
  requested = grind (arith, h);
  leader = grind (arith, h);
}

launched-IsClean :
    (k : Setup) (options : SandboxOptions) (s : SandboxState)
    → succeeds (launched k options s) ≡ true
    → IsClean (launched k options s) × (is_no_reason (launch_reason k) ≡ true)
unfolding launched
launched-IsClean k options s h =
    let (set, ok) = set_workload k.set_mutex k.fork k.fork s in
    elim (Bool-cases (is_positive k.fork && ok)) [
      | inl on ↦ rw on (
          supervise_child-IsClean k options set
            (set_workload-IsConsistent k.set_mutex k.fork s
              ((&&_iff (is_positive k.fork) ok).0 on).1)
            (rw on at h))
      | inr off ↦ absurd (false≢true (rw off at h))
    ]

prepared-IsClean :
    (k : Setup) (options : SandboxOptions) (s : Option SandboxState)
    → succeeds (prepared k options s) ≡ true
    → IsClean (prepared k options s) × (is_no_reason (launch_reason k) ≡ true)
unfolding prepared
prepared-IsClean k options none h = absurd (false≢true h)
prepared-IsClean k options (some s) h =
    elim (Bool-cases (k.subreaper && k.handlers && k.pipe_made)) [
      | inl on ↦ rw on (launched-IsClean k options s (rw on at h))
      | inr off ↦ absurd (false≢true (rw off at h))
    ]

main_with-IsClean :
    (k : Setup) (options : Option SandboxOptions)
    → succeeds (main_with k options) ≡ true
    → IsClean (main_with k options) × (is_no_reason (launch_reason k) ≡ true)
unfolding main_with
main_with-IsClean k none h = absurd (false≢true h)
main_with-IsClean k (some options) h = prepared-IsClean k options (init k.getpid k.mutex_made) h

-- The workload was released, alone in its group, in the cgroup if there is one, and no signal of an
-- operator had come before.
pub record IsReleased (k : Setup) : Type 0 where
  pub unasked : k.operator_signal_number ≡ 0
  pub grouped : k.parent_setpgid ≡ true
  pub in_cgroup : k.cgroup_active ≡ true → k.attached ≡ true
  pub released : k.released ≡ true

launch_reason-IsReleased : (k : Setup) → is_no_reason (launch_reason k) ≡ true → IsReleased k
unfolding launch_reason
launch_reason-IsReleased k h = record {
  unasked = ground (arith, h);
  grouped = ground (arith, h);
  in_cgroup = ground (arith, h);
  released = ground (arith, h);
}

-- The controller exits with EXIT_SUCCESS only if it had released the workload, isolated, without a
-- signal of an operator before, and if the leader exited with 0, the workload is known to be gone,
-- `main` itself ended with no reason for a termination, and not one signal was sent. A request in the
-- shared state that `main` has not read, as that of a `pthread_create` that fails before the first
-- poll finds the workload gone, is no such reason.
pub main-IsClean :
    (arguments : List (List ℕ)) (k : Setup)
    → succeeds (main arguments k) ≡ true
    → IsClean (main arguments k) × IsReleased k
unfolding main
main-IsClean arguments k h =
    let (clean, unforced) = main_with-IsClean k (parse_options arguments) h in
    (clean, launch_reason-IsReleased k unforced)
