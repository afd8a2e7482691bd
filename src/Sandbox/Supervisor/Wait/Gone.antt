-- ===== src/Sandbox/Supervisor/Wait/Gone.antt =====
-- `terminate_workload`: what its success means.
use mathlib.Core.Bool.{false≢true}
use st5039cmd.Base.{ℕ, ◌≤◌, ◌≡◌, ◌≢◌, ◌⊎◌, inl, inr, refl, Bool, true, false, Option, none, some}
use st5039cmd.Sandbox.State.{SandboxState, snapshot}
use st5039cmd.Sandbox.Supervisor.{
  Supervised, Moment, gone, advance, membership, conclude, look_around, after_reaping,
  reap_available_children, poll_workload,
}
use st5039cmd.Sandbox.Supervisor.Signal.{signal_workload, sigterm, sigkill}
use st5039cmd.Sandbox.Supervisor.Wait.{
  Round, WaitResult, exited, timed_out, wait_error, out_of_fuel, Ending, wait_for_workload_exit,
  force_exit, terminate_workload,
}
use st5039cmd.Sandbox.Supervisor.Wait.Returns.{Exited, wait_for_workload_exit-Exited}

-- The poll took a snapshot, and by the cgroup or the process tree nobody is left in it.
abbrev pub SawNobody : Bool → Moment → Supervised → Type 0
SawNobody active k s =
    (seen : SandboxState) × (snapshot k.snapshot_mutex
        (reap_available_children k.reap_mutex k.waited (advance k.earlier s)).0.state
      ≡ some seen)
    × (membership active k seen ≡ some false)

conclude-gone :
    (k : Moment) (o : Option Bool) (s : Supervised) → (conclude k o s).1 ≡ gone → o ≡ some false
unfolding conclude
conclude-gone k none s h = cc
conclude-gone k (some true) s h = cc
conclude-gone k (some false) s h = refl

look_around-gone :
    (active : Bool) (k : Moment) (o : Option SandboxState) (s : Supervised)
    → (look_around active k o s).1 ≡ gone
    → (seen : SandboxState) × (o ≡ some seen) × (membership active k seen ≡ some false)
unfolding look_around
look_around-gone active k none s h = cc
look_around-gone active k (some seen) s h =
    (seen, refl, conclude-gone k (membership active k seen) s h)

after_reaping-gone :
    (active : Bool) (k : Moment) (s : Supervised) (ok : Bool)
    → (after_reaping active k (s, ok)).1 ≡ gone
    → (seen : SandboxState) × (snapshot k.snapshot_mutex s.state ≡ some seen)
      × (membership active k seen ≡ some false)
unfolding after_reaping
after_reaping-gone active k s false h = cc
after_reaping-gone active k s true h =
    look_around-gone active k (snapshot k.snapshot_mutex s.state) s h

pub poll_workload-SawNobody :
    (active : Bool) (k : Moment) (s : Supervised)
    → (poll_workload active k s).1 ≡ gone
    → SawNobody active k s
unfolding poll_workload
poll_workload-SawNobody active k s h =
    let after = reap_available_children k.reap_mutex k.waited (advance k.earlier s) in
    after_reaping-gone active k after.0 after.1 h

module _ (active : Bool) where
  -- `t` is what a round's poll left that saw nobody, among the rounds up to `last`.
  pub record LeftEmpty (rounds : ℕ → Round) (last : ℕ) (t : Supervised) : Type 0 where
    pub before : Supervised
    pub round : ℕ
    pub within : round ≤ last
    pub nobody : SawNobody active (rounds round).poll before
    pub left : t ≡ (poll_workload active (rounds round).poll before).0

  Exited-LeftEmpty :
      (rounds : ℕ → Round) (timeout : ℕ) (repeat_sigkill : Bool) (last : ℕ) (t : Supervised)
      → Exited active rounds timeout repeat_sigkill last t
      → LeftEmpty rounds last t
  Exited-LeftEmpty rounds timeout repeat_sigkill last t (s, round, within, empty, same) = record {
    before = s;
    round = round;
    within = within;
    nobody = poll_workload-SawNobody active (rounds round).poll s empty;
    left = same;
  }

  module _ (e : Ending active) where
    -- What the grace period leaves.
    abbrev pub graced : Supervised → Supervised × WaitResult
    graced s =
        wait_for_workload_exit active e.grace 1000 false (signal_workload active sigterm e.term s).0

    -- What the wait behind the SIGKILL leaves.
    abbrev pub forced : Supervised → Supervised × WaitResult
    forced s =
        wait_for_workload_exit active e.force 5000 true (signal_workload active sigkill e.kill s).0

    force_exit-cases :
        (s : Supervised) (r : WaitResult)
        → (forced s).1 ≡ r
        → (force_exit active e s).1 ≡ true
        → (r ≡ exited) × ((force_exit active e s).0 ≡ (forced s).0)
    unfolding force_exit
    force_exit-cases s exited f h = (refl, rw (f, force_exit) refl)
    force_exit-cases s timed_out f h = absurd (false≢true (rw (f, force_exit) at h))
    force_exit-cases s wait_error f h = absurd (false≢true (rw (f, force_exit) at h))
    force_exit-cases s out_of_fuel f h = absurd (false≢true (rw (f, force_exit) at h))

    force_exit-LeftEmpty :
        (s : Supervised)
        → (force_exit active e s).1 ≡ true
        → LeftEmpty e.force 102 (force_exit active e s).0
    force_exit-LeftEmpty s h =
        let (over, same) = force_exit-cases s (forced s).1 refl h in
        rw same (
          Exited-LeftEmpty e.force 5000 true 102 (forced s).0
            (wait_for_workload_exit-Exited active e.force 5000 true _ over))

    -- How a termination succeeds.
    abbrev pub Terminated : Supervised → Supervised → Type 0
    Terminated s t = LeftEmpty e.grace 22 t ⊎ (((graced s).1 ≢ exited) × LeftEmpty e.force 102 t)

    terminate-graced :
        (s : Supervised) (r : WaitResult)
        → (graced s).1 ≡ r
        → (terminate_workload active e s).1 ≡ true
        → Terminated s (terminate_workload active e s).0
    unfolding terminate_workload
    terminate-graced s exited g h =
        rw (g, terminate_workload)
          (inl (
            Exited-LeftEmpty e.grace 1000 false 22 (graced s).0
              (wait_for_workload_exit-Exited active e.grace 1000 false _ g)))
    terminate-graced s timed_out g h =
        rw (g, terminate_workload)
          (inr (λ i. cc, force_exit-LeftEmpty (graced s).0 (rw (g, terminate_workload) at h)))
    terminate-graced s wait_error g h =
        rw (g, terminate_workload)
          (inr (λ i. cc, force_exit-LeftEmpty (graced s).0 (rw (g, terminate_workload) at h)))
    terminate-graced s out_of_fuel g h =
        rw (g, terminate_workload)
          (inr (λ i. cc, force_exit-LeftEmpty (graced s).0 (rw (g, terminate_workload) at h)))

    -- When `terminate_workload` returns 0, a poll of the grace period saw that nobody is left, or,
    -- the grace period over without that, a poll of the wait behind the SIGKILL did; and what that
    -- poll left is the final state.
    pub terminate_workload-Terminated :
        (s : Supervised)
        → (terminate_workload active e s).1 ≡ true
        → Terminated s (terminate_workload active e s).0
    terminate_workload-Terminated s h = terminate-graced s (graced s).1 refl h
