-- ===== src/Sandbox/Launch/Supervised.antt =====
-- Sandbox/Sandbox.c: `main` of the controller and `run_sandbox_child`, joined by the pipe.
use st5039cmd.Base.{
  &&_iff, ◌&&◌, ℕ, ◌≡◌, ◌⊎◌, refl, sym, ap, ◌∙◌, Bool, true, false, List, [], ◌∷◌, if◌then◌else◌,
  arith, inl, inr,
}
use st5039cmd.Base.Int.{ℤ}
use st5039cmd.Sandbox.Options.{SandboxOptions}
use st5039cmd.Sandbox.Filter.{Headers}
use st5039cmd.Sandbox.Landlock.{Rights}
use st5039cmd.Sandbox.Child.{InForce, ChildAnswers, replaced, run_sandbox_child}
use st5039cmd.Sandbox.Child.Executes.{run_sandbox_child-executes}
use st5039cmd.Sandbox.State.{is_no_reason}
use st5039cmd.Sandbox.Main.{Setup, reason_before_release, launch_reason}
use st5039cmd.Sandbox.Launch.{
  ReleaseAnswer, released, is_released, is_recorded, release_child, pipe_content,
}
use st5039cmd.Sandbox.Launch.Handshake.{Carries, nil≢cons, granted_byte, written_released}

module _ (k : Setup) (writes : List ReleaseAnswer) where
  -- What the controller has done before the byte is in the pipe.
  abbrev pub IsIsolated : Type 0
  IsIsolated =
      (k.operator_signal_number ≡ 0)
      × (k.parent_setpgid ≡ true)
      × ((k.cgroup_active ≡ false) ⊎ (k.attached ≡ true))

  reason-IsIsolated : is_no_reason (reason_before_release k) ≡ true → IsIsolated
  unfolding reason_before_release
  reason-IsIsolated h = ground (arith, h)

  pipe_content-released :
      (b : ℕ) (rest : List ℕ) (none_yet : Bool)
      → (if none_yet then (release_child writes).written else []) ≡ b ∷ rest
      → (none_yet ≡ true) × ((release_child writes).ending ≡ released)
  pipe_content-released b rest false there = absurd (nil≢cons there)
  pipe_content-released b rest true there = elim (written_released writes) [
    | inl nothing ↦ absurd (nil≢cons (sym nothing ∙ there))
    | inr (done, byte) ↦ (refl, done)
  ]

  launch_reason-none :
      is_no_reason (reason_before_release k) ≡ true
      → k.released ≡ true
      → is_no_reason (launch_reason k) ≡ true
  unfolding launch_reason
  launch_reason-none h done = rw (h, done) h

  -- When the target program runs in a child that reads from the pipe of this controller, the controller
  -- had met no operator signal, its `setpgid` had succeeded (or come too late for the child), the
  -- child was recorded as the workload and attached to the cgroup if there is one, `release_child` has
  -- returned 0, and the controller goes on without a reason to terminate the workload.
  pub run_sandbox_child-IsSupervised :
      (capacity : ℕ) (r : Rights) (h : Headers) (a : ChildAnswers) (options : SandboxOptions)
      (parent : ℤ) (acts : List InForce)
      → k.released ≡ is_released (release_child writes).ending
      → Carries (pipe_content k writes) a.permission
      → run_sandbox_child capacity r h a options parent ≡ (replaced, acts)
      → ((release_child writes).ending ≡ released)
        × (is_no_reason (launch_reason k) ≡ true)
        × IsIsolated
        × (is_recorded k ≡ true)
  unfolding pipe_content
  run_sandbox_child-IsSupervised capacity r h a options parent acts same carried runs =
      let (e, bound, within, same_parent, allowed, there, in_force) =
        run_sandbox_child-executes capacity r h a options parent acts runs in
      let (rest, byte) = granted_byte (pipe_content k writes) a.permission carried allowed in
      let (ready, done) =
        pipe_content-released 1 rest (is_recorded k && is_no_reason (reason_before_release k))
          byte in
      let (recorded, without_reason) =
        (&&_iff (is_recorded k) (is_no_reason (reason_before_release k))).0 ready in
      (
        done,
        launch_reason-none without_reason (same ∙ ap is_released done),
        reason-IsIsolated without_reason,
        recorded,
      )
