-- ===== src/Sandbox/Supervisor/Loop/Quiet.antt =====
-- `supervise_workload`: a run that ends without a reason has disturbed nobody.
use st5039cmd.Base.{
  ◌≡◌, ◌≢◌, inl, inr, refl, ◌∙◌, Bool, true, false, List, [], ◌∷◌, some, arith, Bool-cases,
  Option-cases, ◌==◌,
}
use st5039cmd.Sandbox.State.{
  SandboxState, TerminationReason, no_reason, supervisor_error, operator_signal, Mutex, snapshot,
}
use st5039cmd.Sandbox.State.Order.{IsConsistent}
use st5039cmd.Sandbox.Supervisor.{
  Supervised, Polled, alive, gone, poll_failed, poll_workload, advance,
}
use st5039cmd.Sandbox.Supervisor.Polling.{
  Follows, Follows-trans, poll_workload-Follows, advance-Follows,
}
use st5039cmd.Sandbox.Supervisor.Wait.{Ending}
use st5039cmd.Sandbox.Supervisor.Loop.{
  Turn, Verdict, ended, running, terminate_for, decide, supervise_workload,
}

-- What an end without a reason says; other ends say nothing here.
abbrev pub Undisturbed : Supervised → Supervised × Verdict → Type 0
Undisturbed s (t, running) = Unit {0}
Undisturbed s (t, ended why ok) = why ≡ no_reason → (ok ≡ true) × (t.sent ≡ s.sent)

module _ (active : Bool) (e : Ending active) where
  decide_given :
      (m : Mutex) (st : SandboxState) (sleeps : Bool) (why : TerminationReason)
      → IsConsistent st
      → decide active e (snapshot m st) sleeps ≡ some why
      → why ≢ no_reason
  unfolding decide snapshot
  decide_given m st sleeps why v d = ground (arith, d, v.requested)

  terminate_for-Undisturbed :
      (s t : Supervised) (why : TerminationReason)
      → why ≢ no_reason
      → Undisturbed s (terminate_for active e why t)
  unfolding terminate_for
  terminate_for-Undisturbed s t why ne = λ h. absurd (ne h)

  Undisturbed-follows :
      (s t : Supervised) (r : Supervised × Verdict)
      → Follows s t
      → Undisturbed t r
      → Undisturbed s r
  Undisturbed-follows s t (u, running) f h = tt
  Undisturbed-follows s t (u, ended why ok) f h =
      λ no. let (fine, same) = h no in (fine, same ∙ f.same_sent)

  -- How one round ends.
  round_end :
      (t : Turn) (turns : List Turn) (s : Supervised) (seen : Polled)
      → IsConsistent s.state
      → (poll_workload active t.poll s).1 ≡ seen
      → (t.operator_signal_number == 0) ≡ true
      → ((u : Supervised) → Follows s u → Undisturbed s (supervise_workload active e turns u))
      → Undisturbed s (supervise_workload active e (t ∷ turns) s)
  unfolding supervise_workload
  round_end t turns s gone v p op more =
      rw (op, p, supervise_workload)
        (λ _. (refl, (poll_workload-Follows active t.poll s).same_sent))
  round_end t turns s poll_failed v p op more =
      rw (op, p, supervise_workload)
        (terminate_for-Undisturbed s (poll_workload active t.poll s).0 supervisor_error (λ i. cc))
  round_end t turns s alive v p op more =
      let after = (poll_workload active t.poll s).0 in
      let next = advance t.between after in
      let f =
        Follows-trans (poll_workload-Follows active t.poll s) (advance-Follows t.between after) in
      elim (Option-cases (decide active e (snapshot t.snapshot_mutex next.state) t.sleeps)) [
        | inl on ↦ rw (op, p, on, supervise_workload) (more next f)
        | inr (why, stop) ↦
            rw (op, p, stop, supervise_workload)
              (terminate_for-Undisturbed s next why
                (decide_given t.snapshot_mutex next.state t.sleeps why (f.keeps v) stop))
      ]

  operator_end :
      (t : Turn) (turns : List Turn) (s : Supervised)
      → (t.operator_signal_number == 0) ≡ false
      → Undisturbed s (supervise_workload active e (t ∷ turns) s)
  unfolding supervise_workload
  operator_end t turns s op =
      rw (op, supervise_workload) (terminate_for-Undisturbed s _ operator_signal (λ i. cc))

  -- If the loop ends without a reason, it returns 0 and has sent no signal, whatever the other threads
  -- called in between.
  pub supervise_workload-Undisturbed :
      (turns : List Turn) (s : Supervised)
      → IsConsistent s.state
      → Undisturbed s (supervise_workload active e turns s)
  supervise_workload-Undisturbed [] s v = unfold supervise_workload in tt
  supervise_workload-Undisturbed (t ∷ turns) s v =
      elim (Bool-cases (t.operator_signal_number == 0)) [
        | inr asked ↦ operator_end t turns s asked
        | inl free ↦ round_end t turns s (poll_workload active t.poll s).1 v refl free (λ u f.
            Undisturbed-follows s u (supervise_workload active e turns u) f
              (supervise_workload-Undisturbed turns u (f.keeps v)))
      ]
