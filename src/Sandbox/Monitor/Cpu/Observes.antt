-- ===== src/Sandbox/Monitor/Cpu/Observes.antt =====
-- The CPU monitor observes: what it asks for, and how its lines add up.
use st5039cmd.Base.{
  ◌≡◌, ◌≢◌, inl, inr, sym, List, [], ◌∷◌, All, Any, Option, none, some, ◌==◌, Bool-cases,
}
use st5039cmd.Base.Int.{ℤ, is_positive}
use st5039cmd.Sandbox.State.{SandboxState, TerminationReason, monitor_error}
use st5039cmd.Sandbox.ProcessTree.Sample.{ProcessTreeSample}
use st5039cmd.Sandbox.Supervisor.{sample}
use st5039cmd.Sandbox.Monitor.{Round, quits, asks}
use st5039cmd.Sandbox.Monitor.Watching.{Alone, Asking, watch-Asking, request-keeps}
use st5039cmd.Sandbox.Monitor.Timeout.{Timespec}
use st5039cmd.Sandbox.Monitor.Cpu.{
  CpuRound, CpuLog, note_clock, note_tree, cpu_look, no_lines, cpu_monitor_thread,
}

note_clock-asks :
    (clock : Option Timespec) (t : ProcessTreeSample) (l l' : CpuLog) (why : TerminationReason)
    → note_clock clock t l ≡ asks why l'
    → why ≡ monitor_error
unfolding note_clock
note_clock-asks none t l l' why e = cc
note_clock-asks (some now) t l l' why e = cc

note_tree-asks :
    (o : Option ProcessTreeSample) (clock : Option Timespec) (l l' : CpuLog)
    (why : TerminationReason)
    → note_tree o clock l ≡ asks why l'
    → why ≡ monitor_error
unfolding note_tree
note_tree-asks none clock l l' why e = cc
note_tree-asks (some t) clock l l' why e = elim (Bool-cases (t.process_count == 0)) [
  | inl empty ↦ let f : quits ≡ asks why l' = rw empty at e in cc
  | inr some_left ↦ note_clock-asks clock t l l' why (rw some_left at e)
]

asks-error :
    (why : TerminationReason) (left : SandboxState) (rs : List CpuRound)
    → why ≢ monitor_error
    → Any (Asking (λ r. r.round) cpu_look why left) rs
    → ⊥
unfolding cpu_look
asks-error why left [] ne h = h
asks-error why left (r ∷ rs) ne (inr later) = asks-error why left rs ne later
asks-error why left (r ∷ rs) ne (inl q) =
    ne (note_tree-asks (sample r.look q.seen) r.clock q.own q.own' why q.ask)

-- The CPU monitor never ends a workload for its use of the processor: a reason other than a monitor
-- error is in the state behind it only if it was there before or another thread asked for it.
pub cpu_monitor_thread-observes :
    (ticks : ℤ) (first : Round) (rounds : List CpuRound) (s : SandboxState)
    (why : TerminationReason)
    → why ≢ monitor_error
    → s.termination_reason ≢ why
    → Alone why first
    → All (λ r. Alone why r.round) rounds
    → (cpu_monitor_thread ticks first rounds s).state.termination_reason ≢ why
unfolding cpu_monitor_thread
cpu_monitor_thread-observes ticks first rounds s why ne fresh a alone =
    elim (Bool-cases (is_positive ticks)) [
      | inr none_known ↦
          rw none_known (request-keeps why monitor_error first s fresh a (λ i. ne (sym i)))
      | inl known ↦ rw known (λ e.
          asks-error why _ rounds ne
            (watch-Asking (λ r. r.round) cpu_look why rounds no_lines s ne fresh alone e))
    ]
