-- ===== src/Sandbox/Supervisor/Signal/Whole.antt =====
-- `signal_workload` as a whole: what one call adds to the signals sent, and whom they reach.
use mathlib.Core.List.{Memᴰ}
use st5039cmd.Base.{
  ℕ, ◌⊎◌, ◌≡◌, refl, Bool, false, List, [], ◌++◌, All, Option, none, some, ◌==◌, arith, inl, inr,
}
use st5039cmd.Base.Int.{pos, int_eq}
use st5039cmd.Sandbox.ProcessTree.{Process}
use st5039cmd.Sandbox.ProcessTree.Sample.{ProcessTreeSample}
use st5039cmd.Sandbox.State.{SandboxState, run, snapshot}
use st5039cmd.Sandbox.Supervisor.{Sent, Supervised, sample, advance}
use st5039cmd.Sandbox.Supervisor.Signal.{Delivery, signal_seen, signal_workload}
use st5039cmd.Sandbox.Supervisor.Signal.Reach.{
  Aimed, Reached, signal_seen-Aimed, signal_seen_reaches,
}

-- The signals of one call, and the state that it looked at.
pub record Signalled (active : Bool) (number : ℕ) (d : Delivery) (s : Supervised) : Type 0 where
  pub calls : List Sent
  pub appended : (signal_workload active number d s).0.sent ≡ s.sent ++ calls
  pub aimed : All (Aimed active number (run s.state d.earlier)) calls
  pub reaches :
      (t : ProcessTreeSample) (p : Process)
      → snapshot d.mutex (run s.state d.earlier) ≡ some (run s.state d.earlier)
      → sample d.look (run s.state d.earlier) ≡ some t
      → Memᴰ p t.processes
      → (p.pid == 0) ≡ false
      → int_eq (pos p.pid) (run s.state d.earlier).supervisor_pid ≡ false
      → Reached number d.group_killed (run s.state d.earlier) p calls

snapshot-same :
    {s : SandboxState} (o : Option SandboxState) (d : Delivery)
    → snapshot d.mutex s ≡ o
    → (o ≡ none) ⊎ (o ≡ some s)
unfolding snapshot
snapshot-same o d h = ground (arith, h)

signal_seen-none :
    (active : Bool) (number : ℕ) (d : Delivery) → (signal_seen active number d none).0 ≡ []
unfolding signal_seen
signal_seen-none active number d = refl

seen-Aimed :
    (active : Bool) (number : ℕ) (d : Delivery) (s : SandboxState) (o : Option SandboxState)
    → (o ≡ none) ⊎ (o ≡ some s)
    → All (Aimed active number s) (signal_seen active number d o).0
seen-Aimed active number d s o (inl e) = rw (e, signal_seen-none active number d) tt
seen-Aimed active number d s o (inr e) = rw e (signal_seen-Aimed active number d s)

-- One call of `signal_workload` only appends to the signals sent. Each is aimed: at the workload's
-- own group, at a process that is neither pid 0 nor the supervisor, or, with SIGKILL and a cgroup in
-- use, at the cgroup. And if the state and the process tree could be read, every process of the
-- sample but pid 0 and the supervisor is sent the signal, by a `kill` of its own unless it is in the
-- group and the `kill` of the group returned 0.
pub signal_workload-Signalled :
    (active : Bool) (number : ℕ) (d : Delivery) (s : Supervised) → Signalled active number d s
unfolding signal_workload advance
signal_workload-Signalled active number d s =
    let there = run s.state d.earlier in
    record {
      calls = (signal_seen active number d (snapshot d.mutex there)).0;
      appended = refl;
      aimed =
          seen-Aimed active number d there (snapshot d.mutex there)
            (snapshot-same (snapshot d.mutex there) d refl);
      reaches = λ t p locked read m real other.
          rw locked (signal_seen_reaches active number d there t p read m real other);
    }
