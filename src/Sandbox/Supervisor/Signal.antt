-- ===== src/Sandbox/Supervisor/Signal.antt =====
-- Sandbox/Sandbox.c: `signal_workload`, with the calls of `kill` as a list.
pub mod Reach
pub mod Whole
use st5039cmd.Base.{
  ℕ, Bool, true, false, not, ◌&&◌, ◌||◌, List, [], ◌∷◌, ◌++◌, Option, none, some, ◌==◌,
  if◌then◌else◌,
}
use st5039cmd.Base.Int.{ℤ, pos, is_positive, int_eq}
use st5039cmd.Sandbox.ProcessTree.{Process}
use st5039cmd.Sandbox.State.{SandboxState, Mutex, Call, snapshot}
use st5039cmd.Sandbox.Supervisor.{
  Sent, to_cgroup, to_group, to_process, Supervised, Look, sample, advance,
}

abbrev pub sigterm : ℕ
sigterm = 15

abbrev pub sigkill : ℕ
sigkill = 9

-- `kill` returned 0, or failed with ESRCH, or otherwise.
pub data KillAnswer : Type 0 where
  delivered no_such_process kill_failed : KillAnswer

-- What one call of `signal_workload` meets.
pub record Delivery : Type 0 where
  pub earlier : List Call
  pub mutex : Mutex
  pub cgroup_killed : Bool
  pub group_killed : KillAnswer
  pub look : Look
  pub killed : ℕ → KillAnswer

abbrev pub is_failure : KillAnswer → Bool
is_failure delivered = false
is_failure no_such_process = false
is_failure kill_failed = true

abbrev pub is_delivered : KillAnswer → Bool
is_delivered delivered = true
is_delivered no_such_process = false
is_delivered kill_failed = false

-- The `continue` of the loop: pid 0, the supervisor, or a member of the group just signalled.
pub skips : SandboxState → (group_signalled : Bool) → Process → Bool
skips seen group_signalled p =
    p.pid == 0
    || int_eq (pos p.pid) seen.supervisor_pid
    || (group_signalled && int_eq (pos p.process_group_id) seen.child_process_group_id)

-- The loop over the sample: the calls made, and whether none failed.
pub signal_each : SandboxState → Bool → ℕ → (ℕ → KillAnswer) → List Process → List Sent × Bool
signal_each seen group_signalled signal_number killed [] = ([], true)
signal_each seen group_signalled signal_number killed (p ∷ ps) =
    let (calls, ok) = signal_each seen group_signalled signal_number killed ps in
    if skips seen group_signalled p
    then (calls, ok)
    else (to_process (pos p.pid) signal_number ∷ calls, not (is_failure (killed p.pid)) && ok)

pub kills_cgroup : (active : Bool) → ℕ → Bool
kills_cgroup active signal_number = signal_number == sigkill && active

-- The calls in front of the sample.
pub signal_group : (active : Bool) → ℕ → SandboxState → List Sent
signal_group active signal_number seen =
    (if kills_cgroup active signal_number then to_cgroup ∷ [] else [])
    ++ (if is_positive seen.child_process_group_id
        then to_group seen.child_process_group_id signal_number ∷ []
        else [])

pub signal_sampled : (active : Bool) → ℕ → Delivery → SandboxState → List Sent × Bool
signal_sampled active signal_number d seen =
    let first = signal_group active signal_number seen in
    let grouped = is_positive seen.child_process_group_id in
    elim (sample d.look seen) [
      | none ↦ (first, false)
      | some t ↦
          let (calls, ok) =
            signal_each seen (grouped && is_delivered d.group_killed) signal_number d.killed
              t.processes in
          (
            first ++ calls,
            (not (kills_cgroup active signal_number) || d.cgroup_killed)
                && (not grouped || not (is_failure d.group_killed))
                && ok,
          )
    ]

pub signal_seen : (active : Bool) → ℕ → Delivery → Option SandboxState → List Sent × Bool
signal_seen active signal_number d none = ([], false)
signal_seen active signal_number d (some seen) = signal_sampled active signal_number d seen

-- The calls go to the end of the trace; the result is whether 0 is returned.
unfoldable pub signal_workload : (active : Bool) → ℕ → Delivery → Supervised → Supervised × Bool
unfolding skips signal_each kills_cgroup signal_group signal_sampled signal_seen
signal_workload active signal_number d s =
    let there = advance d.earlier s in
    let (calls, ok) = signal_seen active signal_number d (snapshot d.mutex there.state) in
    (record there { sent = there.sent ++ calls }, ok)
