-- ===== src/Sandbox/Supervisor/Tests.antt =====
-- A workload in a cgroup that outlives SIGTERM and goes with SIGKILL, and the theorems at it.
use st5039cmd.Base.{
  ℕ, ◌≡◌, ◌≢◌, ◌↔◌, refl, arith, Bool, true, false, List, [], ◌∷◌, Option, none, some, not,
  if◌then◌else◌, leb,
}
use st5039cmd.Sandbox.ProcessTree.{Process, is_root}
use st5039cmd.Base.Int.{pos}
use st5039cmd.Sandbox.ProcessTree.Sample.{process_tree_sample}
use st5039cmd.Sandbox.ProcessTree.Membership.{InTree}
use st5039cmd.Sandbox.ProcessTree.Tests.{process, listing, memory, undisturbed}
use st5039cmd.Sandbox.State.{SandboxState, sound_mutex}
use st5039cmd.Sandbox.State.Order.{Later}
use st5039cmd.Sandbox.State.Tests.{live_state, live_state-IsConsistent}
use st5039cmd.Sandbox.Supervisor.{
  Supervised, Look, Moment, no_status, membership, sample, poll_workload, exited_with, reaped,
}
use st5039cmd.Sandbox.Supervisor.Polling.{Follows, poll_workload-Follows, membership-InTree}
use st5039cmd.Sandbox.Supervisor.Signal.{Delivery, delivered, no_such_process, sigterm}
use st5039cmd.Sandbox.Supervisor.Signal.Whole.{Signalled, signal_workload-Signalled}
use st5039cmd.Sandbox.Supervisor.Wait.{
  Round, Ending, out_of_fuel, wait_for_workload_exit, terminate_workload,
}
use st5039cmd.Sandbox.Supervisor.Wait.Returns.{wait_for_workload_exit_returns}
use st5039cmd.Sandbox.Supervisor.Wait.Gone.{Terminated, terminate_workload-Terminated}
use st5039cmd.Sandbox.Supervisor.Wait.Succeeds.{EndsBy, terminate_workload_succeeds}
use st5039cmd.Sandbox.Supervisor.Loop.{Turn, supervise_workload}
use st5039cmd.Sandbox.Supervisor.Loop.Quiet.{Undisturbed, supervise_workload-Undisturbed}

abbrev pub look : Look
look = record { collected = some listing; calloc = λ n. true; read_memory = memory }

-- A poll that succeeds; `left` says whether the cgroup is populated.
abbrev pub moment : Bool → Moment
moment left = record {
  earlier = [];
  reap_mutex = sound_mutex;
  waited = [];
  snapshot_mutex = sound_mutex;
  populated = some left;
  look = look;
  meanwhile = [];
  mark_mutex = sound_mutex;
}

abbrev pub delivery : Delivery
delivery = record {
  earlier = [];
  mutex = sound_mutex;
  cgroup_killed = true;
  group_killed = delivered;
  look = look;
  killed = λ pid. no_such_process;
}

-- The cgroup is empty from round `n` on.
abbrev pub rounds : ℕ → ℕ → Round
rounds n i = record {
  poll = moment (if leb n i then false else true);
  kill = delivery;
  sleeps = true;
}

-- Gone in the third round behind the SIGKILL.
abbrev pub stubborn : Ending true
stubborn = record { term = delivery; grace = rounds 100; kill = delivery; force = rounds 2 }

abbrev pub supervised : Supervised
supervised = record { state = live_state; status = no_status; sent = [] }

-- Only the supervisor and its parent are left.
abbrev survivors : List Process
survivors = process 10 1 ∷ process 1 0 ∷ []

-- Without a cgroup, the process tree is empty from the third round on.
abbrev tree_moment : Bool → Moment
tree_moment early = record (moment true) {
  look = record look { collected = some (if early then survivors else listing) };
}

abbrev tree_rounds : ℕ → Round
tree_rounds i = record (rounds 2 i) { poll = tree_moment (leb 2 i) }

abbrev stubborn_tree : Ending false
stubborn_tree = record { term = delivery; grace = rounds 100; kill = delivery; force = tree_rounds }

-- Whether the leader is still there makes no difference.
look-finds :
    (early leader : Bool) (seen : SandboxState)
    → seen.supervisor_pid ≡ pos 10
    → seen.child_pid ≡ pos 20
    → seen.leader_alive ≡ leader
    → membership false (tree_moment early) seen ≡ some (not early)
unfolding membership sample process_tree_sample
look-finds true true seen e f g = rw (e, f, g)
look-finds true false seen e f g = rw (e, f, g)
look-finds false true seen e f g = rw (e, f, g)
look-finds false false seen e f g = rw (e, f, g)

membership-answers :
    (early : Bool) (seen : SandboxState)
    → Later live_state seen
    → membership false (tree_moment early) seen ≡ some (not early)
membership-answers early seen v =
    look-finds early seen.leader_alive seen v.same_supervisor v.same_child refl

some≢none : {b : Bool} {o : Option Bool} → o ≡ some b → o ≢ none
some≢none e = cc

tree_empty : EndsBy false stubborn_tree live_state 2
tree_empty = record {
  calm = λ i h. record {
    locks = refl;
    unlocks = refl;
    waits = tt;
    answers = λ seen v. some≢none (membership-answers (leb 2 i) seen v);
  };
  sleeps = λ i h. refl;
  empty = λ seen v. membership-answers true seen v;
}

terminate_workload_succeeds_example : (terminate_workload false stubborn_tree supervised).1 ≡ true
terminate_workload_succeeds_example =
    terminate_workload_succeeds false stubborn_tree supervised 2 tree_empty (omega arith)

cgroup_empty : EndsBy true stubborn live_state 2
unfolding membership
cgroup_empty = record {
  calm = λ i h. record { locks = refl; unlocks = refl; waits = tt; answers = λ seen v e. cc };
  sleeps = λ i h. refl;
  empty = λ seen v. refl;
}

terminates : (terminate_workload true stubborn supervised).1 ≡ true
terminates = terminate_workload_succeeds true stubborn supervised 2 cgroup_empty (omega arith)

terminate_workload-Terminated_example :
    Terminated true stubborn supervised (terminate_workload true stubborn supervised).0
terminate_workload-Terminated_example =
    terminate_workload-Terminated true stubborn supervised terminates

wait_for_workload_exit_returns_example :
    (wait_for_workload_exit true (rounds 100) 1000 false supervised).1 ≢ out_of_fuel
wait_for_workload_exit_returns_example =
    wait_for_workload_exit_returns true (rounds 100) 1000 false supervised (omega arith)

signal_workload-Signalled_example : Signalled true sigterm delivery supervised
signal_workload-Signalled_example = signal_workload-Signalled true sigterm delivery supervised

poll_workload-Follows_example : Follows supervised (poll_workload true (moment true) supervised).0
poll_workload-Follows_example = poll_workload-Follows true (moment true) supervised

membership-InTree_example :
    (membership false (moment true) live_state ≡ some false)
    ↔ ((i : ℕ) → ¬ InTree listing (is_root 10 20 true) i)
membership-InTree_example =
    membership-InTree (moment true) live_state listing 10 refl refl (omega arith) undisturbed

-- The second round finds the cgroup empty.
abbrev pub turns : List Turn
turns =
    record {
      operator_signal_number = 0;
      before_request = [];
      request_mutex = sound_mutex;
      poll = moment true;
      between = [];
      snapshot_mutex = sound_mutex;
      sleeps = true;
    }
    ∷ record {
      operator_signal_number = 0;
      before_request = [];
      request_mutex = sound_mutex;
      poll = record (moment false) { waited = reaped 20 (exited_with 0) ∷ [] };
      between = [];
      snapshot_mutex = sound_mutex;
      sleeps = true;
    }
    ∷ []

supervise_workload-Undisturbed_example :
    Undisturbed supervised (supervise_workload true stubborn turns supervised)
supervise_workload-Undisturbed_example =
    supervise_workload-Undisturbed true stubborn turns supervised live_state-IsConsistent
