-- ===== src/Sandbox/Monitor.antt =====
-- Sandbox/monitor.c: the three monitor threads. Their loops share one frame: a snapshot of the shared
-- state, a look at the clock or the processes, and a sleep. `watch` is that frame; Timeout, Memory and
-- Cpu give the three looks. What the threads log is kept where it has a state of its own.
pub mod Frame
pub mod Watching
pub mod Timeout
pub mod Memory
pub mod Cpu
pub mod Tests
use st5039cmd.Base.{Bool, true, false, not, ◌||◌, List, [], ◌∷◌, Option, none, some}
use st5039cmd.Sandbox.State.{
  SandboxState, TerminationReason, monitor_error, Mutex, Call, run, snapshot, request_termination,
}

-- What one round of a monitor meets besides its look: the calls of other threads before its snapshot
-- and before the request that it may make, the mutex in both, and whether the sleep returns 0.
pub record Round : Type 0 where
  pub earlier : List Call
  pub snapshot_mutex : Mutex
  pub between : List Call
  pub request_mutex : Mutex
  pub sleeps : Bool

-- What a look decides, with the thread's own variables `W` behind it.
pub data Look (W : Type 0) : Type 0 where
  quits : Look W
  asks : TerminationReason → W → Look W
  goes_on : W → Look W

-- The shared state, the thread's variables, and whether the thread has returned.
pub record Watched (W : Type 0) : Type 0 where
  pub state : SandboxState
  pub own : W
  pub returned : Bool

-- `sandbox_state_request_termination`, behind what other threads do in the meantime.
pub request : Round → TerminationReason → SandboxState → SandboxState
request k why s = (request_termination k.request_mutex why (run s k.between)).0

-- The test behind each snapshot.
pub is_over : SandboxState → Bool
is_over seen = not seen.workload_alive || seen.termination_requested

module _ {R W : Type 0} (round : R → Round) (look : R → SandboxState → W → Look W) where
  -- The loop of a monitor; it still runs when the rounds are used up.
  unfoldable pub watch : List R → W → SandboxState → Watched W
  unfolding request is_over
  watch [] own s = record { state = s; own = own; returned = false }
  watch (r ∷ rs) own s =
      let k = round r in
      let there = run s k.earlier in
      elim (snapshot k.snapshot_mutex there) [
        | none ↦ record { state = there; own = own; returned = true }
        | some seen ↦ elim (is_over seen) [
          | true ↦ record { state = there; own = own; returned = true }
          | false ↦ elim (look r seen own) [
            | quits ↦ record { state = there; own = own; returned = true }
            | asks why own' ↦ record { state = request k why there; own = own'; returned = true }
            | goes_on own' ↦ elim k.sleeps [
              | true ↦ watch rs own' there
              | false ↦ record {
                state = request k monitor_error there;
                own = own';
                returned = true;
              }
            ]
          ]
        ]
      ]
