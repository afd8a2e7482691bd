-- ===== src/Sandbox/Monitor/Timeout.antt =====
-- Sandbox/monitor.c: `elapsed_milliseconds` and `timeout_monitor_thread`.
pub mod Due
use st5039cmd.Base.{
  ℕ, ◌+◌, ◌-◌, ◌*◌, ◌/◌, ◌%◌, ◌^◌, Bool, true, List, Option, none, some, leb, if◌then◌else◌,
}
use st5039cmd.Sandbox.State.{SandboxState, timeout, monitor_error}
use st5039cmd.Sandbox.Monitor.{Round, Look, asks, goes_on, Watched, request, watch}

-- `struct timespec` of the monotonic clock.
pub record Timespec : Type 0 where
  pub tv_sec : ℕ
  pub tv_nsec : ℕ

-- `(uint64_t)(plus - minus)` for two numbers whose difference fits `int64_t`.
unfoldable pub to_uint64 : (plus minus : ℕ) → ℕ
to_uint64 plus minus =
    if leb minus plus then (plus - minus) % 2 ^ 64 else (2 ^ 64 - (minus - plus) % 2 ^ 64) % 2 ^ 64

-- The division of C drops the fraction of a negative number of nanoseconds too.
unfoldable pub elapsed_milliseconds : (start current : Timespec) → ℕ
unfolding to_uint64
elapsed_milliseconds start current =
    to_uint64 (current.tv_sec * 1000 + (current.tv_nsec - start.tv_nsec) / 1000000)
      (start.tv_sec * 1000 + (start.tv_nsec - current.tv_nsec) / 1000000)

-- A round, with the answer of `clock_gettime`.
pub record TimeoutRound : Type 0 where
  pub round : Round
  pub clock : Option Timespec

unfoldable pub timeout_look :
    Timespec → ℕ → TimeoutRound → SandboxState → Unit {0} → Look (Unit {0})
timeout_look start timeout_milliseconds r seen own = elim r.clock [
  | none ↦ asks monitor_error tt
  | some current ↦
      if leb timeout_milliseconds (elapsed_milliseconds start current)
      then asks timeout tt
      else goes_on tt
]

-- The thread: the clock's first answer, what the request for its failure meets, and the rounds.
unfoldable pub timeout_monitor_thread :
    (timeout_seconds : ℕ)
    → Option Timespec
    → Round
    → List TimeoutRound
    → SandboxState
    → Watched (Unit {0})
unfolding request timeout_look
timeout_monitor_thread timeout_seconds none first rounds s = record {
  state = request first monitor_error s;
  own = tt;
  returned = true;
}
timeout_monitor_thread timeout_seconds (some start) first rounds s =
    watch (λ r. r.round) (timeout_look start (timeout_seconds * 1000)) rounds tt s
