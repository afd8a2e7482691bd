-- ===== src/Sandbox/Supervisor/Wait.antt =====
-- Sandbox/Sandbox.c: `wait_for_workload_exit` and `terminate_workload`.
pub mod Returns
pub mod Gone
pub mod Succeeds
use st5039cmd.Base.{ℕ, zero, suc, ◌+◌, ◌/◌, ◌%◌, ◌^◌, Bool, true, false, leb, if◌then◌else◌}
use st5039cmd.Sandbox.Supervisor.{
  Supervised, Moment, Polled, alive, gone, poll_failed, poll_workload,
}
use st5039cmd.Sandbox.Supervisor.Signal.{Delivery, signal_workload, sigterm, sigkill}

abbrev pub supervisor_poll_milliseconds : ℕ
supervisor_poll_milliseconds = 50

abbrev pub termination_grace_milliseconds : ℕ
termination_grace_milliseconds = 1000

abbrev pub force_kill_wait_milliseconds : ℕ
force_kill_wait_milliseconds = 5000

-- What one round of a loop meets: its poll, its SIGKILL, and whether `sleep_milliseconds` returns 0.
pub record Round : Type 0 where
  pub poll : Moment
  pub kill : Delivery
  pub sleeps : Bool

-- The returns 0, 1 and -1, and a loop that has no fuel left.
pub data WaitResult : Type 0 where
  exited timed_out wait_error out_of_fuel : WaitResult

module _ (active : Bool) where
  unfoldable pub repeat_kill : (repeat_sigkill : Bool) → Delivery → Supervised → Supervised
  repeat_kill true d s = (signal_workload active sigkill d s).0
  repeat_kill false d s = s

  -- The loop: fuel, the round's number, `waited_milliseconds` of 32 bits.
  unfoldable pub wait_from :
      (rounds : ℕ → Round) (timeout_milliseconds : ℕ) (repeat_sigkill : Bool)
      → (fuel round waited : ℕ) → Supervised
      → Supervised × WaitResult
  wait_from rounds timeout_milliseconds repeat_sigkill zero round waited s = (s, out_of_fuel)
  wait_from rounds timeout_milliseconds repeat_sigkill (suc fuel) round waited s =
      let here = rounds round in
      let (polled, seen) = poll_workload active here.poll s in
      elim seen [
        | poll_failed ↦ (polled, wait_error)
        | gone ↦ (polled, exited)
        | alive ↦
            let next = repeat_kill repeat_sigkill here.kill polled in
            elim (leb timeout_milliseconds waited) [
              | true ↦ (next, timed_out)
              | false ↦ elim here.sleeps [
                | false ↦ (next, wait_error)
                | true ↦
                    wait_from rounds timeout_milliseconds repeat_sigkill fuel (round + 1)
                      ((waited + supervisor_poll_milliseconds) % 2 ^ 32) next
              ]
            ]
      ]

  -- One round per 50 milliseconds, the first at 0 and the last at or beyond the timeout.
  unfoldable pub wait_for_workload_exit :
      (ℕ → Round) → ℕ → Bool → Supervised → Supervised × WaitResult
  unfolding wait_from
  wait_for_workload_exit rounds timeout_milliseconds repeat_sigkill s =
      wait_from rounds timeout_milliseconds repeat_sigkill
        (timeout_milliseconds / supervisor_poll_milliseconds + 2) 0 0 s

  -- What a termination meets.
  pub record Ending : Type 0 where
    pub term : Delivery
    pub grace : ℕ → Round
    pub kill : Delivery
    pub force : ℕ → Round

  pub force_exit : Ending → Supervised → Supervised × Bool
  force_exit e s =
      let (after, result) =
        wait_for_workload_exit e.force force_kill_wait_milliseconds true
          (signal_workload active sigkill e.kill s).0 in
      elim result [
        | exited ↦ (after, true)
        | timed_out ↦ (after, false)
        | wait_error ↦ (after, false)
        | out_of_fuel ↦ (after, false)
      ]

  -- Whether 0 is returned; the reason is only logged.
  unfoldable pub terminate_workload : Ending → Supervised → Supervised × Bool
  unfolding force_exit
  terminate_workload e s =
      let (after, result) =
        wait_for_workload_exit e.grace termination_grace_milliseconds false
          (signal_workload active sigterm e.term s).0 in
      elim result [
        | exited ↦ (after, true)
        | timed_out ↦ force_exit e after
        | wait_error ↦ force_exit e after
        | out_of_fuel ↦ force_exit e after
      ]
