-- ===== src/Sandbox/Monitor/Tests.antt =====
-- The monitors at small runs: a limit of two seconds that passes, a cgroup that grows over its limit.
use st5039cmd.Base.{
  ℕ, ◌+◌, ◌*◌, ◌^◌, ◌≤◌, ◌<◌, ◌≡◌, ◌≢◌, ◌⊎◌, inl, inr, refl, arith, true, List, [], ◌∷◌, Any, some,
}
use st5039cmd.Base.Int.{pos}
use st5039cmd.Sandbox.State.{sound_mutex, timeout, memory_limit, run, snapshot, request_termination}
use st5039cmd.Sandbox.State.Tests.{live_state}
use st5039cmd.Sandbox.Supervisor.Tests.{look}
use st5039cmd.Sandbox.Monitor.{Round, watch}
use st5039cmd.Sandbox.Monitor.Frame.{IsSettled}
use st5039cmd.Sandbox.Monitor.Timeout.{
  Timespec, TimeoutRound, elapsed_milliseconds, timeout_monitor_thread,
}
use st5039cmd.Sandbox.Monitor.Timeout.Due.{
  nanoseconds, Due, NotEarly, elapsed_milliseconds_close, timeout_monitor_thread-IsSettled,
  timeout_monitor_thread-NotEarly, timeout_monitor_thread_returns,
}
use st5039cmd.Sandbox.Monitor.Memory.{MemoryRound, read_memory, memory_monitor_thread}
use st5039cmd.Sandbox.Monitor.Memory.Over.{
  Empties, Exceeds, AlwaysExceeds, memory_monitor_thread-IsSettled, memory_monitor_thread-Exceeds,
}
use st5039cmd.Sandbox.Monitor.Cpu.{CpuRound, cpu_monitor_thread}
use st5039cmd.Sandbox.Monitor.Cpu.Observes.{cpu_monitor_thread-observes}

abbrev calm : Round
calm = record {
  earlier = [];
  snapshot_mutex = sound_mutex;
  between = [];
  request_mutex = sound_mutex;
  sleeps = true;
}

abbrev at_second : ℕ → Timespec
at_second n = record { tv_sec = n; tv_nsec = 500 }

abbrev timeout_rounds : List TimeoutRound
timeout_rounds =
    record { round = calm; clock = some (at_second 11) }
    ∷ record { round = calm; clock = some (at_second 12) }
    ∷ []

elapsed_milliseconds_close_example :
    let start = at_second 10 in
    let current : Timespec = record { tv_sec = 12; tv_nsec = 100 } in
    (elapsed_milliseconds start current * 1000000 + nanoseconds start
      < nanoseconds current + 1000000)
    × (nanoseconds current
        < elapsed_milliseconds start current * 1000000 + nanoseconds start + 1000000)
elapsed_milliseconds_close_example =
    elapsed_milliseconds_close (at_second 10) (record { tv_sec = 12; tv_nsec = 100 })
      (omega arith, omega arith) (omega arith, omega arith) (omega arith)

second_round : Any (Due (at_second 10) (2 * 1000)) timeout_rounds
unfolding elapsed_milliseconds
second_round = inr (inl (at_second 12, refl, omega arith))

timeout_returns :
    (timeout_monitor_thread 2 (some (at_second 10)) calm timeout_rounds live_state).returned ≡ true
timeout_returns =
    timeout_monitor_thread_returns 2 (at_second 10) calm timeout_rounds live_state second_round

watches_the_clock :
    (timeout_monitor_thread 2 (some (at_second 10)) calm timeout_rounds live_state).returned ≡ true
watches_the_clock =
    timeout_monitor_thread_returns 2 (at_second 10) calm timeout_rounds live_state second_round

timeout_monitor_thread-IsSettled_example :
    IsSettled (timeout_monitor_thread 2 (some (at_second 10)) calm timeout_rounds live_state).state
timeout_monitor_thread-IsSettled_example =
    timeout_monitor_thread-IsSettled 2 (some (at_second 10)) calm timeout_rounds live_state
      ((refl, refl, refl), ((refl, refl, refl), ((refl, refl, refl), tt))) watches_the_clock

times_out :
    (timeout_monitor_thread 2
      (some (at_second 10))
      calm
      timeout_rounds
      live_state).state.termination_reason
    ≡ timeout
unfolding timeout_monitor_thread watch elapsed_milliseconds run snapshot request_termination
times_out = refl

timeout_monitor_thread-NotEarly_example : Any (NotEarly 2 (at_second 10)) timeout_rounds
timeout_monitor_thread-NotEarly_example =
    timeout_monitor_thread-NotEarly 2 (at_second 10) calm timeout_rounds live_state
      (omega arith, omega arith)
      (
        (λ current e. some_time 11 current e (omega arith) (omega arith)),
        ((λ current e. some_time 12 current e (omega arith) (omega arith)), tt),
      )
      (λ e. cc) ((tt, tt), ((tt, tt), tt)) times_out
  where
    some_time :
        (n : ℕ) (current : Timespec)
        → some (at_second n) ≡ some current
        → n < 1000
        → 10 ≤ n
        → ((current.tv_nsec < 1000000000) × (current.tv_sec < 2 ^ 53))
          × (nanoseconds (at_second 10) ≤ nanoseconds current)
    some_time n current e small later =
        let s : n ≡ current.tv_sec = cc in
        let k : 500 ≡ current.tv_nsec = cc in ((omega arith, omega arith), omega arith)

abbrev grows : ℕ → MemoryRound
grows kilobytes = record {
  round = calm;
  populated = some true;
  cgroup_memory = some kilobytes;
  look = look;
}

abbrev memory_rounds : List MemoryRound
memory_rounds = (grows 100 ∷ grows 3000 ∷ [])

memory_settles :
    IsSettled (memory_monitor_thread true 2048 memory_rounds live_state).state
    ⊎ Any
        (Empties true 2048 (memory_monitor_thread true 2048 memory_rounds live_state).state)
        memory_rounds
unfolding memory_monitor_thread watch read_memory run snapshot
memory_settles =
    memory_monitor_thread-IsSettled true 2048 memory_rounds live_state
      ((refl, refl, refl), ((refl, refl, refl), tt)) refl

memory_monitor_thread-Exceeds_example :
    let left = memory_monitor_thread true 2048 memory_rounds live_state in
    (left.state.termination_reason ≡ memory_limit
      → Any (Exceeds true 2048 left.state) memory_rounds)
    × (Any (AlwaysExceeds true 2048) memory_rounds → left.returned ≡ true)
memory_monitor_thread-Exceeds_example =
    memory_monitor_thread-Exceeds true 2048 memory_rounds live_state (λ e. cc)
      ((tt, tt), ((tt, tt), tt))

abbrev cpu_rounds : List CpuRound
cpu_rounds = (record { round = calm; look = look; clock = some (at_second 10) } ∷ [])

cpu_monitor_observes :
    (cpu_monitor_thread (pos 100) calm cpu_rounds live_state).state.termination_reason ≢ timeout
cpu_monitor_observes =
    cpu_monitor_thread-observes (pos 100) calm cpu_rounds live_state timeout (λ e. cc) (λ e. cc)
      (tt, tt) ((tt, tt), tt)
