-- ===== src/Sandbox/Monitor/Cpu.antt =====
-- Sandbox/monitor.c: `cpu_monitor_thread`, with the lines that it logs. The percentage, a floating-point
-- quotient of the logged difference and the time between, is not modelled.
pub mod Observes
use st5039cmd.Base.{
  ℕ, ◌-◌, Bool, true, false, ◌&&◌, List, [], ◌∷◌, ◌++◌, Option, none, some, ltb, leb, ◌==◌,
  if◌then◌else◌,
}
use st5039cmd.Base.Int.{ℤ, is_positive}
use st5039cmd.Sandbox.State.{SandboxState, monitor_error}
use st5039cmd.Sandbox.ProcessTree.Sample.{ProcessTreeSample, saturating_add}
use st5039cmd.Sandbox.Supervisor
use st5039cmd.Sandbox.Supervisor.{sample}
use st5039cmd.Sandbox.Monitor.{Round, Look, quits, asks, goes_on, Watched, request, watch}
use st5039cmd.Sandbox.Monitor.Timeout.{Timespec, elapsed_milliseconds}

-- A round, with what the sample meets and the answer of `clock_gettime`.
pub record CpuRound : Type 0 where
  pub round : Round
  pub look : Supervisor.Look
  pub clock : Option Timespec

-- The two lines that are logged: how many processes, and their ticks; and what the usage is computed
-- from.
pub data CpuLine : Type 0 where
  baseline : (processes user system : ℕ) → CpuLine
  usage : (processes delta_ticks wall_milliseconds user system : ℕ) → CpuLine

-- `previous_total_ticks` and `previous_time`, if there is a previous sample, and the lines so far.
pub record CpuLog : Type 0 where
  pub previous : Option (ℕ × Timespec)
  pub lines : List CpuLine

pub usage_line : ProcessTreeSample → (delta_ticks wall_milliseconds : ℕ) → List CpuLine
usage_line t delta_ticks wall_milliseconds =
    if ltb 0 wall_milliseconds
    then usage t.process_count delta_ticks wall_milliseconds t.user_ticks t.system_ticks ∷ []
    else []

pub lines_for : Option (ℕ × Timespec) → ℕ → Timespec → ProcessTreeSample → List CpuLine
lines_for none total now t = baseline t.process_count t.user_ticks t.system_ticks ∷ []
lines_for (some (before, previous_time)) total now t =
    if leb before total
    then usage_line t (total - before) (elapsed_milliseconds previous_time now)
    else baseline t.process_count t.user_ticks t.system_ticks ∷ []

-- The end of a round: the log, and the new previous sample.
pub note_sample : Timespec → ProcessTreeSample → CpuLog → CpuLog
note_sample now t l =
    let total = saturating_add t.user_ticks t.system_ticks in
    record { previous = some (total, now); lines = l.lines ++ lines_for l.previous total now t }

pub note_clock : Option Timespec → ProcessTreeSample → CpuLog → Look CpuLog
note_clock none t l = asks monitor_error l
note_clock (some now) t l = goes_on (note_sample now t l)

pub note_tree : Option ProcessTreeSample → Option Timespec → CpuLog → Look CpuLog
note_tree none clock l = asks monitor_error l
note_tree (some t) clock l = if t.process_count == 0 then quits else note_clock clock t l

unfoldable pub cpu_look : CpuRound → SandboxState → CpuLog → Look CpuLog
unfolding usage_line lines_for note_sample note_clock note_tree
cpu_look r seen l = note_tree (sample r.look seen) r.clock l

abbrev pub no_lines : CpuLog
no_lines = record { previous = none; lines = [] }

-- The thread: what `sysconf(_SC_CLK_TCK)` returns, what the request for its failure meets, the rounds.
unfoldable pub cpu_monitor_thread :
    (ticks_per_second : ℤ) → Round → List CpuRound → SandboxState → Watched CpuLog
unfolding request cpu_look
cpu_monitor_thread ticks_per_second first rounds s =
    if is_positive ticks_per_second
    then watch (λ r. r.round) cpu_look rounds no_lines s
    else record { state = request first monitor_error s; own = no_lines; returned = true }
