-- ===== src/Sandbox/Sleep.antt =====
-- Sandbox/monitor.c: `sleep_milliseconds`, which Sandbox/Sandbox.c holds a second time. The model holds
-- one answer of `nanosleep` for each round of the loop, with the time that passed in it.
pub mod Elapsed
pub mod Tests
use st5039cmd.Base.{ℕ, ◌+◌, ◌*◌, ◌/◌, ◌%◌, List, [], ◌∷◌}
use st5039cmd.Sandbox.Monitor.Timeout.{Timespec}

-- 0; EINTR, with what is left; another error.
pub data SleepResult : Type 0 where
  slept sleep_failed : SleepResult
  interrupted : (remaining : Timespec) → SleepResult

pub record SleepAnswer : Type 0 where
  pub result : SleepResult
  pub nanoseconds : ℕ

-- Returned 0, returned -1, or still in `nanosleep`.
pub data Sleep : Type 0 where
  done failed sleeping : Sleep

abbrev pub delay_of : (milliseconds : ℕ) → Timespec
delay_of milliseconds = record {
  tv_sec = milliseconds / 1000;
  tv_nsec = milliseconds % 1000 * 1000000;
}

-- How the loop ends, the delays that it asked for, and the time that it took.
pub record Slept : Type 0 where
  pub ending : Sleep
  pub delays : List Timespec
  pub nanoseconds : ℕ

abbrev pub ending_with : Timespec → SleepAnswer → Sleep → Slept
ending_with delay a e = record { ending = e; delays = (delay ∷ []); nanoseconds = a.nanoseconds }

pub after_round : Timespec → SleepAnswer → Slept → Slept
after_round delay a rest = record rest {
  delays = (delay ∷ rest.delays);
  nanoseconds = a.nanoseconds + rest.nanoseconds;
}

unfoldable pub sleep_from : Timespec → List SleepAnswer → Slept
unfolding after_round
sleep_from delay [] = record { ending = sleeping; delays = (delay ∷ []); nanoseconds = 0 }
sleep_from delay (a ∷ answers) = elim a.result [
  | slept ↦ ending_with delay a done
  | sleep_failed ↦ ending_with delay a failed
  | interrupted remaining ↦ after_round delay a (sleep_from remaining answers)
]

unfoldable pub sleep_milliseconds : ℕ → List SleepAnswer → Slept
unfolding sleep_from
sleep_milliseconds milliseconds answers = sleep_from (delay_of milliseconds) answers
