-- ===== src/Sandbox/Sleep/Tests.antt =====
-- A sleep that a signal interrupts.
use st5039cmd.Base.{◌*◌, ◌≤◌, ◌≡◌, ◌≢◌, ◌⊎◌, refl, arith, List, [], ◌∷◌, All}
use st5039cmd.Sandbox.Sleep.{SleepAnswer, slept, interrupted, done, sleep_from, sleep_milliseconds}
use st5039cmd.Sandbox.Sleep.Elapsed.{IsValidDelay, KeepsTime, sleep_milliseconds-Elapsed}

-- A signal after 30 of 50 milliseconds.
abbrev two_rounds : List SleepAnswer
two_rounds =
    (record {
      result = interrupted (record { tv_sec = 0; tv_nsec = 20000000 });
      nanoseconds = 30000000;
    }
      ∷ record { result = slept; nanoseconds = 20000100 }
      ∷ [])

time_kept : KeepsTime (record { tv_sec = 0; tv_nsec = 50000000 }) two_rounds
unfolding KeepsTime
time_kept = ((omega arith, omega arith), (omega arith, tt))

sleeps_on : (sleep_milliseconds 50 two_rounds).nanoseconds ≡ 50000100
unfolding sleep_milliseconds sleep_from
sleeps_on = refl

sleep_milliseconds-Elapsed_example :
    All IsValidDelay (sleep_milliseconds 50 two_rounds).delays
    × (((sleep_milliseconds 50 two_rounds).ending ≢ done)
        ⊎ (50 * 1000000 ≤ (sleep_milliseconds 50 two_rounds).nanoseconds))
sleep_milliseconds-Elapsed_example = sleep_milliseconds-Elapsed 50 two_rounds time_kept
