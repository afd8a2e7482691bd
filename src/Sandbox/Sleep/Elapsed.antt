-- ===== src/Sandbox/Sleep/Elapsed.antt =====
-- A sleep is never cut short.
use st5039cmd.Base.{ℕ, ◌+◌, ◌*◌, ◌≤◌, ◌<◌, ◌≡◌, ◌≢◌, refl, List, [], ◌∷◌, All, arith, ◌⊎◌, inl, inr}
use st5039cmd.Sandbox.Monitor.Timeout.{Timespec}
use st5039cmd.Sandbox.Sleep.{
  SleepResult, slept, sleep_failed, interrupted, SleepAnswer, Sleep, done, failed, sleeping, Slept,
  after_round, sleep_from, delay_of, sleep_milliseconds,
}

abbrev pub nanoseconds_of : Timespec → ℕ
nanoseconds_of t = t.tv_sec * 1000000000 + t.tv_nsec

abbrev pub IsValidDelay : Timespec → Type 0
IsValidDelay t = t.tv_nsec < 1000000000

-- `nanosleep` returns 0 only behind the whole delay, and otherwise counts what is left of it.
abbrev pub TakesTime : Timespec → ℕ → SleepResult → Type 0
TakesTime delay taken slept = nanoseconds_of delay ≤ taken
TakesTime delay taken sleep_failed = Unit {0}
TakesTime delay taken (interrupted remaining) =
    IsValidDelay remaining × (nanoseconds_of delay ≤ taken + nanoseconds_of remaining)

abbrev pub next_delay : Timespec → SleepResult → Timespec
next_delay delay (interrupted remaining) = remaining
next_delay delay slept = delay
next_delay delay sleep_failed = delay

unfoldable pub KeepsTime : Timespec → List SleepAnswer → Type 0
KeepsTime delay [] = Unit {0}
KeepsTime delay (a ∷ answers) =
    TakesTime delay a.nanoseconds a.result × KeepsTime (next_delay delay a.result) answers

-- The loop has slept for its first delay when it ends with 0, and never asks for an invalid one.
abbrev pub IsLongEnough : Timespec → Slept → Type 0
IsLongEnough delay s =
    All IsValidDelay s.delays × (s.ending ≡ done → nanoseconds_of delay ≤ s.nanoseconds)

sleep_from-interrupted :
    (delay remaining : Timespec) (a : SleepAnswer) (rest : Slept)
    → IsValidDelay delay
    → IsValidDelay remaining × (nanoseconds_of delay ≤ a.nanoseconds + nanoseconds_of remaining)
    → IsLongEnough remaining rest
    → IsLongEnough delay (after_round delay a rest)
unfolding after_round
sleep_from-interrupted delay remaining a rest ok (fits, takes) (valid, enough) =
    ((ok, valid), λ h. omega (arith, takes, enough h))

sleep_from-IsLongEnough :
    (answers : List SleepAnswer) (delay : Timespec)
    → IsValidDelay delay
    → KeepsTime delay answers
    → IsLongEnough delay (sleep_from delay answers)
unfolding sleep_from KeepsTime
sleep_from-IsLongEnough [] delay ok h = ((ok, tt), λ e. cc)
sleep_from-IsLongEnough (a ∷ answers) delay ok h =
    go (λ r. sleep_from-IsLongEnough answers r) a.result refl h
  where
    go :
        ((r : Timespec)
          → IsValidDelay r
          → KeepsTime r answers
          → IsLongEnough r (sleep_from r answers))
        → (r : SleepResult) → a.result ≡ r
        → TakesTime delay a.nanoseconds r × KeepsTime (next_delay delay r) answers
        → IsLongEnough delay (sleep_from delay (a ∷ answers))
    go later slept e (takes, rest) = rw e ((ok, tt), λ h. takes)
    go later sleep_failed e (takes, rest) = rw e ((ok, tt), λ h. cc)
    go later (interrupted remaining) e (takes, rest) = rw e (
        sleep_from-interrupted delay remaining a (sleep_from remaining answers) ok takes
          (later remaining takes.0 rest))

ending-cases : (e : Sleep) → (e ≡ done) ⊎ (e ≢ done)
ending-cases done = inl refl
ending-cases failed = inr (λ e. cc)
ending-cases sleeping = inr (λ e. cc)

-- However often a signal interrupts it: the call never asks `nanosleep` for an invalid delay, and
-- either it has not returned 0, or at least the given number of milliseconds has passed.
pub sleep_milliseconds-Elapsed :
    (milliseconds : ℕ) (answers : List SleepAnswer)
    → KeepsTime (delay_of milliseconds) answers
    → All IsValidDelay (sleep_milliseconds milliseconds answers).delays
      × (((sleep_milliseconds milliseconds answers).ending ≢ done)
          ⊎ (milliseconds * 1000000 ≤ (sleep_milliseconds milliseconds answers).nanoseconds))
unfolding sleep_milliseconds
sleep_milliseconds-Elapsed milliseconds answers h =
    let delay = delay_of milliseconds in
    let (valid, enough) = sleep_from-IsLongEnough answers delay (omega arith) h in
    (
      valid,
      elim (ending-cases (sleep_from delay answers).ending) [
        | inl e ↦ inr (omega (arith, enough e))
        | inr other ↦ inl other
      ],
    )
