-- ===== src/Sandbox/Monitor/Timeout/Due.antt =====
-- When the timeout monitor asks for the end of the workload.
use st5039cmd.Base.{
  ℕ, ◌+◌, ◌-◌, ◌*◌, ◌/◌, ◌^◌, ◌≤◌, ◌<◌, ◌≡◌, ◌≢◌, inl, inr, true, List, [], ◌∷◌, All, Any, Option,
  none, some, leb, leb→le, arith, Bool-cases, Option-cases,
}
use st5039cmd.Sandbox.State.{SandboxState, timeout, monitor_error}
use st5039cmd.Sandbox.Monitor.{Round, asks, goes_on}
use st5039cmd.Sandbox.Monitor.Frame.{IsSettled, IsSound, Quitting, request-IsSettled}
use st5039cmd.Sandbox.Monitor.Watching.{
  Alone, Asking, Reasons, Stops, watch-IsSettled, watch-Asking, watch_returns,
}
use st5039cmd.Sandbox.Monitor.Timeout.{
  Timespec, elapsed_milliseconds, TimeoutRound, timeout_look, timeout_monitor_thread,
}

-- A clock's answer: less than a second of nanoseconds, and seconds far from the end of `time_t`.
abbrev pub IsTime : Timespec → Type 0
IsTime t = (t.tv_nsec < 1000000000) × (t.tv_sec < 2 ^ 53)

abbrev pub nanoseconds : Timespec → ℕ
nanoseconds t = t.tv_sec * 1000000000 + t.tv_nsec

-- For two times of a clock that does not run backwards, the elapsed milliseconds are less than one
-- millisecond away from the elapsed time, in either direction, and do not wrap around.
pub elapsed_milliseconds_close :
    (start current : Timespec)
    → IsTime start
    → IsTime current
    → nanoseconds start ≤ nanoseconds current
    → (elapsed_milliseconds start current * 1000000 + nanoseconds start
        < nanoseconds current + 1000000)
      × (nanoseconds current
          < elapsed_milliseconds start current * 1000000 + nanoseconds start + 1000000)
unfolding elapsed_milliseconds
elapsed_milliseconds_close start current hs hc later =
    elim (Bool-cases (
      leb (start.tv_sec * 1000 + (start.tv_nsec - current.tv_nsec) / 1000000)
        (current.tv_sec * 1000 + (current.tv_nsec - start.tv_nsec) / 1000000))) [
          | inl forward ↦ rw forward (omega (arith, leb→le), omega (arith, leb→le))
          | inr backward ↦ absurd (ground (arith, backward))
        ]

-- The limit has passed at this time.
abbrev pub IsDue : ℕ → Timespec → Timespec → Type 0
IsDue timeout_seconds start current = timeout_seconds * 1000 ≤ elapsed_milliseconds start current

module _ (start : Timespec) (limit : ℕ) where
  -- The three ways of a look.
  data TimeoutLook (r : TimeoutRound) (seen : SandboxState) (own : Unit {0}) : Type 0 where
    failed : timeout_look start limit r seen own ≡ asks monitor_error tt → TimeoutLook r seen own
    due :
        (current : Timespec)
        → r.clock ≡ some current
        → limit ≤ elapsed_milliseconds start current
        → timeout_look start limit r seen own ≡ asks timeout tt
        → TimeoutLook r seen own
    early :
        (current : Timespec)
        → r.clock ≡ some current
        → elapsed_milliseconds start current < limit
        → timeout_look start limit r seen own ≡ goes_on tt
        → TimeoutLook r seen own

  TimeoutLook-cases :
      (r : TimeoutRound) (seen : SandboxState) (own : Unit {0}) → TimeoutLook r seen own
  unfolding timeout_look
  TimeoutLook-cases r seen own = elim (Option-cases r.clock) [
    | inl silent ↦ failed (rw (silent, timeout_look))
    | inr (current, told) ↦ elim (Bool-cases (leb limit (elapsed_milliseconds start current))) [
      | inl late ↦ due current told (leb→le _ _ late) (rw (told, late, timeout_look))
      | inr soon ↦ early current told (ground (arith, soon)) (rw (told, soon, timeout_look))
    ]
  ]

  timeout_look-Reasons : Reasons (λ r. r.round) (timeout_look start limit)
  timeout_look-Reasons r seen own own' why e = elim (TimeoutLook-cases r seen own) [
    | failed f ↦ λ i. cc
    | due _ _ _ f ↦ λ i. cc
    | early _ _ _ f ↦ λ i. cc
  ]

  timeout_look-stays :
      (left : SandboxState) (rs : List TimeoutRound)
      → Any (Quitting (λ r. r.round) (timeout_look start limit) left) rs
      → ⊥
  timeout_look-stays left [] h = h
  timeout_look-stays left (r ∷ rs) (inr later) = timeout_look-stays left rs later
  timeout_look-stays left (r ∷ rs) (inl q) = elim (TimeoutLook-cases r left q.own) [
    | failed f ↦ cc (q.quit)
    | due _ _ _ f ↦ cc (q.quit)
    | early _ _ _ f ↦ cc (q.quit)
  ]

  -- The round at which the limit has passed.
  abbrev pub Due : TimeoutRound → Type 0
  Due r =
      (current : Timespec) × (r.clock ≡ some current) × (limit ≤ elapsed_milliseconds start current)

  timeout_look-asked :
      (left : SandboxState) (r : TimeoutRound)
      → Asking (λ r. r.round) (timeout_look start limit) timeout left r
      → Due r
  timeout_look-asked left r q = elim (TimeoutLook-cases r q.seen q.own) [
    | failed f ↦ cc (q.ask)
    | due current told late f ↦ (current, told, late)
    | early _ _ _ f ↦ cc (q.ask)
  ]

  timeout_look-Stops :
      (r : TimeoutRound) → Due r → Stops (λ r. r.round) (timeout_look start limit) r
  timeout_look-Stops r (now, told, late) seen own own' e = elim (TimeoutLook-cases r seen own) [
    | failed f ↦ cc
    | due _ _ _ f ↦ cc
    | early current told' soon f ↦
        let same : now ≡ current = cc in absurd (omega (arith, rw same at late))
  ]

  Due-Stops :
      (rs : List TimeoutRound)
      → Any Due rs
      → Any (Stops (λ r. r.round) (timeout_look start limit)) rs
  Due-Stops [] h = h
  Due-Stops (r ∷ rs) (inl here) = inl (timeout_look-Stops r here)
  Due-Stops (r ∷ rs) (inr later) = inr (Due-Stops rs later)

-- What the thread meets: a sound mutex in all its calls.
abbrev pub AllSound : Round → List TimeoutRound → Type 0
AllSound first rounds = IsSound first × All (λ r. IsSound r.round) rounds

-- The timeout monitor never leaves a live workload unwatched: when it has returned, with a mutex that
-- works, the workload is gone or its end has been asked for.
pub timeout_monitor_thread-IsSettled :
    (seconds : ℕ) (start : Option Timespec) (first : Round) (rounds : List TimeoutRound)
    (s : SandboxState)
    → AllSound first rounds
    → (timeout_monitor_thread seconds start first rounds s).returned ≡ true
    → IsSettled (timeout_monitor_thread seconds start first rounds s).state
unfolding timeout_monitor_thread
timeout_monitor_thread-IsSettled seconds none first rounds s h e =
    request-IsSettled first monitor_error s h.0 (λ i. cc)
timeout_monitor_thread-IsSettled seconds (some start) first rounds s h e =
    elim (watch-IsSettled (λ r. r.round) (timeout_look start (seconds * 1000)) rounds tt s
      (timeout_look-Reasons start (seconds * 1000)) h.1 e) [
        | inl settled ↦ settled
        | inr q ↦ absurd (timeout_look-stays start (seconds * 1000) _ rounds q)
      ]

-- The timeout monitor returns at the latest in a round whose clock is past the limit.
pub timeout_monitor_thread_returns :
    (seconds : ℕ) (start : Timespec) (first : Round) (rounds : List TimeoutRound) (s : SandboxState)
    → Any (Due start (seconds * 1000)) rounds
    → (timeout_monitor_thread seconds (some start) first rounds s).returned ≡ true
unfolding timeout_monitor_thread
timeout_monitor_thread_returns seconds start first rounds s h =
    watch_returns (λ r. r.round) (timeout_look start (seconds * 1000)) rounds tt s
      (Due-Stops start (seconds * 1000) rounds h)

-- The clock's answers in the rounds are times that do not lie before the start.
abbrev pub IsSteady : Timespec → TimeoutRound → Type 0
IsSteady start r =
    (current : Timespec)
    → r.clock ≡ some current
    → IsTime current × (nanoseconds start ≤ nanoseconds current)

-- The request was due in a round: less than a millisecond of the limit was left then.
abbrev pub NotEarly : ℕ → Timespec → TimeoutRound → Type 0
NotEarly seconds start r =
    (current : Timespec) × (r.clock ≡ some current)
    × (nanoseconds start + seconds * 1000000000 < nanoseconds current + 1000000)

Due-NotEarly :
    (seconds : ℕ) (start : Timespec) (r : TimeoutRound)
    → IsTime start
    → IsSteady start r
    → Due start (seconds * 1000) r
    → NotEarly seconds start r
Due-NotEarly seconds start r hs steady (current, told, late) =
    let (valid, later) = steady current told in
    (current, told, omega (arith, elapsed_milliseconds_close start current hs valid later))

asked-NotEarly :
    (seconds : ℕ) (start : Timespec) (left : SandboxState) (rounds : List TimeoutRound)
    → IsTime start
    → All (IsSteady start) rounds
    → Any (Asking (λ r. r.round) (timeout_look start (seconds * 1000)) timeout left) rounds
    → Any (NotEarly seconds start) rounds
asked-NotEarly seconds start left [] hs steady h = h
asked-NotEarly seconds start left (r ∷ rs) hs steady (inl here) = inl (
    Due-NotEarly seconds start r hs steady.0
      (timeout_look-asked start (seconds * 1000) left r here))
asked-NotEarly seconds start left (r ∷ rs) hs steady (inr later) =
    inr (asked-NotEarly seconds start left rs hs steady.1 later)

-- If a termination for a timeout is in the state that the monitor leaves, and nobody else asks for
-- one, then at some round of the monitor the time since its start was the limit, or less than a
-- millisecond short of it.
pub timeout_monitor_thread-NotEarly :
    (seconds : ℕ) (start : Timespec) (first : Round) (rounds : List TimeoutRound) (s : SandboxState)
    → IsTime start
    → All (IsSteady start) rounds
    → s.termination_reason ≢ timeout
    → All (λ r. Alone timeout r.round) rounds
    → (timeout_monitor_thread seconds (some start) first rounds s).state.termination_reason
      ≡ timeout
    → Any (NotEarly seconds start) rounds
unfolding timeout_monitor_thread
timeout_monitor_thread-NotEarly seconds start first rounds s hs steady fresh alone e =
    asked-NotEarly seconds start _ rounds hs steady (
      watch-Asking (λ r. r.round) (timeout_look start (seconds * 1000)) timeout rounds tt s
        (λ i. cc) fresh alone e)
