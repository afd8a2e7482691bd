-- ===== src/Sandbox/Monitor/Memory/Over.antt =====
-- When the memory monitor asks for the end of the workload, and what it logs.
use st5039cmd.Base.{
  ℕ, ◌≤◌, ◌<◌, ◌≡◌, ◌≢◌, ◌⊎◌, inl, inr, refl, ◌∙◌, Bool, true, List, [], ◌∷◌, All, Any, leb, leb→le,
  arith, Bool-cases,
}
use st5039cmd.Sandbox.State.{SandboxState, memory_limit, monitor_error}
use st5039cmd.Sandbox.Monitor.{quits, asks, goes_on, request}
use st5039cmd.Sandbox.Monitor.Frame.{IsSettled, IsSound, Quitting}
use st5039cmd.Sandbox.Monitor.Watching.{
  Alone, Asking, Reasons, Stops, watch-IsSettled, watch-Asking, watch_returns,
}
use st5039cmd.Sandbox.Monitor.Memory.{
  MemoryRound, Reading, unreadable, nobody, sampled, MemoryLog, fresh_log, read_memory, log_sample,
  judge, memory_look, memory_monitor_thread,
}

module _ (active : Bool) (limit : ℕ) where
  -- The ways of a look.
  data MemoryLook (r : MemoryRound) (seen : SandboxState) (l : MemoryLog) : Type 0 where
    failed : memory_look active limit r seen l ≡ asks monitor_error l → MemoryLook r seen l
    empty :
        read_memory active r seen ≡ nobody
        → memory_look active limit r seen l ≡ quits
        → MemoryLook r seen l
    over :
        (now : ℕ)
        → read_memory active r seen ≡ sampled now
        → limit ≤ now
        → memory_look active limit r seen l ≡ asks memory_limit (log_sample limit now l)
        → MemoryLook r seen l
    below :
        (now : ℕ)
        → read_memory active r seen ≡ sampled now
        → now < limit
        → memory_look active limit r seen l ≡ goes_on (log_sample limit now l)
        → MemoryLook r seen l

  memory_look-reads :
      (r : MemoryRound) (seen : SandboxState) (l : MemoryLog) (m : Reading)
      → read_memory active r seen ≡ m
      → memory_look active limit r seen l ≡ judge limit m l
  unfolding memory_look
  memory_look-reads r seen l m e = rw e

  judged :
      (r : MemoryRound) (seen : SandboxState) (l : MemoryLog) (m : Reading)
      → read_memory active r seen ≡ m
      → MemoryLook r seen l
  unfolding judge
  judged r seen l unreadable e = failed (memory_look-reads r seen l unreadable e)
  judged r seen l nobody e = empty e (memory_look-reads r seen l nobody e)
  judged r seen l (sampled now) e = elim (Bool-cases (leb limit now)) [
    | inl high ↦
        over now e (leb→le limit now high)
          (memory_look-reads r seen l (sampled now) e ∙ rw (high, judge))
    | inr low ↦
        below now e (ground (arith, low))
          (memory_look-reads r seen l (sampled now) e ∙ rw (low, judge))
  ]

  MemoryLook-cases : (r : MemoryRound) (seen : SandboxState) (l : MemoryLog) → MemoryLook r seen l
  MemoryLook-cases r seen l = judged r seen l (read_memory active r seen) refl

  memory_look-Reasons : Reasons (λ r. r.round) (memory_look active limit)
  memory_look-Reasons r seen own own' why e = elim (MemoryLook-cases r seen own) [
    | failed f ↦ λ i. cc
    | empty _ f ↦ λ i. cc
    | over _ _ _ f ↦ λ i. cc
    | below _ _ _ f ↦ λ i. cc
  ]

  -- The round's reading finds nobody.
  abbrev pub Empties : SandboxState → MemoryRound → Type 0
  Empties seen r = read_memory active r seen ≡ nobody

  memory_look-left :
      (left : SandboxState) (rs : List MemoryRound)
      → Any (Quitting (λ r. r.round) (memory_look active limit) left) rs
      → Any (Empties left) rs
  memory_look-left left [] h = h
  memory_look-left left (r ∷ rs) (inr later) = inr (memory_look-left left rs later)
  memory_look-left left (r ∷ rs) (inl q) = elim (MemoryLook-cases r left q.own) [
    | failed f ↦ cc (q.quit)
    | empty e f ↦ inl e
    | over _ _ _ f ↦ cc (q.quit)
    | below _ _ _ f ↦ cc (q.quit)
  ]

  -- The round's reading was at the limit or above, and its request led to the state that is left.
  abbrev pub Exceeds : SandboxState → MemoryRound → Type 0
  Exceeds left r =
      (seen : SandboxState) × (now : ℕ) × (read_memory active r seen ≡ sampled now)
      × (limit ≤ now)
      × (left ≡ request r.round memory_limit seen)

  memory_look-asked :
      (left : SandboxState) (rs : List MemoryRound)
      → Any (Asking (λ r. r.round) (memory_look active limit) memory_limit left) rs
      → Any (Exceeds left) rs
  memory_look-asked left [] h = h
  memory_look-asked left (r ∷ rs) (inr later) = inr (memory_look-asked left rs later)
  memory_look-asked left (r ∷ rs) (inl q) = elim (MemoryLook-cases r q.seen q.own) [
    | failed f ↦ cc (q.ask)
    | empty _ f ↦ cc (q.ask)
    | over now e high f ↦ inl (q.seen, now, e, high, q.leads)
    | below _ _ _ f ↦ cc (q.ask)
  ]

  -- Whatever the state, the round's reading is at the limit or above.
  abbrev pub AlwaysExceeds : MemoryRound → Type 0
  AlwaysExceeds r =
      (seen : SandboxState) → (now : ℕ) × (read_memory active r seen ≡ sampled now) × (limit ≤ now)

  memory_look-Stops :
      (rs : List MemoryRound)
      → Any AlwaysExceeds rs
      → Any (Stops (λ r. r.round) (memory_look active limit)) rs
  memory_look-Stops [] h = h
  memory_look-Stops (r ∷ rs) (inr later) = inr (memory_look-Stops rs later)
  memory_look-Stops (r ∷ rs) (inl high) = inl (λ seen own own' e.
      elim (MemoryLook-cases r seen own) [
        | failed f ↦ cc
        | empty _ f ↦ cc
        | over _ _ _ f ↦ cc
        | below now told low f ↦
            let (now', told', enough) = high seen in
            let same : now ≡ now' = cc in absurd (omega arith)
      ])

  -- When the memory monitor has returned, with a mutex that works, the workload is gone or its end has
  -- been asked for, or a round's reading in the state that it leaves found nobody.
  pub memory_monitor_thread-IsSettled :
      (rounds : List MemoryRound) (s : SandboxState)
      → All (λ r. IsSound r.round) rounds
      → (memory_monitor_thread active limit rounds s).returned ≡ true
      → IsSettled (memory_monitor_thread active limit rounds s).state
        ⊎ Any (Empties (memory_monitor_thread active limit rounds s).state) rounds
  unfolding memory_monitor_thread
  memory_monitor_thread-IsSettled rounds s h e =
      elim (watch-IsSettled (λ r. r.round) (memory_look active limit) rounds fresh_log s
        memory_look-Reasons h e) [
          | inl settled ↦ inl settled
          | inr q ↦ inr (memory_look-left _ rounds q)
        ]

  -- If a termination for the memory limit is in the state that the monitor leaves, and nobody else
  -- asks for one, then the request was made for a reading at the limit or above. And it returns at the
  -- latest in a round whose reading is so whatever the state.
  pub memory_monitor_thread-Exceeds :
      (rounds : List MemoryRound) (s : SandboxState)
      → s.termination_reason ≢ memory_limit
      → All (λ r. Alone memory_limit r.round) rounds
      → ((memory_monitor_thread active limit rounds s).state.termination_reason ≡ memory_limit
          → Any (Exceeds (memory_monitor_thread active limit rounds s).state) rounds)
        × (Any AlwaysExceeds rounds → (memory_monitor_thread active limit rounds s).returned ≡ true)
  unfolding memory_monitor_thread
  memory_monitor_thread-Exceeds rounds s fresh alone = (
    λ e. memory_look-asked _ rounds (
        watch-Asking (λ r. r.round) (memory_look active limit) memory_limit rounds fresh_log s
          (λ i. cc) fresh alone e),
    λ high.
        watch_returns (λ r. r.round) (memory_look active limit) rounds fresh_log s
          (memory_look-Stops rounds high),
  )
