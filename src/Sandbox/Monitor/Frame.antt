-- ===== src/Sandbox/Monitor/Frame.antt =====
-- What every monitor guarantees by its frame: how it leaves the shared state, and which reasons it asks
-- for.
use st5039cmd.Base.{
  ◌≡◌, ◌≢◌, ◌⊎◌, inl, inr, refl, true, false, ◌&&◌, List, ◌∷◌, none, some, arith, Bool-cases,
}
use st5039cmd.Sandbox.State.{
  SandboxState, TerminationReason, no_reason, monitor_error, Mutex, run, snapshot,
  request_termination,
}
use st5039cmd.Sandbox.Monitor.{Round, Look, quits, asks, goes_on, request, is_over, watch}

-- Nothing is left to ask for: the workload is gone, or its end has been asked for.
abbrev pub IsSettled : SandboxState → Type 0
IsSettled s = (s.workload_alive ≡ false) ⊎ (s.termination_requested ≡ true)

-- The mutex can be had and released in the calls of the thread.
abbrev pub IsSound : Round → Type 0
IsSound k =
    (k.snapshot_mutex.locks ≡ true)
    × (k.snapshot_mutex.unlocks ≡ true)
    × (k.request_mutex.locks ≡ true)

request_termination-IsSettled :
    (m : Mutex) (why : TerminationReason) (s : SandboxState)
    → m.locks ≡ true
    → why ≢ no_reason
    → IsSettled (request_termination m why s).0
unfolding request_termination
request_termination-IsSettled m why s locked given = elim (Bool-cases s.workload_alive) [
  | inr dead ↦ inl (ground (arith, dead))
  | inl alive ↦ inr (ground (arith, alive, locked, given))
]

pub request-IsSettled :
    (k : Round) (why : TerminationReason) (s : SandboxState)
    → IsSound k
    → why ≢ no_reason
    → IsSettled (request k why s)
unfolding request
request-IsSettled k why s h given =
    request_termination-IsSettled k.request_mutex why (run s k.between) h.2 given

pub is_over-IsSettled : (s : SandboxState) → is_over s ≡ true → IsSettled s
unfolding is_over
is_over-IsSettled s h = elim (Bool-cases s.workload_alive) [
  | inr dead ↦ inl dead
  | inl alive ↦ inr (ground (arith, alive, h))
]

pub snapshot_sound :
    (k : Round) (s : SandboxState) → IsSound k → snapshot k.snapshot_mutex s ≡ some s
unfolding snapshot
snapshot_sound k s h = ground (arith, h.0, h.1)

snapshot-same : (m : Mutex) (s : SandboxState) → (snapshot m s ≡ none) ⊎ (snapshot m s ≡ some s)
unfolding snapshot
snapshot-same m s = elim (Bool-cases (m.locks && m.unlocks)) [
  | inl fine ↦ inr (ground (arith, fine))
  | inr bad ↦ inl (ground (arith, bad))
]

module _ {R W : Type 0} (round : R → Round) (look : R → SandboxState → W → Look W) where
  -- A round that makes the thread return without a request, for what it sees in the state that it
  -- leaves.
  pub record Quitting (left : SandboxState) (at : R) : Type 0 where
    pub own : W
    pub quit : look at left own ≡ quits

  -- How a round ends.
  pub data RoundEnd (r : R) (rs : List R) (own : W) (s : SandboxState) : Type 0 where
    unread :
        snapshot (round r).snapshot_mutex (run s (round r).earlier) ≡ none
        → watch round look (r ∷ rs) own s
          ≡ record { state = run s (round r).earlier; own = own; returned = true }
        → RoundEnd r rs own s
    over :
        is_over (run s (round r).earlier) ≡ true
        → watch round look (r ∷ rs) own s
          ≡ record { state = run s (round r).earlier; own = own; returned = true }
        → RoundEnd r rs own s
    quit :
        look r (run s (round r).earlier) own ≡ quits
        → watch round look (r ∷ rs) own s
          ≡ record { state = run s (round r).earlier; own = own; returned = true }
        → RoundEnd r rs own s
    asked :
        (why : TerminationReason) (own' : W)
        → look r (run s (round r).earlier) own ≡ asks why own'
        → watch round look (r ∷ rs) own s ≡ record {
          state = request (round r) why (run s (round r).earlier);
          own = own';
          returned = true;
        }
        → RoundEnd r rs own s
    unslept :
        (own' : W)
        → (round r).sleeps ≡ false
        → watch round look (r ∷ rs) own s ≡ record {
          state = request (round r) monitor_error (run s (round r).earlier);
          own = own';
          returned = true;
        }
        → RoundEnd r rs own s
    went_on :
        (own' : W)
        → is_over (run s (round r).earlier) ≡ false
        → look r (run s (round r).earlier) own ≡ goes_on own'
        → (round r).sleeps ≡ true
        → watch round look (r ∷ rs) own s ≡ watch round look rs own' (run s (round r).earlier)
        → RoundEnd r rs own s

  look_end :
      (r : R) (rs : List R) (own : W) (s : SandboxState) (l : Look W)
      → snapshot (round r).snapshot_mutex (run s (round r).earlier) ≡ some (run s (round r).earlier)
      → is_over (run s (round r).earlier) ≡ false
      → look r (run s (round r).earlier) own ≡ l
      → RoundEnd r rs own s
  unfolding watch
  look_end r rs own s quits e live l = quit l (rw (e, live, l, watch))
  look_end r rs own s (asks why own') e live l = asked why own' l (rw (e, live, l, watch))
  look_end r rs own s (goes_on own') e live l = elim (Bool-cases (round r).sleeps) [
    | inl slept ↦ went_on own' live l slept (rw (e, live, l, slept, watch))
    | inr woken ↦ unslept own' woken (rw (e, live, l, woken, watch))
  ]

  pub round_end : (r : R) (rs : List R) (own : W) (s : SandboxState) → RoundEnd r rs own s
  unfolding watch
  round_end r rs own s =
      let there = run s (round r).earlier in
      elim (snapshot-same (round r).snapshot_mutex there) [
        | inl failed ↦ unread failed (rw (failed, watch))
        | inr e ↦ elim (Bool-cases (is_over there)) [
          | inl done ↦ over done (rw (e, done, watch))
          | inr live ↦ look_end r rs own s (look r there own) e live refl
        ]
      ]
