-- ===== src/Sandbox/Supervisor/Wait/Succeeds.antt =====
-- `wait_for_workload_exit` and `terminate_workload` over calls that do not fail.
use st5039cmd.Base.{
  ℕ, zero, suc, ◌+◌, ◌*◌, ◌/◌, ◌%◌, ◌^◌, ◌≤◌, ◌<◌, ◌≡◌, ◌≢◌, ◌⊎◌, inl, inr, refl, ap, ◌∙◌, Bool,
  true, false, Option, none, some, List, [], ◌∷◌, All, arith, leb,
}
use st5039cmd.Sandbox.State.{SandboxState, snapshot}
use st5039cmd.Sandbox.State.Order.{Later, Later-refl, Later-trans}
use st5039cmd.Sandbox.Supervisor.Polling.{advance-Follows, reap-Follows, poll_workload-Follows}
use st5039cmd.Sandbox.Supervisor.{
  Supervised, Moment, Polled, Waited, reaped, wait_interrupted, no_children, wait_failed, gone,
  alive, poll_failed, advance, membership, conclude, look_around, after_reaping,
  reap_available_children, note_reaped, poll_workload,
}
use st5039cmd.Sandbox.Supervisor.Signal.{Delivery, signal_workload, sigterm, sigkill}
use st5039cmd.Sandbox.Supervisor.Wait.{
  Round, WaitResult, exited, timed_out, wait_error, out_of_fuel, Ending, repeat_kill, wait_from,
  wait_for_workload_exit, force_exit, terminate_workload,
}

-- Signals change the state by the calls of other threads alone.
signal_workload-Later :
    (active : Bool) (n : ℕ) (d : Delivery) (s : Supervised)
    → Later s.state (signal_workload active n d s).0.state
unfolding signal_workload
signal_workload-Later active n d s = (advance-Follows d.earlier s).later

repeat_kill-Later :
    (active again : Bool) (d : Delivery) (s : Supervised)
    → Later s.state (repeat_kill active again d s).state
unfolding repeat_kill
repeat_kill-Later active true d s = signal_workload-Later active sigkill d s
repeat_kill-Later active false d s = Later-refl s.state

-- `base` is a state of the run before the poll: the state that a poll looks at is a later one.
module _ (active : Bool) (base : SandboxState) where
  -- No call of the poll fails; whether somebody is left is open.
  pub record IsCalm (k : Moment) : Type 0 where
    pub locks : k.snapshot_mutex.locks ≡ true
    pub unlocks : k.snapshot_mutex.unlocks ≡ true
    pub waits : All (λ a. a ≢ wait_failed) k.waited
    pub answers : (seen : SandboxState) → Later base seen → membership active k seen ≢ none

  -- In whichever later state it looks, the poll finds nobody.
  abbrev pub FindsNobody : Moment → Type 0
  FindsNobody k = (seen : SandboxState) → Later base seen → membership active k seen ≡ some false

  reap_calm :
      (k : Moment) (answers : List Waited) (s : Supervised)
      → All (λ a. a ≢ wait_failed) answers
      → (reap_available_children k.reap_mutex answers s).1 ≡ true
  unfolding reap_available_children
  reap_calm k [] s h = refl
  reap_calm k (reaped pid status ∷ answers) s h =
      reap_calm k answers (note_reaped k.reap_mutex pid status s) h.1
  reap_calm k (wait_interrupted ∷ answers) s h = reap_calm k answers s h.1
  reap_calm k (no_children ∷ answers) s h = refl
  reap_calm k (wait_failed ∷ answers) s h = absurd (h.0 refl)

  conclude-found :
      (k : Moment) (o : Option Bool) (s : Supervised)
      → o ≢ none
      → (o ≡ some false → (conclude k o s).1 ≡ gone) × ((conclude k o s).1 ≢ poll_failed)
  unfolding conclude
  conclude-found k none s h = absurd (h refl)
  conclude-found k (some true) s h = (λ e. cc, λ e. cc)
  conclude-found k (some false) s h = (λ e. refl, λ e. cc)

  snapshot-given : (k : Moment) (s : SandboxState) → IsCalm k → snapshot k.snapshot_mutex s ≡ some s
  unfolding snapshot
  snapshot-given k s c = ground (arith, c.locks, c.unlocks)

  after_reaping-found :
      (k : Moment) (s : Supervised) (ok : Bool)
      → IsCalm k
      → Later base s.state
      → ok ≡ true
      → (FindsNobody k → (after_reaping active k (s, ok)).1 ≡ gone)
        × ((after_reaping active k (s, ok)).1 ≢ poll_failed)
  unfolding after_reaping look_around
  after_reaping-found k s false c v e = cc
  after_reaping-found k s true c v e =
      let (finds, answers) =
        conclude-found k (membership active k s.state) s (c.answers s.state v) in
      rw (snapshot-given k s.state c, look_around) (λ f. finds (f s.state v), answers)

  -- A calm poll does not fail, and sees the workload gone where nobody is found.
  pub poll_workload_calm :
      (k : Moment) (s : Supervised)
      → IsCalm k
      → Later base s.state
      → (FindsNobody k → (poll_workload active k s).1 ≡ gone)
        × ((poll_workload active k s).1 ≢ poll_failed)
  unfolding poll_workload
  poll_workload_calm k s c v =
      let there = advance k.earlier s in
      let after = reap_available_children k.reap_mutex k.waited there in
      after_reaping-found k after.0 after.1 c
        (Later-trans v (
          Later-trans (advance-Follows k.earlier s).later
            (reap-Follows k.reap_mutex k.waited there).later))
        (reap_calm k k.waited there c.waits)

  -- The rounds up to the one with number `n` are calm, and that one finds nobody.
  pub record EmptyBy (rounds : ℕ → Round) (n : ℕ) : Type 0 where
    pub calm : (i : ℕ) → i ≤ n → IsCalm (rounds i).poll
    pub sleeps : (i : ℕ) → i < n → (rounds i).sleeps ≡ true
    pub empty : FindsNobody (rounds n).poll

  module _ (rounds : ℕ → Round) (timeout : ℕ) (repeat_sigkill : Bool)
      (fits : timeout + 50 < 2 ^ 32) where
    abbrev polled : ℕ → Supervised → Supervised × Polled
    polled round s = poll_workload active (rounds round).poll s

    abbrev next : ℕ → Supervised → Supervised
    next round s = repeat_kill active repeat_sigkill (rounds round).kill (polled round s).0

    next-Later : (round : ℕ) (s : Supervised) → Later s.state (next round s).state
    next-Later round s =
        Later-trans (poll_workload-Follows active (rounds round).poll s).later
          (repeat_kill-Later active repeat_sigkill (rounds round).kill (polled round s).0)

    wait_from-gone :
        (fuel round waited : ℕ) (s : Supervised)
        → (polled round s).1 ≡ gone
        → (wait_from active rounds timeout repeat_sigkill (suc fuel) round waited s).1 ≡ exited
    unfolding wait_from
    wait_from-gone fuel round waited s g = rw (g, wait_from)

    -- The sum does not wrap before the timeout.
    added : (waited : ℕ) → leb timeout waited ≡ false → (waited + 50) % 2 ^ 32 ≡ waited + 50
    added waited early = ground (arith, early)

    -- A round before the last either exits or hands over to the next one.
    wait_from-goes_on :
        (fuel round waited : ℕ) (s : Supervised) (seen : Polled)
        → (polled round s).1 ≡ seen
        → seen ≢ poll_failed
        → leb timeout waited ≡ false
        → (rounds round).sleeps ≡ true
        → ((wait_from active rounds timeout repeat_sigkill (suc fuel) round waited s).1 ≡ exited)
          ⊎ (wait_from active rounds timeout repeat_sigkill (suc fuel) round waited s
              ≡ wait_from active rounds timeout repeat_sigkill fuel
                  (round + 1)
                  ((waited + 50) % 2 ^ 32)
                  (next round s))
    unfolding wait_from
    wait_from-goes_on fuel round waited s gone g ne early slept = inl (rw (g, wait_from))
    wait_from-goes_on fuel round waited s poll_failed g ne early slept = absurd (ne refl)
    wait_from-goes_on fuel round waited s alive g ne early slept =
        inr (rw (g, early, slept, wait_from))

    wait_from-exited :
        (left fuel round waited n : ℕ) (s : Supervised)
        → EmptyBy rounds n
        → Later base s.state
        → left + round ≡ n
        → left < fuel
        → waited + 50 * left ≤ timeout
        → (wait_from active rounds timeout repeat_sigkill fuel round waited s).1 ≡ exited
    wait_from-exited left zero round waited n s e v at_end enough early = absurd (omega arith)
    wait_from-exited zero (suc fuel) round waited n s e v at_end enough early =
        let here : round ≡ n = omega arith in
        wait_from-gone fuel round waited s (
          (poll_workload_calm (rounds round).poll s (e.calm round (omega arith)) v).0
            (rw here e.empty))
    wait_from-exited (suc left) (suc fuel) round waited n s e v at_end enough early =
        let waits : leb timeout waited ≡ false = ground arith in
        let same = added waited waits in
        elim (wait_from-goes_on fuel round waited s (polled round s).1 refl
          (poll_workload_calm (rounds round).poll s (e.calm round (omega arith)) v).1 waits
          (e.sleeps round (omega arith))) [
            | inl over ↦ over
            | inr on ↦
                ap (λ p. p.1) on
                ∙ wait_from-exited left fuel (round + 1) ((waited + 50) % 2 ^ 32) n (next round s) e
                    (Later-trans v (next-Later round s)) (omega arith) (omega arith)
                    (omega (arith, same))
          ]

    -- If nobody is left in a round that the timeout reaches, and nothing fails up to there, the wait
    -- reports the exit.
    pub wait_for_workload_exit_succeeds :
        (n : ℕ) (s : Supervised)
        → EmptyBy rounds n
        → Later base s.state
        → 50 * n ≤ timeout
        → (wait_for_workload_exit active rounds timeout repeat_sigkill s).1 ≡ exited
    unfolding wait_for_workload_exit
    wait_for_workload_exit_succeeds n s e v in_time =
        wait_from-exited n (timeout / 50 + 2) 0 0 n s e v (omega arith) (omega arith) (omega arith)

-- However long a wait, it ends in a later state.
module _ (active : Bool) (rounds : ℕ → Round) (timeout : ℕ) (repeat_sigkill : Bool) where
  abbrev killed : ℕ → Supervised → Supervised
  killed round s =
      repeat_kill active repeat_sigkill (rounds round).kill
        (poll_workload active (rounds round).poll s).0

  killed-Later : (round : ℕ) (s : Supervised) → Later s.state (killed round s).state
  killed-Later round s = Later-trans (poll_workload-Follows active (rounds round).poll s).later (
      repeat_kill-Later active repeat_sigkill (rounds round).kill
        (poll_workload active (rounds round).poll s).0)

  ended-Later :
      (fuel round waited : ℕ) (s : Supervised) (seen : Polled) (early slept : Bool)
      → (poll_workload active (rounds round).poll s).1 ≡ seen
      → leb timeout waited ≡ early
      → (rounds round).sleeps ≡ slept
      → ((t : Supervised)
          → Later t.state
              (wait_from active rounds timeout repeat_sigkill fuel
                (round + 1)
                ((waited + 50) % 2 ^ 32)
                t).0.state)
      → Later s.state
          (wait_from active rounds timeout repeat_sigkill (suc fuel) round waited s).0.state
  unfolding wait_from
  ended-Later fuel round waited s poll_failed early slept g h z later =
      rw (g, wait_from) (poll_workload-Follows active (rounds round).poll s).later
  ended-Later fuel round waited s gone early slept g h z later =
      rw (g, wait_from) (poll_workload-Follows active (rounds round).poll s).later
  ended-Later fuel round waited s alive true slept g h z later =
      rw (g, h, wait_from) (killed-Later round s)
  ended-Later fuel round waited s alive false false g h z later =
      rw (g, h, z, wait_from) (killed-Later round s)
  ended-Later fuel round waited s alive false true g h z later =
      rw (g, h, z, wait_from) (Later-trans (killed-Later round s) (later (killed round s)))

  wait_from-Later :
      (fuel round waited : ℕ) (s : Supervised)
      → Later s.state (wait_from active rounds timeout repeat_sigkill fuel round waited s).0.state
  unfolding wait_from
  wait_from-Later zero round waited s = Later-refl s.state
  wait_from-Later (suc fuel) round waited s =
      ended-Later fuel round waited s _ _ _ refl refl refl
        (wait_from-Later fuel (round + 1) ((waited + 50) % 2 ^ 32))

module _ (active : Bool) (e : Ending active) where
  -- Nobody is left in round `n` of the wait behind the SIGKILL.
  abbrev pub EndsBy : SandboxState → ℕ → Type 0
  EndsBy base n = EmptyBy active base e.force n

  force_exit-true :
      (base : SandboxState) (s : Supervised) (n : ℕ)
      → EndsBy base n
      → Later base s.state
      → n ≤ 100
      → (force_exit active e s).1 ≡ true
  unfolding force_exit
  force_exit-true base s n empty v in_time = rw (
    wait_for_workload_exit_succeeds active base e.force 5000 true (omega arith) n
        (signal_workload active sigkill e.kill s).0 empty
        (Later-trans v (signal_workload-Later active sigkill e.kill s)) (omega arith),
    force_exit,
  )

  -- The state behind the wait of the grace period.
  abbrev grace_over : Supervised → Supervised
  grace_over s =
      (wait_for_workload_exit active e.grace 1000 false
        (signal_workload active sigterm e.term s).0).0

  grace_over-Later : (s : Supervised) → Later s.state (grace_over s).state
  unfolding wait_for_workload_exit
  grace_over-Later s =
      Later-trans (signal_workload-Later active sigterm e.term s) (
        wait_from-Later active e.grace 1000 false 22 0 0
          (signal_workload active sigterm e.term s).0)

  terminate-true :
      (s : Supervised) (r : WaitResult) (n : ℕ)
      → (wait_for_workload_exit active e.grace 1000 false
          (signal_workload active sigterm e.term s).0).1
        ≡ r
      → EndsBy s.state n
      → n ≤ 100
      → (terminate_workload active e s).1 ≡ true
  unfolding terminate_workload
  terminate-true s exited n g empty in_time = rw (g, terminate_workload)
  terminate-true s timed_out n g empty in_time =
      rw (g, terminate_workload)
        (force_exit-true s.state (grace_over s) n empty (grace_over-Later s) in_time)
  terminate-true s wait_error n g empty in_time =
      rw (g, terminate_workload)
        (force_exit-true s.state (grace_over s) n empty (grace_over-Later s) in_time)
  terminate-true s out_of_fuel n g empty in_time =
      rw (g, terminate_workload)
        (force_exit-true s.state (grace_over s) n empty (grace_over-Later s) in_time)

  -- `terminate_workload` returns 0 if the workload has gone by a poll of the first five seconds
  -- behind the SIGKILL, which finds nobody in the cgroup or the process tree, and no call of that wait
  -- failed before, whatever happened in the grace period. The polls are asked only about states that
  -- can follow the first one: the same workload and supervisor, no flag taken back.
  pub terminate_workload_succeeds :
      (s : Supervised) (n : ℕ)
      → EndsBy s.state n
      → n ≤ 100
      → (terminate_workload active e s).1 ≡ true
  terminate_workload_succeeds s n empty in_time = terminate-true s _ n refl empty in_time
