-- ===== src/Sandbox/Supervisor/Wait/Returns.antt =====
-- `wait_for_workload_exit`: it ends within its rounds, and what its success means.
use st5039cmd.Base.{
  ℕ, zero, suc, ◌+◌, ◌*◌, ◌/◌, ◌%◌, ◌^◌, ◌≤◌, ◌<◌, ◌≡◌, ◌≢◌, inl, inr, refl, sym, ap, ◌∙◌, Bool,
  arith, Bool-cases, leb,
}
use st5039cmd.Sandbox.Supervisor.{Supervised, Polled, alive, gone, poll_failed, poll_workload}
use st5039cmd.Sandbox.Supervisor.Wait.{
  Round, WaitResult, exited, timed_out, wait_error, out_of_fuel, repeat_kill, wait_from,
  wait_for_workload_exit,
}

out_of_fuel≢exited : out_of_fuel ≢ exited
out_of_fuel≢exited e = cc

module _ (active : Bool) (rounds : ℕ → Round) (timeout : ℕ) (repeat_sigkill : Bool) where
  abbrev polled : ℕ → Supervised → Supervised × Polled
  polled round s = poll_workload active (rounds round).poll s

  abbrev next : ℕ → Supervised → Supervised
  next round s = repeat_kill active repeat_sigkill (rounds round).kill (polled round s).0

  abbrev again : ℕ → ℕ → ℕ → Supervised → Supervised × WaitResult
  again fuel round waited s = wait_from active rounds timeout repeat_sigkill fuel round waited s

  -- How a round ends.
  data RoundEnd (fuel round waited : ℕ) (s : Supervised) : Type 0 where
    is_exited :
        (polled round s).1 ≡ gone
        → again (suc fuel) round waited s ≡ ((polled round s).0, exited)
        → RoundEnd fuel round waited s
    is_over :
        (r : WaitResult) (t : Supervised)
        → r ≢ exited
        → r ≢ out_of_fuel
        → again (suc fuel) round waited s ≡ (t, r)
        → RoundEnd fuel round waited s
    goes_on :
        waited < timeout
        → again (suc fuel) round waited s
          ≡ again fuel (round + 1) ((waited + 50) % 2 ^ 32) (next round s)
        → RoundEnd fuel round waited s

  round_end :
      (fuel round waited : ℕ) (s : Supervised) (seen : Polled)
      → (polled round s).1 ≡ seen
      → RoundEnd fuel round waited s
  unfolding wait_from
  round_end fuel round waited s gone e = is_exited e (rw (e, wait_from))
  round_end fuel round waited s poll_failed e =
      is_over wait_error (polled round s).0 (λ i. cc) (λ i. cc) (rw (e, wait_from))
  round_end fuel round waited s alive e = elim (Bool-cases (leb timeout waited)) [
    | inl over ↦ is_over timed_out (next round s) (λ i. cc) (λ i. cc) (rw (e, over, wait_from))
    | inr early ↦ elim (Bool-cases (rounds round).sleeps) [
      | inl slept ↦ goes_on (ground (arith, early)) (rw (e, early, slept, wait_from))
      | inr awake ↦
          is_over wait_error (next round s) (λ i. cc) (λ i. cc) (rw (e, early, awake, wait_from))
    ]
  ]

  wait_from-zero : (round waited : ℕ) (s : Supervised) → (again 0 round waited s).1 ≡ out_of_fuel
  unfolding wait_from
  wait_from-zero round waited s = refl

  wait_from_ends :
      (fuel round waited : ℕ) (s : Supervised)
      → timeout + 50 < 2 ^ 32
      → waited < timeout + 50
      → timeout + 50 ≤ waited + 50 * fuel
      → (again fuel round waited s).1 ≢ out_of_fuel
  wait_from_ends zero round waited s fits h enough = absurd (omega arith)
  wait_from_ends (suc fuel) round waited s fits h enough =
      elim (round_end fuel round waited s (polled round s).1 refl) [
        | is_exited _ e ↦ rw e (λ i. cc)
        | is_over r t _ ne e ↦ rw e ne
        | goes_on early e ↦ rw e (
            wait_from_ends fuel (round + 1) ((waited + 50) % 2 ^ 32) (next round s) fits
              (omega arith) (omega arith))
      ]

  -- For a timeout of less than 2^32 - 50 milliseconds, the wait ends after at most one round per 50
  -- milliseconds of its timeout and two more: it exits, times out or fails. (Beyond it, the count of
  -- the milliseconds can wrap around in front of the timeout.)
  pub wait_for_workload_exit_returns :
      (s : Supervised)
      → timeout + 50 < 2 ^ 32
      → (wait_for_workload_exit active rounds timeout repeat_sigkill s).1 ≢ out_of_fuel
  unfolding wait_for_workload_exit
  wait_for_workload_exit_returns s fits =
      wait_from_ends (timeout / 50 + 2) 0 0 s fits (omega arith) (omega arith)

  -- `t` is what a round's poll left that found the workload gone, among the rounds up to `last`.
  abbrev pub Exited : ℕ → Supervised → Type 0
  Exited last t =
      (s : Supervised) × (round : ℕ) × (round ≤ last)
      × ((polled round s).1 ≡ gone)
      × (t ≡ (polled round s).0)

  wait_from-Exited :
      (last fuel round waited : ℕ) (s : Supervised)
      → round + fuel ≤ last
      → (again fuel round waited s).1 ≡ exited
      → Exited last (again fuel round waited s).0
  wait_from-Exited last zero round waited s le e =
      absurd (out_of_fuel≢exited (sym (wait_from-zero round waited s) ∙ e))
  wait_from-Exited last (suc fuel) round waited s le e =
      elim (round_end fuel round waited s (polled round s).1 refl) [
        | is_exited empty here ↦ (s, round, omega arith, empty, ap (λ p. p.0) here)
        | is_over r t ne _ over ↦ absurd (ne (sym (ap (λ p. p.1) over) ∙ e))
        | goes_on early more ↦
            let (s', r, within, empty, same) =
              wait_from-Exited last fuel (round + 1) ((waited + 50) % 2 ^ 32) (next round s)
                (omega arith) (ap (λ p. p.1) (sym more) ∙ e) in
            (s', r, within, empty, ap (λ p. p.0) more ∙ same)
      ]

  -- A wait that exits saw the workload gone in one of its rounds.
  pub wait_for_workload_exit-Exited :
      (s : Supervised)
      → (wait_for_workload_exit active rounds timeout repeat_sigkill s).1 ≡ exited
      → Exited (timeout / 50 + 2) (wait_for_workload_exit active rounds timeout repeat_sigkill s).0
  unfolding wait_for_workload_exit
  wait_for_workload_exit-Exited s e =
      wait_from-Exited (timeout / 50 + 2) (timeout / 50 + 2) 0 0 s (omega arith) e
