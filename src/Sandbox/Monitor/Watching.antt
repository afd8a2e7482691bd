-- ===== src/Sandbox/Monitor/Watching.antt =====
-- What a monitor has done when it returns, by its frame.
use st5039cmd.Base.{
  ◌≡◌, ◌≢◌, ◌⊎◌, inl, inr, sym, ap, ◌∙◌, subst, true, List, [], ◌∷◌, All, Any, none, some, arith,
}
use st5039cmd.Sandbox.State.{
  SandboxState, TerminationReason, no_reason, monitor_error, Mutex, Call, takes_snapshot, requests,
  leader_exits, workload_exits, run, step, request_termination, mark_leader_exited,
  mark_workload_exited,
}
use st5039cmd.Sandbox.Monitor.{Round, Look, asks, goes_on, Watched, request, watch}
use st5039cmd.Sandbox.Monitor.Frame.{
  IsSettled, IsSound, request-IsSettled, is_over-IsSettled, snapshot_sound, Quitting, round_end,
  unread, over, quit, asked, unslept, went_on,
}

TerminationReason-discrete : Discrete TerminationReason
TerminationReason-discrete = hlevel

none≢some : {s : SandboxState} → none ≢ some s
none≢some e = cc

-- The call asks for no termination for this reason.
abbrev pub AsksNot : TerminationReason → Call → Type 0
AsksNot why (requests _ other) = other ≢ why
AsksNot why (takes_snapshot _) = Unit {0}
AsksNot why (leader_exits _) = Unit {0}
AsksNot why (workload_exits _) = Unit {0}

request_termination-keeps :
    (m : Mutex) (why other : TerminationReason) (s : SandboxState)
    → s.termination_reason ≢ why
    → other ≢ why
    → (request_termination m other s).0.termination_reason ≢ why
unfolding request_termination
request_termination-keeps m why other s h ne = ground (arith, h, ne)

step-keeps :
    (why : TerminationReason) (s : SandboxState) (c : Call)
    → s.termination_reason ≢ why
    → AsksNot why c
    → (step s c).termination_reason ≢ why
unfolding step mark_leader_exited mark_workload_exited
step-keeps why s (takes_snapshot m) h k = h
step-keeps why s (requests m other) h k = request_termination-keeps m why other s h k
step-keeps why s (leader_exits m) h k = ground (arith, h)
step-keeps why s (workload_exits m) h k = ground (arith, h)

run-keeps :
    (why : TerminationReason) (s : SandboxState) (cs : List Call)
    → s.termination_reason ≢ why
    → All (AsksNot why) cs
    → (run s cs).termination_reason ≢ why
unfolding run
run-keeps why s [] h k = h
run-keeps why s (c ∷ cs) h k = run-keeps why (step s c) cs (step-keeps why s c h k.0) k.1

-- No other thread asks for this reason in the round.
abbrev pub Alone : TerminationReason → Round → Type 0
Alone why k = All (AsksNot why) k.earlier × All (AsksNot why) k.between

pub request-keeps :
    (why other : TerminationReason) (k : Round) (s : SandboxState)
    → s.termination_reason ≢ why
    → Alone why k
    → other ≢ why
    → (request k other s).termination_reason ≢ why
unfolding request
request-keeps why other k s h a ne =
    request_termination-keeps k.request_mutex why other (run s k.between)
      (run-keeps why s k.between h a.1) ne

module _ {R W : Type 0} (round : R → Round) (look : R → SandboxState → W → Look W) where
  abbrev watched : List R → W → SandboxState → Watched W
  watched rs own s = watch round look rs own s

  -- A round whose look asks for the reason, in a state from which the request leads to the one left.
  pub record Asking (why : TerminationReason) (left : SandboxState) (at : R) : Type 0 where
    pub seen : SandboxState
    pub own : W
    pub own' : W
    pub ask : look at seen own ≡ asks why own'
    pub leads : left ≡ request (round at) why seen

  -- The looks give a reason with every request.
  abbrev pub Reasons : Type 0
  Reasons =
      (r : R) (seen : SandboxState) (own own' : W) (why : TerminationReason)
      → look r seen own ≡ asks why own'
      → why ≢ no_reason

  -- A monitor that has returned, with a sound mutex, leaves nothing to ask for, or has returned
  -- because of a look.
  pub watch-IsSettled :
      (rs : List R) (own : W) (s : SandboxState)
      → Reasons
      → All (λ r. IsSound (round r)) rs
      → (watched rs own s).returned ≡ true
      → IsSettled (watched rs own s).state ⊎ Any (Quitting round look (watched rs own s).state) rs
  watch-IsSettled [] own s g h e = absurd (not_yet e)
    where
      not_yet : (watched [] own s).returned ≢ true
      not_yet = unfold watch in λ i. cc
  watch-IsSettled (r ∷ rs) own s g h e =
      let there = run s (round r).earlier in
      elim (round_end round look r rs own s) [
        | unread failed _ ↦ absurd (none≢some (sym failed ∙ snapshot_sound (round r) there h.0))
        | over done same ↦ rw same (inl (is_over-IsSettled there done))
        | quit left same ↦
            subst (λ w. IsSettled w.state ⊎ Any (Quitting round look w.state) (r ∷ rs)) (sym same)
              (inr (inl (record { own = own; quit = left })))
        | asked why own' ask same ↦
            rw same (inl (request-IsSettled (round r) why there h.0 (g r there own own' why ask)))
        | unslept own' _ same ↦
            rw same (inl (request-IsSettled (round r) monitor_error there h.0 (λ i. cc)))
        | went_on own' _ _ _ same ↦
            subst (λ w. IsSettled w.state ⊎ Any (Quitting round look w.state) (r ∷ rs)) (sym same)
              (elim (watch-IsSettled rs own' there g h.1 (rw same at e)) [
                | inl settled ↦ inl settled
                | inr later ↦ inr (inr later)
              ])
      ]

  -- If the reason in the state is one that was not there before and that no other thread asks for, a
  -- look has asked for it.
  pub watch-Asking :
      (why : TerminationReason) (rs : List R) (own : W) (s : SandboxState)
      → why ≢ monitor_error
      → s.termination_reason ≢ why
      → All (λ r. Alone why (round r)) rs
      → (watched rs own s).state.termination_reason ≡ why
      → Any (Asking why (watched rs own s).state) rs
  watch-Asking why [] own s ne fresh h e = absurd (fresh (unfold watch in e))
  watch-Asking why (r ∷ rs) own s ne fresh h e =
      let there = run s (round r).earlier in
      let still = run-keeps why s (round r).earlier fresh h.0.0 in
      elim (round_end round look r rs own s) [
        | unread _ same ↦ absurd (still (rw same at e))
        | over _ same ↦ absurd (still (rw same at e))
        | quit _ same ↦ absurd (still (rw same at e))
        | asked other own' ask same ↦ elim (TerminationReason-discrete other why) [
          | yes it ↦
              subst (λ w. Any (Asking why w.state) (r ∷ rs)) (sym same)
                (inl (record {
                  seen = there;
                  own = own;
                  own' = own';
                  ask = ask ∙ ap (λ w. asks w own') it;
                  leads = ap (λ w. request (round r) w there) it;
                }))
          | no not_it ↦
              absurd (request-keeps why other (round r) there still h.0 not_it (rw same at e))
        ]
        | unslept own' _ same ↦ absurd (
            request-keeps why monitor_error (round r) there still h.0 (λ i. ne (sym i))
              (rw same at e))
        | went_on own' _ _ _ same ↦
            subst (λ w. Any (Asking why w.state) (r ∷ rs)) (sym same)
              (inr (watch-Asking why rs own' there ne still h.1 (rw same at e)))
      ]

  -- The look lets the thread go on in no state.
  abbrev pub Stops : R → Type 0
  Stops r = (seen : SandboxState) (own own' : W) → look r seen own ≢ goes_on own'

  -- A monitor returns at the latest in a round whose look stops it.
  pub watch_returns :
      (rs : List R) (own : W) (s : SandboxState) → Any Stops rs → (watched rs own s).returned ≡ true
  watch_returns [] own s h = absurd h
  watch_returns (r ∷ rs) own s h =
      let there = run s (round r).earlier in
      elim (round_end round look r rs own s) [
        | unread _ same ↦ ap (λ w. w.returned) same
        | over _ same ↦ ap (λ w. w.returned) same
        | quit _ same ↦ ap (λ w. w.returned) same
        | asked _ _ _ same ↦ ap (λ w. w.returned) same
        | unslept _ _ same ↦ ap (λ w. w.returned) same
        | went_on own' _ on _ same ↦ ap (λ w. w.returned) same ∙ elim h [
          | inl stops ↦ absurd (stops there own own' on)
          | inr later ↦ watch_returns rs own' there later
        ]
      ]
