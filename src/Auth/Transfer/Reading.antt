-- ===== src/Auth/Transfer/Reading.antt =====
-- `read_all` against the stream of bytes that the peer sends, however the kernel cuts it.
use mathlib.Core.List.{append_assoc, append-nil}
use mathlib.Core.Path.{ap₂}
use st5039cmd.Base.{
  ℕ, zero, suc, ◌-◌, ◌≤◌, ◌<◌, ◌≡◌, ◌≢◌, refl, sym, ap, ◌∙◌, true, false, List, [], ◌∷◌, ◌++◌,
  length, take, length-append, arith, All, ◌⊎◌, inl, inr, Bool-cases, length-take,
}
use st5039cmd.Auth.Transfer.{
  ReadAnswer, received, read_interrupted, read_failed, Turn, Outcome, complete, aborted, waiting,
  read_from, read_all,
}

-- The bytes that the turns bring.
abbrev pub bytes_of : ReadAnswer → List ℕ
bytes_of (received bs) = bs
bytes_of read_interrupted = []
bytes_of read_failed = []

unfoldable pub arrived : List (Turn ReadAnswer) → List ℕ
arrived [] = []
arrived (t ∷ turns) = bytes_of t.answer ++ arrived turns

-- `read` never returns more than it was asked for, as long as the loop asks.
abbrev pub Honest : ℕ → List (Turn ReadAnswer) → Type 0
Honest zero turns = Unit {0}
Honest (suc n) [] = Unit {0}
Honest (suc n) (t ∷ turns) =
    (length (bytes_of t.answer) ≤ suc n) × Honest (suc n - length (bytes_of t.answer)) turns

-- No signal, no error, no end of the stream.
abbrev pub IsCalmAnswer : ReadAnswer → Type 0
IsCalmAnswer (received bs) = 0 < length bs
IsCalmAnswer read_interrupted = Unit {0}
IsCalmAnswer read_failed = ⊥

abbrev pub IsCalm : Turn ReadAnswer → Type 0
IsCalm t = (t.stop_before ≡ false) × (t.stop_after ≡ false) × IsCalmAnswer t.answer

nothing_moved :
    (got : List ℕ) (n : ℕ) (turns : List (Turn ReadAnswer))
    → read_from got (suc n) turns ≡ read_from (got ++ []) (suc n - 0) turns
nothing_moved got n turns = ap₂ (λ g k. read_from g k turns) (sym (append-nil got)) (omega arith)

-- One turn of a calm kernel moves its bytes into the buffer.
read_from-calm :
    (got : List ℕ) (n : ℕ) (t : Turn ReadAnswer) (turns : List (Turn ReadAnswer)) (a : ReadAnswer)
    → t.answer ≡ a
    → IsCalm t
    → read_from got (suc n) (t ∷ turns)
      ≡ read_from (got ++ bytes_of a) (suc n - length (bytes_of a)) turns
unfolding read_from
read_from-calm got n t turns (received []) e c =
    let some_byte : 0 < 0 = rw e at c.2 in absurd (omega arith)
read_from-calm got n t turns (received (b ∷ bs)) e c = rw (c.0, e, read_from)
read_from-calm got n t turns read_interrupted e c =
    rw (c.0, e, c.1, read_from) (nothing_moved got n turns)
read_from-calm got n t turns read_failed e c = absurd (rw e at c.2)

take_append :
    (bs rest : List ℕ) (n : ℕ)
    → length bs ≤ n
    → take n (bs ++ rest) ≡ bs ++ take (n - length bs) rest
take_append [] rest n h = ap (λ k. take k rest) (omega arith)
take_append (b ∷ bs) rest zero h = absurd (omega arith)
take_append (b ∷ bs) rest (suc n) h =
    ap (◌∷◌ b) (take_append bs rest n (omega arith) ∙ ap (λ k. bs ++ take k rest) (omega arith))

read_from-complete :
    (got : List ℕ) (n : ℕ) (turns : List (Turn ReadAnswer))
    → All IsCalm turns
    → Honest n turns
    → n ≤ length (arrived turns)
    → read_from got n turns ≡ (complete, got ++ take n (arrived turns))
unfolding arrived
read_from-complete got zero turns c h enough = unfold read_from in rw (append-nil got)
read_from-complete got (suc n) [] c h enough = absurd (omega arith)
read_from-complete got (suc n) (t ∷ turns) c h enough =
    let bs = bytes_of t.answer in
    read_from-calm got n t turns t.answer refl c.0
    ∙ read_from-complete (got ++ bs) (suc n - length bs) turns c.1 h.1
        (omega (arith, length-append bs (arrived turns)))
    ∙ ap (λ l. (complete, l))
        (append_assoc got bs (take (suc n - length bs) (arrived turns))
          ∙ ap (λ l. got ++ l) (sym (take_append bs (arrived turns) (suc n) h.0)))

-- A turn either ends the call with an error, or moves what it brought into the buffer.
read_from-turn :
    (got : List ℕ) (n : ℕ) (t : Turn ReadAnswer) (turns : List (Turn ReadAnswer)) (a : ReadAnswer)
    → t.answer ≡ a
    → t.stop_before ≡ false
    → (t.stop_after ≡ true) ⊎ (t.stop_after ≡ false)
    → (read_from got (suc n) (t ∷ turns) ≡ (aborted, got))
      ⊎ (read_from got (suc n) (t ∷ turns)
          ≡ read_from (got ++ bytes_of a) (suc n - length (bytes_of a)) turns)
unfolding read_from
read_from-turn got n t turns (received []) e free after = inl (rw (free, e, read_from))
read_from-turn got n t turns (received (b ∷ bs)) e free after = inr (rw (free, e, read_from))
read_from-turn got n t turns read_interrupted e free (inl stop) =
    inl (rw (free, e, stop, read_from))
read_from-turn got n t turns read_interrupted e free (inr on) =
    inr (rw (free, e, on, read_from) (nothing_moved got n turns))
read_from-turn got n t turns read_failed e free after = inl (rw (free, e, read_from))

read_from-stopped :
    (got : List ℕ) (n : ℕ) (t : Turn ReadAnswer) (turns : List (Turn ReadAnswer))
    → t.stop_before ≡ true
    → read_from got (suc n) (t ∷ turns) ≡ (aborted, got)
unfolding read_from
read_from-stopped got n t turns stop = rw (stop, read_from)

read_from-zero :
    (got : List ℕ) (turns : List (Turn ReadAnswer)) → read_from got 0 turns ≡ (complete, got)
unfolding read_from
read_from-zero got turns = refl

read_from-nil : (got : List ℕ) (n : ℕ) → read_from got (suc n) [] ≡ (waiting, got)
unfolding read_from
read_from-nil got n = refl

outcome_clash :
    {o p : Outcome} {xs ys : List ℕ} → o ≢ p → ◌≢◌ {A = Outcome × List ℕ} (o, xs) (p, ys)
outcome_clash ne e = ne (ap (λ q. q.0) e)

-- Whenever the call returns 0, the buffer holds exactly the first bytes that arrived.
pub read_from_sound :
    (got : List ℕ) (n : ℕ) (turns : List (Turn ReadAnswer)) (filled : List ℕ)
    → Honest n turns
    → read_from got n turns ≡ (complete, filled)
    → (n ≤ length (arrived turns)) × (filled ≡ got ++ take n (arrived turns))
unfolding arrived
read_from_sound got zero turns filled h e =
    (omega arith, ap (λ p. p.1) (sym e ∙ read_from-zero got turns) ∙ sym (append-nil got))
read_from_sound got (suc n) [] filled h e =
    absurd (outcome_clash (λ c. cc) (sym (read_from-nil got n) ∙ e))
read_from_sound got (suc n) (t ∷ turns) filled h e =
    let bs = bytes_of t.answer in
    elim (Bool-cases t.stop_before) [
      | inl stop ↦ absurd (outcome_clash (λ c. cc) (sym (read_from-stopped got n t turns stop) ∙ e))
      | inr free ↦
          elim (read_from-turn got n t turns t.answer refl free (Bool-cases t.stop_after)) [
            | inl over ↦ absurd (outcome_clash (λ c. cc) (sym over ∙ e))
            | inr moved ↦
                let (enough, same) =
                  read_from_sound (got ++ bs) (suc n - length bs) turns filled h.1
                    (sym moved ∙ e) in
                (
                  omega (arith, length-append bs (arrived turns)),
                  same
                      ∙ append_assoc got bs (take (suc n - length bs) (arrived turns))
                      ∙ ap (λ l. got ++ l) (sym (take_append bs (arrived turns) (suc n) h.0)),
                )
          ]
    ]

-- A call that returns 0 has filled the buffer with exactly the bytes that the peer sent first, in
-- order, however the kernel cut the stream and whatever signals came.
pub read_all_exact :
    (n : ℕ) (turns : List (Turn ReadAnswer)) (filled : List ℕ)
    → Honest n turns
    → read_all n turns ≡ (complete, filled)
    → (length filled ≡ n) × (filled ≡ take n (arrived turns))
unfolding read_all
read_all_exact n turns filled h e =
    let (enough, same) = read_from_sound [] n turns filled h e in
    (omega (arith, ap length same, length-take n (arrived turns)), same)

-- On a calm kernel that brings enough bytes the call returns 0.
pub read_all_returns :
    (n : ℕ) (turns : List (Turn ReadAnswer))
    → All IsCalm turns
    → Honest n turns
    → n ≤ length (arrived turns)
    → read_all n turns ≡ (complete, take n (arrived turns))
unfolding read_all
read_all_returns n turns c h enough = read_from-complete [] n turns c h enough
