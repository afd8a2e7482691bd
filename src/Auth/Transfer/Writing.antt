-- ===== src/Auth/Transfer/Writing.antt =====
-- `write_all`: what the peer has been sent when it returns.
use mathlib.Core.List.{append_assoc, append-nil}
use st5039cmd.Base.{
  ℕ, zero, suc, ◌+◌, ◌≤◌, ◌≡◌, ◌≢◌, ◌⊎◌, inl, inr, refl, sym, ap, ◌∙◌, true, false, List, [], ◌∷◌,
  ◌++◌, length, take, drop, take-append-drop, length-drop, arith, subst, All, Bool-cases,
}
use st5039cmd.Auth.Transfer.{
  WriteAnswer, written, write_interrupted, write_failed, Turn, Outcome, complete, aborted,
  write_from, write_all,
}

abbrev pub count_of : WriteAnswer → ℕ
count_of (written k) = k
count_of write_interrupted = 0
count_of write_failed = 0

unfoldable pub accepted : List (Turn WriteAnswer) → ℕ
accepted [] = 0
accepted (t ∷ turns) = count_of t.answer + accepted turns

-- What the peer has is a first part of the data, and all of it when 0 is returned.
abbrev pub Delivers : List ℕ → Outcome × List ℕ → Type 0
Delivers whole (outcome, sent) =
    (rest : List ℕ) × (sent ++ rest ≡ whole) × (outcome ≡ complete → rest ≡ [])

write_from-turn :
    (sent : List ℕ) (b : ℕ) (bs : List ℕ) (t : Turn WriteAnswer) (turns : List (Turn WriteAnswer))
    (a : WriteAnswer)
    → t.answer ≡ a
    → t.stop_before ≡ false
    → (t.stop_after ≡ true) ⊎ (t.stop_after ≡ false)
    → (write_from sent (b ∷ bs) (t ∷ turns) ≡ (aborted, sent))
      ⊎ (write_from sent (b ∷ bs) (t ∷ turns)
          ≡ write_from (sent ++ take (count_of a) (b ∷ bs)) (drop (count_of a) (b ∷ bs)) turns)
unfolding write_from
write_from-turn sent b bs t turns (written zero) e free after = inl (rw (free, e, write_from))
write_from-turn sent b bs t turns (written (suc k)) e free after = inr (rw (free, e, write_from))
write_from-turn sent b bs t turns write_interrupted e free (inl stop) =
    inl (rw (free, e, stop, write_from))
write_from-turn sent b bs t turns write_interrupted e free (inr on) =
    inr
      (rw (free, e, on, write_from) (ap (λ g. write_from g (b ∷ bs) turns) (sym (append-nil sent))))
write_from-turn sent b bs t turns write_failed e free after = inl (rw (free, e, write_from))

write_from-stopped :
    (sent : List ℕ) (b : ℕ) (bs : List ℕ) (t : Turn WriteAnswer) (turns : List (Turn WriteAnswer))
    → t.stop_before ≡ true
    → write_from sent (b ∷ bs) (t ∷ turns) ≡ (aborted, sent)
unfolding write_from
write_from-stopped sent b bs t turns stop = rw (stop, write_from)

Delivers-aborted : (sent rest : List ℕ) → Delivers (sent ++ rest) (aborted, sent)
Delivers-aborted sent rest = (rest, refl, λ e. cc)

write_from-Delivers :
    (sent left : List ℕ) (turns : List (Turn WriteAnswer))
    → Delivers (sent ++ left) (write_from sent left turns)
write_from-Delivers sent [] turns = unfold write_from in ([], refl, λ e. refl)
write_from-Delivers sent (b ∷ bs) [] = unfold write_from in (b ∷ bs, refl, λ e. cc)
write_from-Delivers sent (b ∷ bs) (t ∷ turns) =
    let k = count_of t.answer in
    elim (Bool-cases t.stop_before) [
      | inl stop ↦ rw (write_from-stopped sent b bs t turns stop) (Delivers-aborted sent (b ∷ bs))
      | inr free ↦
          elim (write_from-turn sent b bs t turns t.answer refl free (Bool-cases t.stop_after)) [
            | inl over ↦ rw over (Delivers-aborted sent (b ∷ bs))
            | inr moved ↦
                let ih = write_from-Delivers (sent ++ take k (b ∷ bs)) (drop k (b ∷ bs)) turns in
                let whole : (sent ++ take k (b ∷ bs)) ++ drop k (b ∷ bs) ≡ sent ++ b ∷ bs =
                  append_assoc sent (take k (b ∷ bs)) (drop k (b ∷ bs))
                  ∙ ap (λ l. sent ++ l) (take-append-drop k (b ∷ bs)) in
                rw moved (
                  subst
                    (λ w. Delivers w (write_from (sent ++ take k (b ∷ bs)) (drop k (b ∷ bs)) turns))
                    whole ih)
          ]
    ]

-- Whatever the signals and errors, the peer has been sent a first part of the buffer, with nothing
-- repeated, skipped or reordered; and the whole buffer if 0 was returned.
pub write_all-Delivers :
    (buffer : List ℕ) (turns : List (Turn WriteAnswer)) → Delivers buffer (write_all buffer turns)
unfolding write_all
write_all-Delivers buffer turns = write_from-Delivers [] buffer turns

abbrev pub IsCalmWrite : Turn WriteAnswer → Type 0
IsCalmWrite t =
    (t.stop_before ≡ false)
    × (t.stop_after ≡ false)
    × (t.answer ≢ write_failed)
    × (t.answer ≢ written 0)

write_from-calm :
    (sent : List ℕ) (b : ℕ) (bs : List ℕ) (t : Turn WriteAnswer) (turns : List (Turn WriteAnswer))
    (a : WriteAnswer)
    → t.answer ≡ a
    → IsCalmWrite t
    → write_from sent (b ∷ bs) (t ∷ turns)
      ≡ write_from (sent ++ take (count_of a) (b ∷ bs)) (drop (count_of a) (b ∷ bs)) turns
unfolding write_from
write_from-calm sent b bs t turns (written zero) e c = absurd (c.3 e)
write_from-calm sent b bs t turns (written (suc k)) e c = rw (c.0, e, write_from)
write_from-calm sent b bs t turns write_interrupted e c =
    rw (c.0, e, c.1, write_from) (ap (λ g. write_from g (b ∷ bs) turns) (sym (append-nil sent)))
write_from-calm sent b bs t turns write_failed e c = absurd (c.2 e)

write_from-returns :
    (sent left : List ℕ) (turns : List (Turn WriteAnswer))
    → All IsCalmWrite turns
    → length left ≤ accepted turns
    → (write_from sent left turns).0 ≡ complete
unfolding accepted
write_from-returns sent [] turns c enough = unfold write_from in refl
write_from-returns sent (b ∷ bs) [] c enough = absurd (omega arith)
write_from-returns sent (b ∷ bs) (t ∷ turns) c enough =
    let k = count_of t.answer in
    rw (write_from-calm sent b bs t turns t.answer refl c.0) (
      write_from-returns (sent ++ take k (b ∷ bs)) (drop k (b ∷ bs)) turns c.1
        (omega (arith, length-drop k (b ∷ bs))))

-- On a calm kernel that takes enough bytes the call returns 0.
pub write_all_returns :
    (buffer : List ℕ) (turns : List (Turn WriteAnswer))
    → All IsCalmWrite turns
    → length buffer ≤ accepted turns
    → (write_all buffer turns).0 ≡ complete
unfolding write_all
write_all_returns buffer turns c enough = write_from-returns [] buffer turns c enough
