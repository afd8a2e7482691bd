-- ===== src/Auth/Transfer.antt =====
-- Authentication/Backend.c: `read_all` and `write_all`. The kernel and the signal handler are a list
-- of turns: what one round of the loop meets. A list that ends before the loop does stands for a
-- call that has not returned yet.
pub mod Reading
pub mod Writing
pub mod Tests
use st5039cmd.Base.{
  ℕ, zero, suc, ◌-◌, Bool, true, false, List, [], ◌∷◌, ◌++◌, length, take, drop, if◌then◌else◌,
}

pub data ReadAnswer : Type 0 where
  received : List ℕ → ReadAnswer
  read_interrupted read_failed : ReadAnswer

pub data WriteAnswer : Type 0 where
  written : ℕ → WriteAnswer
  write_interrupted write_failed : WriteAnswer

-- `stop_requested` at the head of the round, the call's answer, and `stop_requested` behind an EINTR.
pub record Turn (A : Type 0) : Type 0 where
  pub stop_before : Bool
  pub answer : A
  pub stop_after : Bool

-- Returned 0, returned -1, or still in a call.
pub data Outcome : Type 0 where
  complete aborted waiting : Outcome

-- The loop of `read_all`: the bytes in the buffer, and `length`. Beside the outcome stands the
-- buffer's filled part.
unfoldable pub read_from : List ℕ → ℕ → List (Turn ReadAnswer) → Outcome × List ℕ
read_from got zero turns = (complete, got)
read_from got (suc n) [] = (waiting, got)
read_from got (suc n) (t ∷ turns) = elim t.stop_before [
  | true ↦ (aborted, got)
  | false ↦ elim t.answer [
    | read_interrupted ↦ elim t.stop_after [
      | true ↦ (aborted, got)
      | false ↦ read_from got (suc n) turns
    ]
    | read_failed ↦ (aborted, got)
    | received [] ↦ (aborted, got)
    | received (b ∷ bs) ↦ read_from (got ++ b ∷ bs) (suc n - length (b ∷ bs)) turns
  ]
]

unfoldable pub read_all : ℕ → List (Turn ReadAnswer) → Outcome × List ℕ
unfolding read_from
read_all n turns = read_from [] n turns

-- The loop of `write_all`: what the peer was sent, and the bytes from `cursor` on.
unfoldable pub write_from : List ℕ → List ℕ → List (Turn WriteAnswer) → Outcome × List ℕ
write_from sent [] turns = (complete, sent)
write_from sent (b ∷ bs) [] = (waiting, sent)
write_from sent (b ∷ bs) (t ∷ turns) = elim t.stop_before [
  | true ↦ (aborted, sent)
  | false ↦ elim t.answer [
    | write_interrupted ↦ elim t.stop_after [
      | true ↦ (aborted, sent)
      | false ↦ write_from sent (b ∷ bs) turns
    ]
    | write_failed ↦ (aborted, sent)
    | written zero ↦ (aborted, sent)
    | written (suc k) ↦ write_from (sent ++ take (suc k) (b ∷ bs)) (drop (suc k) (b ∷ bs)) turns
  ]
]

unfoldable pub write_all : List ℕ → List (Turn WriteAnswer) → Outcome × List ℕ
unfolding write_from
write_all buffer turns = write_from [] buffer turns
