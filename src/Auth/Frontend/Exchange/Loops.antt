-- ===== src/Auth/Frontend/Exchange/Loops.antt =====
-- The two loops of the frontend are those of the backend, if no stop is asked for between the calls.
use st5039cmd.Base.{
  ℕ, zero, suc, ◌-◌, ◌≡◌, refl, Bool, true, false, List, [], ◌∷◌, ◌++◌, length, take, drop,
}
use st5039cmd.Auth.Transfer
use st5039cmd.Auth.Transfer.{
  ReadAnswer, received, read_interrupted, read_failed, WriteAnswer, written, write_interrupted,
  write_failed, Outcome, complete, aborted, waiting,
}
use st5039cmd.Auth.Frontend.Exchange.{Turn, write_from, write_all, read_from, read_all}

-- A turn as the backend meets it.
abbrev pub as_backend : {A : Type 0} → Turn A → Transfer.Turn A
as_backend t = record { stop_before = false; answer = t.answer; stop_after = t.interrupted }

abbrev pub all_as_backend : {A : Type 0} → List (Turn A) → List (Transfer.Turn A)
all_as_backend [] = []
all_as_backend (t ∷ turns) = as_backend t ∷ all_as_backend turns

write_from-as_backend :
    (sent left : List ℕ) (turns : List (Turn WriteAnswer))
    → write_from sent left turns ≡ Transfer.write_from sent left (all_as_backend turns)
unfolding write_from Transfer.write_from
write_from-as_backend sent [] turns = refl
write_from-as_backend sent (b ∷ bs) [] = refl
write_from-as_backend sent (b ∷ bs) (t ∷ turns) =
    go t.answer t.interrupted (λ s l. write_from-as_backend s l turns)
  where
    go :
        (a : WriteAnswer) (i : Bool)
        → ((s l : List ℕ) → write_from s l turns ≡ Transfer.write_from s l (all_as_backend turns))
        → write_from sent (b ∷ bs) (record { answer = a; interrupted = i } ∷ turns)
          ≡ Transfer.write_from sent
              (b ∷ bs)
              (record { stop_before = false; answer = a; stop_after = i } ∷ all_as_backend turns)
    go (written zero) i ih = refl
    go (written (suc k)) i ih = ih (sent ++ take (suc k) (b ∷ bs)) (drop (suc k) (b ∷ bs))
    go write_interrupted true ih = refl
    go write_interrupted false ih = ih sent (b ∷ bs)
    go write_failed i ih = refl

pub write_all-as_backend :
    (buffer : List ℕ) (turns : List (Turn WriteAnswer))
    → write_all buffer turns ≡ Transfer.write_all buffer (all_as_backend turns)
unfolding write_all Transfer.write_all
write_all-as_backend buffer turns = write_from-as_backend [] buffer turns

read_from-as_backend :
    (got : List ℕ) (n : ℕ) (turns : List (Turn ReadAnswer))
    → read_from got n turns ≡ Transfer.read_from got n (all_as_backend turns)
unfolding read_from Transfer.read_from
read_from-as_backend got zero turns = refl
read_from-as_backend got (suc n) [] = refl
read_from-as_backend got (suc n) (t ∷ turns) =
    go t.answer t.interrupted (λ g m. read_from-as_backend g m turns)
  where
    go :
        (a : ReadAnswer) (i : Bool)
        → ((g : List ℕ) (m : ℕ)
            → read_from g m turns ≡ Transfer.read_from g m (all_as_backend turns))
        → read_from got (suc n) (record { answer = a; interrupted = i } ∷ turns)
          ≡ Transfer.read_from got
              (suc n)
              (record { stop_before = false; answer = a; stop_after = i } ∷ all_as_backend turns)
    go (received []) i ih = refl
    go (received (b ∷ bs)) i ih = ih (got ++ b ∷ bs) (suc n - length (b ∷ bs))
    go read_interrupted true ih = refl
    go read_interrupted false ih = ih got (suc n)
    go read_failed i ih = refl

pub read_all-as_backend :
    (n : ℕ) (turns : List (Turn ReadAnswer))
    → read_all n turns ≡ Transfer.read_all n (all_as_backend turns)
unfolding read_all Transfer.read_all
read_all-as_backend n turns = read_from-as_backend [] n turns
