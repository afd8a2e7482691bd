-- ===== src/Auth/Transfer/Tests.antt =====
-- Transfers with short counts and interrupts, and the theorems at them.
use st5039cmd.Base.{ℕ, ◌≡◌, refl, arith, false, List, [], ◌∷◌, length, take}
use st5039cmd.Auth.Transfer.{
  ReadAnswer, received, read_interrupted, WriteAnswer, written, write_interrupted, write_failed,
  Turn, complete, read_from, read_all, write_all,
}
use st5039cmd.Auth.Transfer.Reading.{arrived, read_all_exact, read_all_returns}
use st5039cmd.Auth.Transfer.Writing.{Delivers, accepted, write_all-Delivers, write_all_returns}

abbrev pub quiet : {A : Type 0} → A → Turn A
quiet a = record { stop_before = false; answer = a; stop_after = false }

-- Two bytes, an interrupt, and two bytes more.
abbrev cut_stream : List (Turn ReadAnswer)
cut_stream =
    quiet (received (7 ∷ 8 ∷ [])) ∷ quiet read_interrupted ∷ quiet (received (9 ∷ 10 ∷ [])) ∷ []

abbrev short_writes : List (Turn WriteAnswer)
short_writes = (quiet (written 1) ∷ quiet write_interrupted ∷ quiet (written 2) ∷ [])

abbrev four_bytes : List ℕ
four_bytes = 7 ∷ 8 ∷ 9 ∷ 10 ∷ []

abbrev broken_writes : List (Turn WriteAnswer)
broken_writes = (quiet (written 1) ∷ quiet write_failed ∷ [])

reads_across_the_cut : read_all 4 cut_stream ≡ (complete, four_bytes)
unfolding read_all read_from
reads_across_the_cut = refl

cut_stream_filled : (length four_bytes ≡ 4) × (four_bytes ≡ take 4 (arrived cut_stream))
unfolding read_all read_from arrived
cut_stream_filled =
    read_all_exact 4 cut_stream four_bytes (omega arith, (omega arith, (omega arith, tt))) refl

read_all_returns_example : read_all 4 cut_stream ≡ (complete, take 4 (arrived cut_stream))
unfolding arrived
read_all_returns_example =
    read_all_returns 4 cut_stream
      ((refl, refl, omega arith), ((refl, refl, tt), ((refl, refl, omega arith), tt)))
      (omega arith, (omega arith, (omega arith, tt))) (omega arith)

broken_writes-Delivers : Delivers (1 ∷ 2 ∷ 3 ∷ []) (write_all (1 ∷ 2 ∷ 3 ∷ []) broken_writes)
broken_writes-Delivers = write_all-Delivers (1 ∷ 2 ∷ 3 ∷ []) broken_writes

write_all_returns_example : (write_all (1 ∷ 2 ∷ 3 ∷ []) short_writes).0 ≡ complete
unfolding accepted
write_all_returns_example =
    write_all_returns (1 ∷ 2 ∷ 3 ∷ []) short_writes
      (
        (refl, refl, λ e. cc, λ e. cc),
        ((refl, refl, λ e. cc, λ e. cc), ((refl, refl, λ e. cc, λ e. cc), tt)),
      )
      (omega arith)
