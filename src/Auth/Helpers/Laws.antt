-- ===== src/Auth/Helpers/Laws.antt =====
-- What the helpers establish.
use mathlib.Core.Bool.{false≢true}
use st5039cmd.Base.{
  ℕ, zero, suc, ◌≤◌, ◌≡◌, ◌↔◌, ◌⊎◌, refl, ap, Bool, true, false, not, ◌&&◌, List, [], ◌∷◌, ◌++◌,
  All, Any, some, length, drop, replicate, ◌==◌, if◌then◌else◌, arith, inl, inr,
}
use st5039cmd.Base.CString.{c_string}
use st5039cmd.Base.Signals.{Signal, IsPartOf, set_in_order-IsPartOf}
use st5039cmd.Base.Stdio.{text_of, newline_ended, FitsLine, file_lines-text_of}
use st5039cmd.Auth.Helpers.{
  auth_settings, install_signal_handlers, install_frontend_signal_handlers, is_uid_line, uid_lines,
  log_proc_status_uid_lines, clear_from, secure_clear,
}

-- The handlers of both programs are set in one order, up to the first failure.
pub install_signal_handlers-IsPartOf :
    (sigaction : Signal → Bool)
    → IsPartOf auth_settings (install_signal_handlers sigaction)
      × (install_frontend_signal_handlers sigaction ≡ install_signal_handlers sigaction)
unfolding install_signal_handlers install_frontend_signal_handlers
install_signal_handlers-IsPartOf sigaction = (set_in_order-IsPartOf sigaction auth_settings, refl)

clear_from-zeros :
    (bytes : List ℕ) (n : ℕ) → n ≤ length bytes → clear_from bytes n ≡ replicate n 0 ++ drop n bytes
unfolding clear_from
clear_from-zeros bytes zero h = refl
clear_from-zeros [] (suc n) h = absurd (omega (arith, h))
clear_from-zeros (b ∷ bytes) (suc n) h = ap (◌∷◌ 0) (clear_from-zeros bytes n (omega (arith, h)))

-- The first bytes of the buffer are zero, and no other byte is touched.
pub secure_clear_lem :
    (buffer : List ℕ) (n : ℕ)
    → n ≤ length buffer
    → secure_clear (some buffer) n ≡ some (replicate n 0 ++ drop n buffer)
unfolding secure_clear
secure_clear_lem buffer zero h = refl
secure_clear_lem buffer (suc n) h =
    let given : (suc n == 0) ≡ false = ground arith in
    rw given (ap some (clear_from-zeros buffer (suc n) h))

-- A line of the file that is logged.
abbrev pub IsUidLine : List ℕ → Type 0
IsUidLine t = is_uid_line (t ++ 10 ∷ []) ≡ true

one_line :
    (b : Bool) (line : List ℕ) (rest : List (List ℕ)) (P : Type 0)
    → (not (length rest == 0) ≡ true) ↔ P
    → (not (length (if b then line ∷ rest else rest) == 0) ≡ true) ↔ ((b ≡ true) ⊎ P)
one_line true line rest P h = (λ e. inl refl, λ e. ground arith)
one_line false line rest P (only_if, if_so) = (
  λ e. inr (only_if e),
  λ e. elim e [ inl clash ↦ absurd (false≢true clash) | inr there ↦ if_so there ],
)

found_iff :
    (ts : List (List ℕ))
    → (not (length (uid_lines (newline_ended ts)) == 0) ≡ true) ↔ Any IsUidLine ts
unfolding uid_lines newline_ended
found_iff [] = (λ e. absurd (false≢true e), λ h. absurd h)
found_iff (t ∷ ts) =
    one_line (is_uid_line (t ++ 10 ∷ [])) (c_string (t ++ 10 ∷ [])) (uid_lines (newline_ended ts))
      (Any IsUidLine ts) (found_iff ts)

and_iff : (a b : Bool) (P : Type 0) → ((b ≡ true) ↔ P) → ((a && b) ≡ true) ↔ ((a ≡ true) × P)
and_iff true b P (only_if, if_so) = (λ e. (refl, only_if e), λ h. if_so h.1)
and_iff false b P h = (λ e. absurd (false≢true e), λ h. absurd (false≢true h.0))

-- For a status file of lines that fit the buffer: the call returns 0 exactly if the file could be closed
-- and one of its lines begins with `Uid:`.
pub log_proc_status_uid_lines_iff :
    (ts : List (List ℕ)) (closes : Bool)
    → All (FitsLine 255) ts
    → ((log_proc_status_uid_lines (some (record { bytes = text_of ts; fails = false })) closes).0
        ≡ true)
      ↔ ((closes ≡ true) × Any IsUidLine ts)
unfolding log_proc_status_uid_lines
log_proc_status_uid_lines_iff ts closes h = rw (file_lines-text_of 255 ts h) (
    and_iff closes (not (length (uid_lines (newline_ended ts)) == 0)) (Any IsUidLine ts)
      (found_iff ts))
