-- ===== src/Auth/Frontend/Terminal/Accepts.antt =====
-- `read_password`: what it stores.
use mathlib.Core.Bool.{false≢true}
use st5039cmd.Base.{
  ℕ, ◌+◌, ◌≡◌, ◌⊎◌, ◌↔◌, refl, sym, ap, ◌∙◌, Bool, true, false, not, ◌||◌, List, none, some, length,
  if◌then◌else◌, arith, Bool-cases, inl, inr,
}
use st5039cmd.Base.Stdio.{File, fgets}
use st5039cmd.Auth.Protocol.{auth_password_max}
use st5039cmd.Auth.Frontend.Input.Accepts.{Stores, accept_input_iff}
use st5039cmd.Auth.Frontend.Terminal.{
  Termios, TerminalEchoState, PasswordAnswers, disable_terminal_echo, restore_terminal_echo,
  input_of, finish_password, read_enabled, read_hidden, read_prompted, not_read, read_password,
}

none≢some : {x : List ℕ} → none ≡ some x → ⊥
none≢some e = cc

-- Where the password comes from: a terminal is flushed before.
abbrev pub source : PasswordAnswers → File → File
source a stdin = if a.isatty then a.typed else stdin

-- Every call for the terminal succeeds, if there is one.
abbrev pub CanHide : PasswordAnswers → Type 0
CanHide a = (a.isatty ≡ false) ⊎ ((a.gets_settings ≡ true) × (a.hides ≡ true) × (a.restores ≡ true))

restore-ok :
    (restores : Bool) (original now : Termios)
    → (restore_terminal_echo restores (some original) now).0 ≡ true
    → restores ≡ true
unfolding restore_terminal_echo
restore-ok restores original now h = ground (arith, h)

module _ (a : PasswordAnswers) (password : List ℕ)
    (size : length password ≡ auth_password_max + 1) where
  finish_password-Stores :
      (e : TerminalEchoState) (t : Termios) (stdin : File) (stored : List ℕ)
      → (finish_password a password e t (fgets 129 stdin)).password ≡ some stored
      → (a.interrupted_after ≡ false)
        × ((restore_terminal_echo a.restores e t).0 ≡ true)
        × Stores 129 password size stdin stored
  unfolding finish_password
  finish_password-Stores e t stdin stored h =
      elim (Bool-cases (not (restore_terminal_echo a.restores e t).0 || a.interrupted_after)) [
        | inl bad ↦ absurd (none≢some (rw bad at h))
        | inr good ↦ (
          ground (arith, good),
          ground (arith, good),
          (accept_input_iff 129 password size stdin stored).0 (rw good at h),
        )
      ]

  finish_password-takes :
      (e : TerminalEchoState) (t : Termios) (stdin : File) (stored : List ℕ)
      → a.interrupted_after ≡ false
      → (restore_terminal_echo a.restores e t).0 ≡ true
      → Stores 129 password size stdin stored
      → (finish_password a password e t (fgets 129 stdin)).password ≡ some stored
  unfolding finish_password
  finish_password-takes e t stdin stored free ok s =
      let good : (not (restore_terminal_echo a.restores e t).0 || a.interrupted_after) ≡ false =
        ground (arith, free, ok) in
      rw good ((accept_input_iff 129 password size stdin stored).1 s)

  -- What it takes to store a string, apart from the first test for a signal.
  abbrev Typed : File → List ℕ → Type 0
  Typed stdin stored =
      (a.interrupted_hidden ≡ false)
      × (a.interrupted_after ≡ false)
      × CanHide a
      × Stores 129 password size (source a stdin) stored

  read_enabled-Stores :
      (e : TerminalEchoState) (t : Termios) (stdin : File) (interrupted : Bool) (stored : List ℕ)
      → (read_enabled a password stdin e t interrupted).password ≡ some stored
      → (interrupted ≡ false)
        × (a.interrupted_after ≡ false)
        × ((restore_terminal_echo a.restores e t).0 ≡ true)
        × Stores 129 password size (input_of a e stdin) stored
  unfolding read_enabled not_read
  read_enabled-Stores e t stdin true stored h = absurd (none≢some h)
  read_enabled-Stores e t stdin false stored h =
      let (after, ok, s) = finish_password-Stores e t (input_of a e stdin) stored h in
      (refl, after, ok, s)

  read_enabled-takes :
      (e : TerminalEchoState) (t : Termios) (stdin : File) (interrupted : Bool) (stored : List ℕ)
      → interrupted ≡ false
      → a.interrupted_after ≡ false
      → (restore_terminal_echo a.restores e t).0 ≡ true
      → Stores 129 password size (input_of a e stdin) stored
      → (read_enabled a password stdin e t interrupted).password ≡ some stored
  unfolding read_enabled
  read_enabled-takes e t stdin true stored free after ok s = absurd (false≢true (sym free))
  read_enabled-takes e t stdin false stored free after ok s =
      finish_password-takes e t (input_of a e stdin) stored after ok s

  hidden-Typed :
      (tty gets hides : Bool) (t : Termios) (stdin : File) (stored : List ℕ)
      → a.isatty ≡ tty
      → a.gets_settings ≡ gets
      → a.hides ≡ hides
      → (read_hidden a password stdin (disable_terminal_echo tty gets hides t)).password
        ≡ some stored
      → Typed stdin stored
  unfolding read_hidden disable_terminal_echo not_read input_of
  hidden-Typed false gets hides t stdin stored et eg eh h =
      let (free, after, ok, s) = read_enabled-Stores none t stdin a.interrupted_hidden stored h in
      (free, after, inl et, rw et s)
  hidden-Typed true false hides t stdin stored et eg eh h = absurd (none≢some h)
  hidden-Typed true true false t stdin stored et eg eh h = absurd (none≢some h)
  hidden-Typed true true true t stdin stored et eg eh h =
      let now = record t { echo = false } in
      let (free, after, ok, s) =
        read_enabled-Stores (some t) now stdin a.interrupted_hidden stored h in
      (free, after, inr (eg, eh, restore-ok a.restores t now ok), rw et s)

  hidden-takes :
      (tty gets hides : Bool) (t : Termios) (stdin : File) (stored : List ℕ)
      → a.isatty ≡ tty
      → a.gets_settings ≡ gets
      → a.hides ≡ hides
      → Typed stdin stored
      → (read_hidden a password stdin (disable_terminal_echo tty gets hides t)).password
        ≡ some stored
  unfolding read_hidden disable_terminal_echo input_of restore_terminal_echo
  hidden-takes false gets hides t stdin stored et eg eh h =
      let (free, after, can, s) = h in
      read_enabled-takes none t stdin a.interrupted_hidden stored free after refl (rw et at s)
  hidden-takes true gets hides t stdin stored et eg eh h =
      let (free, after, can, s) = h in
      elim can [
        | inl none_there ↦ absurd (false≢true (sym none_there ∙ et))
        | inr (got, hid, back) ↦
            let now = record t { echo = false } in
            let done : disable_terminal_echo true gets hides t ≡ (some (some t), now) =
              rw (sym eg ∙ got, sym eh ∙ hid) in
            ap (λ x. (read_hidden a password stdin x).password) done
            ∙ read_enabled-takes (some t) now stdin a.interrupted_hidden stored free after (rw back)
                (rw et at s)
      ]

  -- `read_password` succeeds exactly if no signal came, every call for the terminal succeeded and the
  -- input begins with a password of 1 to 128 bytes and a newline; it then stores that password. At a
  -- terminal, that is what was typed after the prompt.
  pub read_password_iff :
      (t : Termios) (stdin : File) (stored : List ℕ)
      → ((read_password a password t stdin).password ≡ some stored) ↔ (
          (a.interrupted_before ≡ false)
          × (a.interrupted_hidden ≡ false)
          × (a.interrupted_after ≡ false)
          × CanHide a
          × Stores 129 password size (source a stdin) stored)
  unfolding read_password read_prompted not_read
  read_password_iff t stdin stored = go a.interrupted_before
    where
      go :
          (b : Bool)
          → ((read_prompted a password t stdin b).password ≡ some stored) ↔ (
              (b ≡ false)
              × (a.interrupted_hidden ≡ false)
              × (a.interrupted_after ≡ false)
              × CanHide a
              × Stores 129 password size (source a stdin) stored)
      go true = (λ e. absurd (none≢some e), λ h. absurd (false≢true (sym h.0)))
      go false = (
        λ e.
            let (free, after, can, s) =
              hidden-Typed a.isatty a.gets_settings a.hides t stdin stored refl refl refl e in
            (refl, free, after, can, s),
        λ h.
            let (before, free, after, can, s) = h in
            hidden-takes a.isatty a.gets_settings a.hides t stdin stored refl refl refl
              (free, after, can, s),
      )
