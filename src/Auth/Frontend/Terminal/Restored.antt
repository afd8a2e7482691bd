-- ===== src/Auth/Frontend/Terminal/Restored.antt =====
-- `read_password`: the terminal is put back, and nothing is typed in the open.
use st5039cmd.Base.{ℕ, ◌≡◌, ◌⊎◌, inl, inr, refl, Bool, true, false, List, Option, none, some}
use st5039cmd.Base.Stdio.{File, fgets}
use st5039cmd.Auth.Frontend.Terminal.{
  Termios, TerminalEchoState, PasswordAnswers, disable_terminal_echo, restore_terminal_echo,
  PasswordRead, input_of, finish_password, read_enabled, read_hidden, read_prompted, not_read,
  read_password,
}

-- The settings are as they were, or the call that puts them back failed and so did the whole.
abbrev pub IsRestored : PasswordAnswers → Termios → PasswordRead → Type 0
IsRestored a t r = (r.terminal ≡ t) ⊎ ((a.restores ≡ false) × (r.password ≡ none))

-- What was disabled: the state remembers the original.
abbrev Remembers : Termios → TerminalEchoState → Termios → Type 0
Remembers t none now = now ≡ t
Remembers t (some original) now = (original ≡ t) × (now.echo ≡ false)

restore-cases :
    (restores : Bool) (t now : Termios) (e : TerminalEchoState)
    → Remembers t e now
    → ((restore_terminal_echo restores e now).1 ≡ t)
      ⊎ ((restores ≡ false) × ((restore_terminal_echo restores e now).0 ≡ false))
unfolding restore_terminal_echo
restore-cases restores t now none h = inl h
restore-cases true t now (some original) h = inl h.0
restore-cases false t now (some original) h = inr (refl, refl)

-- The cases of `disable_terminal_echo`: it failed and changed nothing, or it remembers; and it
-- remembers nothing only away from a terminal.
abbrev Disables : Bool → Termios → Option TerminalEchoState × Termios → Type 0
Disables isatty t (none, now) = now ≡ t
Disables isatty t (some none, now) = (now ≡ t) × (isatty ≡ false)
Disables isatty t (some (some original), now) =
    (original ≡ t) × (now.echo ≡ false) × (isatty ≡ true)

disable-Disables :
    (isatty gets_settings hides : Bool) (t : Termios)
    → Disables isatty t (disable_terminal_echo isatty gets_settings hides t)
unfolding disable_terminal_echo
disable-Disables false gets_settings hides t = (refl, refl)
disable-Disables true false hides t = refl
disable-Disables true true false t = refl
disable-Disables true true true t = (refl, refl, refl)

Disables-Remembers :
    (isatty : Bool) (t now : Termios) (e : TerminalEchoState)
    → Disables isatty t (some e, now)
    → Remembers t e now
Disables-Remembers isatty t now none h = h.0
Disables-Remembers isatty t now (some original) h = (h.0, h.1)

-- On a terminal nothing is typed with the echo on.
abbrev pub IsHidden : PasswordAnswers → Option Termios → Type 0
IsHidden a none = Unit {0}
IsHidden a (some now) = (a.isatty ≡ false) ⊎ (now.echo ≡ false)

Disables-IsHidden :
    (a : PasswordAnswers) (t now : Termios) (e : TerminalEchoState)
    → Disables a.isatty t (some e, now)
    → IsHidden a (some now)
Disables-IsHidden a t now none h = inl h.1
Disables-IsHidden a t now (some original) h = inr h.1

finish_password-IsRestored :
    (a : PasswordAnswers) (password : List ℕ) (e : TerminalEchoState) (t now : Termios)
    (got : Option (List ℕ) × File)
    → Remembers t e now
    → IsRestored a t (finish_password a password e now got)
unfolding finish_password
finish_password-IsRestored a password e t now (input, rest) h =
    elim (restore-cases a.restores t now e h) [
      | inl back ↦ inl back
      | inr (stuck, bad) ↦ inr (stuck, rw bad)
    ]

-- What holds of a call that began with these settings.
abbrev IsDiscreet : PasswordAnswers → Termios → PasswordRead → Type 0
IsDiscreet a t r = IsRestored a t r × IsHidden a r.during

read_enabled-IsDiscreet :
    (a : PasswordAnswers) (password : List ℕ) (stdin : File) (t now : Termios)
    (e : TerminalEchoState) (interrupted : Bool)
    → Disables a.isatty t (some e, now)
    → IsDiscreet a t (read_enabled a password stdin e now interrupted)
unfolding read_enabled not_read finish_password
read_enabled-IsDiscreet a password stdin t now e true h =
    elim (restore-cases a.restores t now e (Disables-Remembers a.isatty t now e h)) [
      | inl back ↦ (inl back, tt)
      | inr (stuck, bad) ↦ (inr (stuck, refl), tt)
    ]
read_enabled-IsDiscreet a password stdin t now e false h = (
  finish_password-IsRestored a password e t now (fgets 129 (input_of a e stdin))
      (Disables-Remembers a.isatty t now e h),
  Disables-IsHidden a t now e h,
)

read_hidden-IsDiscreet :
    (a : PasswordAnswers) (password : List ℕ) (stdin : File) (t : Termios)
    (x : Option TerminalEchoState × Termios)
    → Disables a.isatty t x
    → IsDiscreet a t (read_hidden a password stdin x)
unfolding read_hidden not_read
read_hidden-IsDiscreet a password stdin t (none, now) h = (inl h, tt)
read_hidden-IsDiscreet a password stdin t (some e, now) h =
    read_enabled-IsDiscreet a password stdin t now e a.interrupted_hidden h

read_prompted-IsDiscreet :
    (a : PasswordAnswers) (password : List ℕ) (t : Termios) (stdin : File) (interrupted : Bool)
    → IsDiscreet a t (read_prompted a password t stdin interrupted)
unfolding read_prompted not_read
read_prompted-IsDiscreet a password t stdin true = (inl refl, tt)
read_prompted-IsDiscreet a password t stdin false =
    read_hidden-IsDiscreet a password stdin t
      (disable_terminal_echo a.isatty a.gets_settings a.hides t)
      (disable-Disables a.isatty a.gets_settings a.hides t)

-- However `read_password` returns, the terminal has its settings back, unless the call that puts them
-- back fails, and then -1 is returned; and while a password is typed at a terminal its echo is off.
pub read_password-IsRestored :
    (a : PasswordAnswers) (password : List ℕ) (t : Termios) (stdin : File)
    → IsRestored a t (read_password a password t stdin)
      × IsHidden a (read_password a password t stdin).during
unfolding read_password
read_password-IsRestored a password t stdin =
    read_prompted-IsDiscreet a password t stdin a.interrupted_before
