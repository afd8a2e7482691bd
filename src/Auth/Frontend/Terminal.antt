-- ===== src/Auth/Frontend/Terminal.antt =====
-- Authentication/Frontend.c: `disable_terminal_echo`, `restore_terminal_echo` and `read_password`. The
-- settings of the terminal are a state that each step passes on.
pub mod Restored
pub mod Accepts
use st5039cmd.Base.{
  ℕ, ◌+◌, ◌-◌, Bool, true, false, not, ◌||◌, List, Option, none, some, length, if◌then◌else◌,
}
use st5039cmd.Base.Stdio.{File, fgets}
use st5039cmd.Auth.Protocol.{auth_password_max}
use st5039cmd.Auth.Frontend.Input.{accept_input}

-- PASSWORD_INPUT_BUFFER_SIZE.
abbrev pub password_input_buffer_size : ℕ
password_input_buffer_size = auth_password_max + 2

-- `struct termios`: the flag ECHO, and everything else.
pub record Termios : Type 0 where
  pub echo : Bool
  pub other_settings : ℕ

-- `TerminalEchoState`: the original settings, if they are to be restored.
abbrev pub TerminalEchoState : Type 0
TerminalEchoState = Option Termios

-- What the kernel answers during `read_password`, and `frontend_interrupted` at its three tests.
-- `typed` is what standard input holds behind the flush of TCSAFLUSH.
pub record PasswordAnswers : Type 0 where
  pub interrupted_before : Bool
  pub isatty : Bool
  pub gets_settings : Bool
  pub hides : Bool
  pub interrupted_hidden : Bool
  pub typed : File
  pub restores : Bool
  pub interrupted_after : Bool

-- `none` is the return of -1; beside it stand the settings of the terminal.
unfoldable pub disable_terminal_echo :
    (isatty gets_settings hides : Bool) → Termios → Option TerminalEchoState × Termios
disable_terminal_echo false gets_settings hides t = (some none, t)
disable_terminal_echo true false hides t = (none, t)
disable_terminal_echo true true false t = (none, t)
disable_terminal_echo true true true t = (some (some t), record t { echo = false })

unfoldable pub restore_terminal_echo :
    (restores : Bool) → TerminalEchoState → Termios → Bool × Termios
restore_terminal_echo restores none t = (true, t)
restore_terminal_echo restores (some original) t = if restores then (true, original) else (false, t)

-- The array that is filled, the settings at the end, and those under which `fgets` ran, if it did.
pub record PasswordRead : Type 0 where
  pub password : Option (List ℕ)
  pub terminal : Termios
  pub during : Option Termios

-- A return of -1 in front of `fgets`.
pub not_read : Termios → PasswordRead
not_read t = record { password = none; terminal = t; during = none }

-- Where `fgets` reads from: a terminal has been flushed.
pub input_of : PasswordAnswers → TerminalEchoState → File → File
input_of a none stdin = stdin
input_of a (some original) stdin = a.typed

-- From the call of `fgets` on.
pub finish_password :
    PasswordAnswers → List ℕ → TerminalEchoState → Termios → Option (List ℕ) × File → PasswordRead
finish_password a password echo_state t (input, rest) =
    let (ok, t') = restore_terminal_echo a.restores echo_state t in
    record {
      password = if not ok || a.interrupted_after then none else accept_input password input;
      terminal = t';
      during = some t;
    }

-- Behind `disable_terminal_echo`, with `frontend_interrupted`.
pub read_enabled :
    PasswordAnswers
    → List ℕ
    → File
    → TerminalEchoState
    → Termios
    → (interrupted : Bool) → PasswordRead
read_enabled a password stdin echo_state t true =
    not_read (restore_terminal_echo a.restores echo_state t).1
read_enabled a password stdin echo_state t false =
    finish_password a password echo_state t
      (fgets (password_input_buffer_size - 1) (input_of a echo_state stdin))

pub read_hidden :
    PasswordAnswers → List ℕ → File → Option TerminalEchoState × Termios → PasswordRead
read_hidden a password stdin (none, t) = not_read t
read_hidden a password stdin (some echo_state, t) =
    read_enabled a password stdin echo_state t a.interrupted_hidden

-- Behind the prompt.
pub read_prompted : PasswordAnswers → List ℕ → Termios → File → (interrupted : Bool) → PasswordRead
read_prompted a password t stdin true = not_read t
read_prompted a password t stdin false =
    read_hidden a password stdin (disable_terminal_echo a.isatty a.gets_settings a.hides t)

unfoldable pub read_password : PasswordAnswers → (password : List ℕ) → Termios → File → PasswordRead
unfolding disable_terminal_echo restore_terminal_echo not_read input_of finish_password read_enabled
    read_hidden read_prompted
read_password a password t stdin = read_prompted a password t stdin a.interrupted_before
