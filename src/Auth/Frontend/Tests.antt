-- ===== src/Auth/Frontend/Tests.antt =====
-- Runs of the frontend's parts, and the theorems at them.
use st5039cmd.Base.{
  ℕ, ◌≤◌, ◌<◌, ◌≡◌, ◌⊎◌, ◌↔◌, refl, true, false, List, [], ◌∷◌, ◌++◌, none, some, length,
}
use st5039cmd.Base.CString.{codes}
use st5039cmd.Base.Stdio.{File, read_line, fgets}
use st5039cmd.Auth.Protocol.{auth_username_max}
use st5039cmd.Auth.Transfer.{received, written, waiting}
use st5039cmd.Auth.Server.Effects.{held_after, holding}
use st5039cmd.Auth.Frontend.Input.{
  cut_newline, copy_string, accept_line, accept_input, read_username,
}
use st5039cmd.Auth.Frontend.Input.Accepts.{BeginsWith, Stores, read_username_iff}
use st5039cmd.Auth.Frontend.Terminal.{Termios, PasswordAnswers, read_password}
use st5039cmd.Auth.Frontend.Terminal.Restored.{IsRestored, IsHidden, read_password-IsRestored}
use st5039cmd.Auth.Frontend.Terminal.Accepts.{source, CanHide, read_password_iff}
use st5039cmd.Auth.Frontend.Exchange.{Layout, ExchangeAnswers, exchange_auth_request}
use st5039cmd.Auth.Frontend.Exchange.Exchanged.{exchange_auth_request-GivesBack}
use st5039cmd.Auth.Frontend.Main.{request_of, cleared_username, cleared_password}

abbrev typed_name : File
typed_name = record { bytes = codes "demo_user" ++ 10 ∷ []; fails = false }

-- The newline is missing at the end of the file.
abbrev unended_name : File
unended_name = record { bytes = codes "demo_user"; fails = false }

unended_refused : (read_username false cleared_username unended_name).0 ≡ none
unfolding read_username fgets read_line accept_input cut_newline accept_line
unended_refused = refl

read_username_iff_example :
    ((read_username false cleared_username typed_name).0
      ≡ some (copy_string (codes "demo_user") cleared_username))
    ↔ ((false ≡ false)
        × (line : List ℕ) × BeginsWith line typed_name.bytes
        × (0 < length line)
        × (length line ≤ auth_username_max)
        × (copy_string (codes "demo_user") cleared_username ≡ copy_string line cleared_username))
read_username_iff_example =
    read_username_iff false cleared_username typed_name
      (copy_string (codes "demo_user") cleared_username) refl

abbrev terminal : Termios
terminal = record { echo = true; other_settings = 7 }

-- Ctrl-C at the prompt of a password.
abbrev interrupts : PasswordAnswers
interrupts = record {
  interrupted_before = false;
  isatty = true;
  gets_settings = true;
  hides = true;
  interrupted_hidden = false;
  typed = record { bytes = codes "demo_pass"; fails = true };
  restores = true;
  interrupted_after = true;
}

read_password-IsRestored_example :
    IsRestored interrupts terminal (read_password interrupts cleared_password terminal typed_name)
    × IsHidden interrupts (read_password interrupts cleared_password terminal typed_name).during
read_password-IsRestored_example =
    read_password-IsRestored interrupts cleared_password terminal typed_name

abbrev answers_at_once : PasswordAnswers
answers_at_once = record interrupts {
  typed = record { bytes = codes "demo_password" ++ 10 ∷ []; fails = false };
  interrupted_after = false;
}

read_password_iff_example :
    ((read_password answers_at_once cleared_password terminal typed_name).password
      ≡ some (copy_string (codes "demo_password") cleared_password))
    ↔ ((false ≡ false)
        × (false ≡ false)
        × (false ≡ false)
        × CanHide answers_at_once
        × Stores 129 cleared_password refl
            (source answers_at_once typed_name)
            (copy_string (codes "demo_password") cleared_password))
read_password_iff_example =
    read_password_iff answers_at_once cleared_password refl terminal typed_name
      (copy_string (codes "demo_password") cleared_password)

abbrev small_layout : Layout
small_layout = record {
  encode = λ request. request.version ∷ request.type ∷ [];
  response_size = 2;
  decode = λ bytes. record { version = 1; result = 1; error_code = 0; message = bytes };
}

-- The backend hangs up behind the first byte of its response.
abbrev hung_up : ExchangeAnswers
hung_up = record {
  interrupted = false;
  socket = some 5;
  sun_path_size = 108;
  connects = true;
  writes = (record { answer = written 2; interrupted = false } ∷ []);
  reads =
      (record { answer = received (1 ∷ []); interrupted = false }
        ∷ record { answer = received []; interrupted = false }
        ∷ []);
  closes = true;
}

hung_up-GivesBack :
    let e = exchange_auth_request hung_up small_layout (request_of (codes "a") (codes "b")) in
    (e.outcome ≡ waiting) ⊎ (held_after e.acts (holding none []) ≡ holding none [])
hung_up-GivesBack =
    exchange_auth_request-GivesBack hung_up small_layout (request_of (codes "a") (codes "b"))
