-- ===== src/Auth/Frontend/Main.antt =====
-- Authentication/Frontend.c: `main`, from the signal handlers to the exit code. Clearing the messages
-- leaves no trace.
pub mod Answered
pub mod Returns
pub mod Leaves
use st5039cmd.Base.{
  ℕ, ◌+◌, Bool, true, false, not, List, [], Option, none, some, replicate, ◌==◌, if◌then◌else◌,
}
use st5039cmd.Base.CString.{memchr}
use st5039cmd.Base.Stdio.{File}
use st5039cmd.Auth.Protocol.{
  AuthRequest, AuthResponse, AuthResult, result_code, auth_protocol_version, auth_request_validate,
  auth_username_max, auth_password_max, auth_response_message_max,
}
use st5039cmd.Auth.Transfer.{Outcome, complete, aborted, waiting}
use st5039cmd.Auth.Server.{Act}
use st5039cmd.Auth.Frontend.Input.{read_username}
use st5039cmd.Auth.Frontend.Terminal.{Termios, PasswordAnswers, PasswordRead, read_password}
use st5039cmd.Auth.Frontend.Exchange.{Layout, ExchangeAnswers, Exchange, exchange_auth_request}

-- What the user and the kernel answer during one run; `terminal` holds the settings at the start.
pub record Answers : Type 0 where
  pub handles_signals : Bool
  pub interrupted : Bool
  pub stdin : File
  pub terminal : Termios
  pub password : PasswordAnswers
  pub exchange : ExchangeAnswers

-- What is printed of the response.
pub data Shown : Type 0 where
  nothing malformed unsupported : Shown
  succeeded failed : AuthResponse → Shown

-- Whether the run has ended, and if so whether with EXIT_SUCCESS.
pub record Run : Type 0 where
  pub exit : Option Bool
  pub terminal : Termios
  pub acts : List Act
  pub sent : List ℕ
  pub shown : Shown

-- The request that is filled in: cleared arrays.
abbrev pub request_of : List ℕ → List ℕ → AuthRequest
request_of username password = record {
  version = auth_protocol_version;
  type = auth_request_validate;
  username = username;
  password = password;
}

abbrev pub cleared_username : List ℕ
cleared_username = replicate (auth_username_max + 1) 0

abbrev pub cleared_password : List ℕ
cleared_password = replicate (auth_password_max + 1) 0

pub stopped : Termios → Run
stopped t = record { exit = some false; terminal = t; acts = []; sent = []; shown = nothing }

-- The tests of a response that was received whole.
unfoldable pub judge : AuthResponse → Bool × Shown
judge response = elim (memchr 0 (auth_response_message_max + 1) response.message) [
  | none ↦ (false, malformed)
  | some length ↦
      if not (response.version == auth_protocol_version)
      then (false, unsupported)
      else if response.result == result_code AuthResult.success
      then (true, succeeded response)
      else (false, failed response)
]

pub after_exchange : Termios → AuthResponse → Exchange → Outcome → Run
after_exchange t response e complete =
    let (success, shown) = judge response in
    record { exit = some success; terminal = t; acts = e.acts; sent = e.sent; shown = shown }
after_exchange t response e aborted = record {
  exit = some false;
  terminal = t;
  acts = e.acts;
  sent = e.sent;
  shown = nothing;
}
after_exchange t response e waiting = record {
  exit = none;
  terminal = t;
  acts = e.acts;
  sent = e.sent;
  shown = nothing;
}

module _ (l : Layout) where
  pub send_request : Answers → Termios → AuthRequest → Run
  send_request a t request =
      let e = exchange_auth_request a.exchange l request in
      after_exchange t (l.decode e.response) e e.outcome

  -- Behind `read_password`.
  pub after_password : Answers → List ℕ → Termios → Option (List ℕ) → Run
  after_password a username t none = stopped t
  after_password a username t (some password) = send_request a t (request_of username password)

  -- Behind `read_username`.
  pub after_username : Answers → Option (List ℕ) × File → Run
  after_username a (none, stdin) = stopped a.terminal
  after_username a (some username, stdin) =
      let r = read_password a.password cleared_password a.terminal stdin in
      after_password a username r.terminal r.password

  pub after_handlers : Answers → (handled : Bool) → Run
  after_handlers a false = stopped a.terminal
  after_handlers a true = after_username a (read_username a.interrupted cleared_username a.stdin)

  unfoldable pub main : Answers → Run
  unfolding stopped after_exchange send_request after_password after_username after_handlers
  main a = after_handlers a a.handles_signals
