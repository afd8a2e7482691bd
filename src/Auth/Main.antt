-- ===== src/Auth/Main.antt =====
-- Authentication/Backend.c: `main`, from the signal handlers to the exit code, with the sockets that
-- it opens and gives back (the streams of `fopen` stand in the models of their functions).
-- `readlink`, `fopen`, the sockets and the peer are answers of the kernel; the drop of privileges
-- runs on the kernel's state. Clearing buffers and logging leave no trace.
pub mod Releases
pub mod Granted
pub mod Sends
pub mod Started
pub mod Tests
use st5039cmd.Base.{
  ℕ, Bool, true, false, not, List, [], ◌∷◌, ◌++◌, Option, none, some, if◌then◌else◌,
}
use st5039cmd.Base.Stdio.{File}
use st5039cmd.Auth.Request.{DemoCredential}
use st5039cmd.Auth.Account.{load_demo_credential}
use st5039cmd.Auth.Account.Path.{resolve_demo_credential_path}
use st5039cmd.Auth.Privileges.{System, drop_privileges_permanently}
use st5039cmd.Auth.Transfer.{ReadAnswer, WriteAnswer, Turn, Outcome, complete, aborted, waiting}
use st5039cmd.Auth.Session.{Layout, PeerCredentials, Answered, serve_client}
use st5039cmd.Auth.Server.{
  Act, opened, SocketAnswers, create_server_socket, AcceptAnswer, Accepted, client, no_client,
  accepting, accept_one_client, release_sockets,
}

-- What the kernel answers during one run; `uid` and `gid` are those of `getuid` and `getgid`.
pub record Answers : Type 0 where
  pub buffers : Bool
  pub handles_signals : Bool
  pub link : Option (List ℕ)
  pub file_at : List ℕ → Option File
  pub closes : Bool
  pub uid : ℕ
  pub gid : ℕ
  pub sockets : SocketAnswers
  pub clients : List (Turn AcceptAnswer)
  pub peer : Option PeerCredentials
  pub reads : List (Turn ReadAnswer)
  pub writes : List (Turn WriteAnswer)

-- Whether the run has ended, and if so whether with EXIT_SUCCESS; what it did, what it sent.
pub record Run : Type 0 where
  pub exit : Option Bool
  pub acts : List Act
  pub sent : List ℕ

pub failed : List Act → Run
failed acts = record { exit = some false; acts = acts; sent = [] }

pub is_waiting : Outcome → Bool
is_waiting complete = false
is_waiting aborted = false
is_waiting waiting = true

-- Behind the session with a client: the label `cleanup`, unless a call has not returned yet.
pub leave : (client_fd server_fd : ℕ) → List Act → Answered × Bool → Run
leave client_fd server_fd acts (answered, success) =
    let acts' = acts ++ (opened client_fd ∷ []) in
    if is_waiting answered.outcome
    then record { exit = none; acts = acts'; sent = answered.sent }
    else record {
      exit = some success;
      acts = acts' ++ release_sockets (some client_fd) (some server_fd);
      sent = answered.sent;
    }

-- `PATH_MAX`, how the messages lie in memory, and the kernel.
module _ (path_max : ℕ) (l : Layout) {S : Type 0} (k : System S) where
  pub serve_accepted : Answers → DemoCredential → ℕ → List Act → Accepted → Run
  serve_accepted a c server_fd acts accepting = record { exit = none; acts = acts; sent = [] }
  serve_accepted a c server_fd acts no_client =
      failed (acts ++ release_sockets none (some server_fd))
  serve_accepted a c server_fd acts (client fd) =
      leave fd server_fd acts (serve_client l a.peer a.uid a.gid c a.reads a.writes)

  pub serve_socket : Answers → DemoCredential → Option ℕ × List Act → Run
  serve_socket a c (none, acts) = failed (acts ++ release_sockets none none)
  serve_socket a c (some fd, acts) = serve_accepted a c fd acts (accept_one_client a.clients)

  pub serve_dropped : Answers → DemoCredential → Bool × S → Run × S
  serve_dropped a c (false, s) = (failed (release_sockets none none), s)
  serve_dropped a c (true, s) = (serve_socket a c (create_server_socket a.sockets (k.geteuid s)), s)

  pub serve_loaded : Answers → Option DemoCredential → S → Run × S
  serve_loaded a none s = (failed (release_sockets none none), s)
  serve_loaded a (some c) s = serve_dropped a c (drop_privileges_permanently k a.uid a.gid s)

  pub serve_resolved : Answers → Option (List ℕ) → S → Run × S
  serve_resolved a none s = (failed (release_sockets none none), s)
  serve_resolved a (some path) s = serve_loaded a (load_demo_credential (a.file_at path) a.closes) s

  -- Behind `setvbuf` and `install_signal_handlers`.
  pub serve_started : Answers → (buffered handled : Bool) → S → Run × S
  serve_started a false handled s = (failed [], s)
  serve_started a true false s = (failed (release_sockets none none), s)
  serve_started a true true s = serve_resolved a (resolve_demo_credential_path path_max a.link) s

  unfoldable pub main : Answers → S → Run × S
  unfolding failed is_waiting leave serve_accepted serve_socket serve_dropped serve_loaded
      serve_resolved serve_started
  main a s = serve_started a a.buffers a.handles_signals s
