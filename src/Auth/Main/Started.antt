-- ===== src/Auth/Main/Started.antt =====
-- A run of the backend that comes as far as a session with a client.
use mathlib.Core.Bool.{false≢true}
use st5039cmd.Base.{ℕ, ◌≡◌, ap, Bool, true, false, List, Option, some, ◌∙◌, Bool-cases, inl, inr}
use st5039cmd.Auth.Request.{DemoCredential}
use st5039cmd.Auth.Account.{load_demo_credential}
use st5039cmd.Auth.Account.Path.{resolve_demo_credential_path}
use st5039cmd.Auth.Privileges.{System, drop_privileges_permanently}
use st5039cmd.Auth.Transfer.{ReadAnswer, WriteAnswer, Turn}
use st5039cmd.Auth.Session.{
  Layout, PeerCredentials, Answered, handle_client, verify_peer_credentials, serve_client,
}
use st5039cmd.Auth.Session.Laws.{is_complete→complete}
use st5039cmd.Auth.Server.{Act, create_server_socket, client, accept_one_client}
use st5039cmd.Auth.Main.{
  Answers, leave, is_waiting, serve_accepted, serve_socket, serve_dropped, serve_loaded,
  serve_resolved, serve_started, main,
}

leave-exit :
    (client_fd server_fd : ℕ) (acts : List Act) (x : Answered × Bool)
    → is_waiting x.0.outcome ≡ false
    → (leave client_fd server_fd acts x).exit ≡ some x.1
unfolding leave
leave-exit client_fd server_fd acts (answered, success) h = rw h

serve_client-ends :
    (l : Layout) (peer : Option PeerCredentials) (uid gid : ℕ) (c : DemoCredential)
    (reads : List (Turn ReadAnswer)) (writes : List (Turn WriteAnswer))
    → (serve_client l peer uid gid c reads writes).1 ≡ true
    → is_waiting (serve_client l peer uid gid c reads writes).0.outcome ≡ false
unfolding serve_client is_waiting
serve_client-ends l peer uid gid c reads writes h =
    elim (Bool-cases (verify_peer_credentials peer uid gid)) [
      | inl expected ↦
          rw expected
            (rw (is_complete→complete (handle_client l c reads writes).outcome (rw expected at h)))
      | inr other ↦ absurd (false≢true (rw other at h))
    ]

-- The backend's start: the account is loaded, the privileges are dropped, the socket listens, and a
-- client comes.
pub record HasStarted (path_max : ℕ) {S : Type 0} (k : System S) (b : Answers) (s : S)
    (c : DemoCredential) : Type 0 where
  pub buffers : b.buffers ≡ true
  pub handles_signals : b.handles_signals ≡ true
  pub path : List ℕ
  pub resolves : resolve_demo_credential_path path_max b.link ≡ some path
  pub loads : load_demo_credential (b.file_at path) b.closes ≡ some c
  pub after_drop : S
  pub drops : drop_privileges_permanently k b.uid b.gid s ≡ (true, after_drop)
  pub server_fd : ℕ
  pub acts : List Act
  pub listens : create_server_socket b.sockets (k.geteuid after_drop) ≡ (some server_fd, acts)
  pub client_fd : ℕ
  pub accepts : accept_one_client b.clients ≡ client client_fd

module _ (path_max : ℕ) (l : Layout) {S : Type 0} (k : System S) (b : Answers) (s : S)
    (c : DemoCredential) (t : HasStarted path_max k b s c) where
  session_exit :
      (serve_client l b.peer b.uid b.gid c b.reads b.writes).1 ≡ true
      → (serve_accepted path_max l k b c t.server_fd t.acts (client t.client_fd)).exit ≡ some true
  unfolding serve_accepted
  session_exit h =
      leave-exit t.client_fd t.server_fd t.acts
        (serve_client l b.peer b.uid b.gid c b.reads b.writes)
        (serve_client-ends l b.peer b.uid b.gid c b.reads b.writes h)
      ∙ ap some h

  serve_started-exit :
      (buffered handled : Bool)
      → buffered ≡ true
      → handled ≡ true
      → (serve_client l b.peer b.uid b.gid c b.reads b.writes).1 ≡ true
      → (serve_started path_max l k b buffered handled s).0.exit ≡ some true
  unfolding serve_started serve_resolved serve_loaded serve_dropped serve_socket
  serve_started-exit true true e f h =
      rw (t.resolves, t.loads, t.drops, t.listens, t.accepts) (session_exit h)
  serve_started-exit true false e f h = absurd (false≢true f)
  serve_started-exit false handled e f h = absurd (false≢true e)

  -- A started backend exits the way its session ends.
  pub started-exit :
      (serve_client l b.peer b.uid b.gid c b.reads b.writes).1 ≡ true
      → (main path_max l k b s).0.exit ≡ some true
  unfolding main
  started-exit h = serve_started-exit b.buffers b.handles_signals t.buffers t.handles_signals h
