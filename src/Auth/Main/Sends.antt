-- ===== src/Auth/Main/Sends.antt =====
-- What a run of the backend has sent, however it ended.
use st5039cmd.Base.{
  ℕ, ◌≡◌, ◌⊎◌, refl, Bool, true, false, List, [], Option, none, some, Bool-cases, inl, inr,
}
use st5039cmd.Auth.Request.{DemoCredential}
use st5039cmd.Auth.Account.{load_demo_credential}
use st5039cmd.Auth.Account.Path.{resolve_demo_credential_path}
use st5039cmd.Auth.Privileges.{System, drop_privileges_permanently}
use st5039cmd.Auth.Session.{Layout, Answered, serve_client}
use st5039cmd.Auth.Server.{
  Act, create_server_socket, Accepted, client, no_client, accepting, accept_one_client,
}
use st5039cmd.Auth.Main.{
  Answers, Run, failed, is_waiting, leave, serve_accepted, serve_socket, serve_dropped,
  serve_loaded, serve_resolved, serve_started, main,
}

pub leave-sent :
    (client_fd server_fd : ℕ) (acts : List Act) (x : Answered × Bool)
    → (leave client_fd server_fd acts x).sent ≡ x.0.sent
unfolding leave
leave-sent client_fd server_fd acts (answered, success) =
    elim (Bool-cases (is_waiting answered.outcome)) [ inl waits ↦ rw waits | inr ends ↦ rw ends ]

module _ (path_max : ℕ) (l : Layout) {S : Type 0} (k : System S) (a : Answers) where
  -- The session of a run with a credential.
  abbrev session : DemoCredential → Answered × Bool
  session c = serve_client l a.peer a.uid a.gid c a.reads a.writes

  -- Nothing, or what one session sends.
  abbrev SendsFor : DemoCredential → List ℕ → Type 0
  SendsFor c sent = (sent ≡ []) ⊎ (sent ≡ (session c).0.sent)

  serve_accepted-SendsFor :
      (c : DemoCredential) (fd : ℕ) (acts : List Act) (o : Accepted)
      → SendsFor c (serve_accepted path_max l k a c fd acts o).sent
  unfolding serve_accepted failed
  serve_accepted-SendsFor c fd acts accepting = inl refl
  serve_accepted-SendsFor c fd acts no_client = inl refl
  serve_accepted-SendsFor c fd acts (client n) = inr (leave-sent n fd acts (session c))

  serve_socket-SendsFor :
      (c : DemoCredential) (o : Option ℕ) (acts : List Act)
      → SendsFor c (serve_socket path_max l k a c (o, acts)).sent
  unfolding serve_socket failed
  serve_socket-SendsFor c none acts = inl refl
  serve_socket-SendsFor c (some fd) acts =
      serve_accepted-SendsFor c fd acts (accept_one_client a.clients)

  -- The account has been loaded and the privileges dropped before anything is sent.
  abbrev pub IsAfterDrop : S → Run × S → Type 0
  IsAfterDrop s (r, s') =
      (path : List ℕ) × (c : DemoCredential) × (resolve_demo_credential_path path_max a.link
        ≡ some path)
      × (load_demo_credential (a.file_at path) a.closes ≡ some c)
      × (drop_privileges_permanently k a.uid a.gid s ≡ (true, s'))
      × (r.sent ≡ (session c).0.sent)

  abbrev pub SendsLate : S → Run × S → Type 0
  SendsLate s (r, s') = (r.sent ≡ []) ⊎ IsAfterDrop s (r, s')

  serve_dropped-SendsLate :
      (path : List ℕ) (c : DemoCredential) (s : S) (d : Bool) (t : S)
      → resolve_demo_credential_path path_max a.link ≡ some path
      → load_demo_credential (a.file_at path) a.closes ≡ some c
      → drop_privileges_permanently k a.uid a.gid s ≡ (d, t)
      → SendsLate s (serve_dropped path_max l k a c (d, t))
  unfolding serve_dropped failed
  serve_dropped-SendsLate path c s false t there loaded drops = inl refl
  serve_dropped-SendsLate path c s true t there loaded drops =
      let (o, acts) = create_server_socket a.sockets (k.geteuid t) in
      elim (serve_socket-SendsFor c o acts) [
        | inl nothing ↦ inl nothing
        | inr same ↦ inr (path, c, there, loaded, drops, same)
      ]

  serve_loaded-SendsLate :
      (path : List ℕ) (o : Option DemoCredential) (s : S)
      → resolve_demo_credential_path path_max a.link ≡ some path
      → load_demo_credential (a.file_at path) a.closes ≡ o
      → SendsLate s (serve_loaded path_max l k a o s)
  unfolding serve_loaded failed
  serve_loaded-SendsLate path none s there loaded = inl refl
  serve_loaded-SendsLate path (some c) s there loaded =
      let (d, t) = drop_privileges_permanently k a.uid a.gid s in
      serve_dropped-SendsLate path c s d t there loaded refl

  serve_resolved-SendsLate :
      (o : Option (List ℕ)) (s : S)
      → resolve_demo_credential_path path_max a.link ≡ o
      → SendsLate s (serve_resolved path_max l k a o s)
  unfolding serve_resolved failed
  serve_resolved-SendsLate none s there = inl refl
  serve_resolved-SendsLate (some path) s there =
      serve_loaded-SendsLate path (load_demo_credential (a.file_at path) a.closes) s there refl

  serve_started-SendsLate :
      (buffered handled : Bool) (s : S)
      → SendsLate s (serve_started path_max l k a buffered handled s)
  unfolding serve_started failed
  serve_started-SendsLate false handled s = inl refl
  serve_started-SendsLate true false s = inl refl
  serve_started-SendsLate true true s =
      serve_resolved-SendsLate (resolve_demo_credential_path path_max a.link) s refl

  -- However a run ends: it has sent nothing, or it had loaded the account and dropped its privileges
  -- before, and has sent what `serve_client` sends.
  pub main-SendsLate : (s : S) → SendsLate s (main path_max l k a s)
  unfolding main
  main-SendsLate s = serve_started-SendsLate a.buffers a.handles_signals s
