-- ===== src/Auth/Main/Releases.antt =====
-- What a run of the backend leaves behind.
use st5039cmd.Base.{
  ℕ, ◌≡◌, ◌∙◌, refl, ap, Bool, true, false, List, [], ◌∷◌, ◌++◌, Option, none, some, Bool-cases,
  inl, inr,
}
use st5039cmd.Auth.Request.{DemoCredential}
use st5039cmd.Auth.Account.{load_demo_credential}
use st5039cmd.Auth.Account.Path.{resolve_demo_credential_path}
use st5039cmd.Auth.Privileges.{System, drop_privileges_permanently}
use st5039cmd.Auth.Session.{Layout, Answered, serve_client}
use st5039cmd.Auth.Server.{
  Act, opened, create_server_socket, Accepted, client, no_client, accepting, accept_one_client,
  release_sockets,
}
use st5039cmd.Auth.Server.Effects.{
  held_after, held_after-append, holding, create_server_socket-held, release_sockets-held,
  release_sockets-client,
}
use st5039cmd.Auth.Main.{
  Answers, Run, failed, is_waiting, leave, serve_accepted, serve_socket, serve_dropped,
  serve_loaded, serve_resolved, serve_started, main,
}

-- A run that has ended holds what it held at its start, and no path.
abbrev Released : Run → Type 0
Released r = (b : Bool) → r.exit ≡ some b → held_after r.acts (holding none []) ≡ holding none []

-- Acts that end with the server socket held.
abbrev Serving : ℕ → List Act → Type 0
Serving fd acts = held_after acts (holding none []) ≡ holding (some fd) []

leave-Released :
    (client_fd server_fd : ℕ) (acts : List Act) (r : Answered × Bool)
    → Serving server_fd acts
    → Released (leave client_fd server_fd acts r)
unfolding leave held_after
leave-Released client_fd server_fd acts (answered, success) v b e =
    elim (Bool-cases (is_waiting answered.outcome)) [
      | inl waits ↦ cc
      | inr ends ↦
          let given = release_sockets (some client_fd) (some server_fd) in
          rw ends (
            held_after-append (acts ++ opened client_fd ∷ []) given (holding none [])
            ∙ ap (held_after given)
                (held_after-append acts (opened client_fd ∷ []) (holding none []))
            ∙ ap (λ h. held_after given (held_after (opened client_fd ∷ []) h)) v
            ∙ release_sockets-client client_fd server_fd [])
    ]

module _ (path_max : ℕ) (l : Layout) {S : Type 0} (k : System S) where
  serve_accepted-Released :
      (a : Answers) (c : DemoCredential) (fd : ℕ) (acts : List Act) (o : Accepted)
      → Serving fd acts
      → Released (serve_accepted path_max l k a c fd acts o)
  unfolding serve_accepted failed
  serve_accepted-Released a c fd acts accepting v b e = cc
  serve_accepted-Released a c fd acts no_client v b e =
      held_after-append acts (release_sockets none (some fd)) (holding none [])
      ∙ ap (held_after (release_sockets none (some fd))) v
      ∙ release_sockets-held (some fd) []
  serve_accepted-Released a c fd acts (client n) v b e =
      leave-Released n fd acts (serve_client l a.peer a.uid a.gid c a.reads a.writes) v b e

  serve_socket-Released :
      (a : Answers) (c : DemoCredential) (o : Option ℕ) (acts : List Act)
      → held_after acts (holding none []) ≡ holding o []
      → Released (serve_socket path_max l k a c (o, acts))
  unfolding serve_socket failed
  serve_socket-Released a c none acts v b e =
      held_after-append acts (release_sockets none none) (holding none [])
      ∙ ap (held_after (release_sockets none none)) v
      ∙ release_sockets-held none []
  serve_socket-Released a c (some fd) acts v b e =
      serve_accepted-Released a c fd acts (accept_one_client a.clients) v b e

  serve_dropped-Released :
      (a : Answers) (c : DemoCredential) (d : Bool) (s : S)
      → Released (serve_dropped path_max l k a c (d, s)).0
  unfolding serve_dropped failed
  serve_dropped-Released a c false s b e = release_sockets-held none []
  serve_dropped-Released a c true s b e =
      let (o, acts) = create_server_socket a.sockets (k.geteuid s) in
      serve_socket-Released a c o acts (create_server_socket-held a.sockets (k.geteuid s) []) b e

  serve_loaded-Released :
      (a : Answers) (o : Option DemoCredential) (s : S)
      → Released (serve_loaded path_max l k a o s).0
  unfolding serve_loaded failed
  serve_loaded-Released a none s b e = release_sockets-held none []
  serve_loaded-Released a (some c) s b e =
      let (d, t) = drop_privileges_permanently k a.uid a.gid s in serve_dropped-Released a c d t b e

  serve_resolved-Released :
      (a : Answers) (o : Option (List ℕ)) (s : S) → Released (serve_resolved path_max l k a o s).0
  unfolding serve_resolved failed
  serve_resolved-Released a none s b e = release_sockets-held none []
  serve_resolved-Released a (some path) s b e =
      serve_loaded-Released a (load_demo_credential (a.file_at path) a.closes) s b e

  serve_started-Released :
      (a : Answers) (buffered handled : Bool) (s : S)
      → Released (serve_started path_max l k a buffered handled s).0
  unfolding serve_started failed held_after
  serve_started-Released a false handled s b e = refl
  serve_started-Released a true false s b e = release_sockets-held none []
  serve_started-Released a true true s b e =
      serve_resolved-Released a (resolve_demo_credential_path path_max a.link) s b e

  -- A run that has ended, with whichever exit code, has called `close` on every socket that `socket`
  -- or `accept` gave it, and `unlink` on the socket's path if it had bound it.
  pub main-releases :
      (a : Answers) (s : S) (b : Bool)
      → (main path_max l k a s).0.exit ≡ some b
      → held_after (main path_max l k a s).0.acts (holding none []) ≡ holding none []
  unfolding main
  main-releases a s b e = serve_started-Released a a.buffers a.handles_signals s b e
