-- ===== src/Auth/Main/Granted.antt =====
-- What the success of a run says.
use mathlib.Core.Bool.{false≢true}
use mathlib.Core.Option.{some_inj}
use st5039cmd.Base.{
  ℕ, ◌≡◌, ◌≢◌, ◌↔◌, ◌∙◌, refl, sym, Bool, true, false, List, Option, none, some, Bool-cases, inl,
  inr,
}
use st5039cmd.Auth.Request.{DemoCredential, process_request}
use st5039cmd.Auth.Account.{load_demo_credential}
use st5039cmd.Auth.Account.Path.{resolve_demo_credential_path}
use st5039cmd.Auth.Privileges.{System, drop_privileges_permanently}
use st5039cmd.Auth.Session.{Layout, Answered, serve_client}
use st5039cmd.Auth.Server.{
  Act, create_server_socket, Accepted, client, no_client, accepting, accept_one_client,
}
use st5039cmd.Auth.Main.{
  Answers, Run, failed, is_waiting, leave, serve_accepted, serve_socket, serve_dropped,
  serve_loaded, serve_resolved, serve_started, main,
}
use st5039cmd.Base.CString.{c_string}
use st5039cmd.Auth.Protocol.{AuthResult, result_code}
use st5039cmd.Auth.Account.Loading.{load_demo_credential-IsCredential}
use st5039cmd.Auth.Privileges.{not_permitted}
use st5039cmd.Auth.Privileges.Dropped.{IsSystem, all_ids, drop_privileges_permanently_sound}
use st5039cmd.Auth.Session.{IsLayout, verify_peer_credentials}
use st5039cmd.Auth.Session.Laws.{request_from, serve_client_sound}
use st5039cmd.Auth.Transfer.Reading.{Honest}

none≢some : {A : Type 0} {x : A} → none ≢ some x
none≢some e = cc

module _ (path_max : ℕ) (l : Layout) {S : Type 0} (k : System S) where
  -- The session of a run with a credential.
  abbrev session : Answers → DemoCredential → Answered × Bool
  session a c = serve_client l a.peer a.uid a.gid c a.reads a.writes

  -- A run that served its client to the end.
  abbrev Served : Answers → DemoCredential → Run → Type 0
  Served a c r = ((session a c).1 ≡ true) × (r.sent ≡ (session a c).0.sent)

  leave-Served :
      (client_fd server_fd : ℕ) (acts : List Act) (x : Answered × Bool)
      → (leave client_fd server_fd acts x).exit ≡ some true
      → (x.1 ≡ true) × ((leave client_fd server_fd acts x).sent ≡ x.0.sent)
  unfolding leave
  leave-Served client_fd server_fd acts (answered, success) e =
      elim (Bool-cases (is_waiting answered.outcome)) [
        | inl waits ↦ absurd (none≢some (rw waits at e))
        | inr ends ↦ (some_inj.0 (rw ends at e), rw ends)
      ]

  serve_accepted-Served :
      (a : Answers) (c : DemoCredential) (fd : ℕ) (acts : List Act) (o : Accepted)
      → (serve_accepted path_max l k a c fd acts o).exit ≡ some true
      → Served a c (serve_accepted path_max l k a c fd acts o)
  unfolding serve_accepted failed
  serve_accepted-Served a c fd acts accepting e = cc
  serve_accepted-Served a c fd acts no_client e = absurd (false≢true (some_inj.0 e))
  serve_accepted-Served a c fd acts (client n) e = leave-Served n fd acts (session a c) e

  serve_socket-Served :
      (a : Answers) (c : DemoCredential) (o : Option ℕ) (acts : List Act)
      → (serve_socket path_max l k a c (o, acts)).exit ≡ some true
      → Served a c (serve_socket path_max l k a c (o, acts))
  unfolding serve_socket failed
  serve_socket-Served a c none acts e = absurd (false≢true (some_inj.0 e))
  serve_socket-Served a c (some fd) acts e =
      serve_accepted-Served a c fd acts (accept_one_client a.clients) e

  serve_dropped-Served :
      (a : Answers) (c : DemoCredential) (d : Bool) (s : S)
      → (serve_dropped path_max l k a c (d, s)).0.exit ≡ some true
      → (d ≡ true)
        × ((serve_dropped path_max l k a c (d, s)).1 ≡ s)
        × Served a c (serve_dropped path_max l k a c (d, s)).0
  unfolding serve_dropped failed
  serve_dropped-Served a c false s e = absurd (false≢true (some_inj.0 e))
  serve_dropped-Served a c true s e =
      let (o, acts) = create_server_socket a.sockets (k.geteuid s) in
      (refl, refl, serve_socket-Served a c o acts e)

  -- What a run that exits with success has gone through, with the state it ends in.
  abbrev Passed : Answers → S → Run × S → Type 0
  Passed a s (r, s') =
      (path : List ℕ) × (c : DemoCredential) × (resolve_demo_credential_path path_max a.link
        ≡ some path)
      × (load_demo_credential (a.file_at path) a.closes ≡ some c)
      × (drop_privileges_permanently k a.uid a.gid s ≡ (true, s'))
      × Served a c r

  serve_loaded-Passed :
      (a : Answers) (path : List ℕ) (o : Option DemoCredential) (s : S)
      → resolve_demo_credential_path path_max a.link ≡ some path
      → load_demo_credential (a.file_at path) a.closes ≡ o
      → (serve_loaded path_max l k a o s).0.exit ≡ some true
      → Passed a s (serve_loaded path_max l k a o s)
  unfolding serve_loaded failed
  serve_loaded-Passed a path none s there loaded e = absurd (false≢true (some_inj.0 e))
  serve_loaded-Passed a path (some c) s there loaded e =
      let (d, t) = drop_privileges_permanently k a.uid a.gid s in
      let (done, same, served) = serve_dropped-Served a c d t e in
      (path, c, there, loaded, λ i. (done i, sym same i), served)

  serve_resolved-Passed :
      (a : Answers) (o : Option (List ℕ)) (s : S)
      → resolve_demo_credential_path path_max a.link ≡ o
      → (serve_resolved path_max l k a o s).0.exit ≡ some true
      → Passed a s (serve_resolved path_max l k a o s)
  unfolding serve_resolved failed
  serve_resolved-Passed a none s there e = absurd (false≢true (some_inj.0 e))
  serve_resolved-Passed a (some path) s there e =
      serve_loaded-Passed a path (load_demo_credential (a.file_at path) a.closes) s there refl e

  serve_started-Passed :
      (a : Answers) (buffered handled : Bool) (s : S)
      → (serve_started path_max l k a buffered handled s).0.exit ≡ some true
      → Passed a s (serve_started path_max l k a buffered handled s)
  unfolding serve_started failed
  serve_started-Passed a false handled s e = absurd (false≢true (some_inj.0 e))
  serve_started-Passed a true false s e = absurd (false≢true (some_inj.0 e))
  serve_started-Passed a true true s e =
      serve_resolved-Passed a (resolve_demo_credential_path path_max a.link) s refl e

  -- Over calls that behave as documented, with arrays of their declared sizes and reads of no more
  -- than was asked for: when the backend exits with success, it ends with the user and group ids of
  -- the invoking user, who is not root, and root is out of reach. The peer was that user, and it was
  -- sent the whole answer to its request, judged by the account that the file beside the program's
  -- directory holds; that answer grants access exactly for the account's name and password.
  pub main_sound :
      (a : Answers) (s : S) (law : IsSystem k)
      → IsLayout l
      → Honest l.request_size a.reads
      → (main path_max l k a s).0.exit ≡ some true
      → let s' = (main path_max l k a s).1 in
        let r = request_from l a.reads in
        (path : List ℕ) × (c : DemoCredential) × (resolve_demo_credential_path path_max a.link
          ≡ some path)
        × (load_demo_credential (a.file_at path) a.closes ≡ some c)
        × (a.uid ≢ 0)
        × (law.users s' ≡ all_ids a.uid)
        × (law.groups s' ≡ all_ids a.gid)
        × ((k.seteuid 0 s').0 ≡ not_permitted)
        × (verify_peer_credentials a.peer a.uid a.gid ≡ true)
        × ((main path_max l k a s).0.sent ≡ l.encode (process_request r c))
        × (((process_request r c).result ≡ result_code AuthResult.success) ↔ (
            (r.version ≡ 1)
            × (r.type ≡ 1)
            × (c_string r.username ≡ c_string c.username)
            × (c_string r.password ≡ c_string c.password)))
  unfolding main
  main_sound a s law hl hh e =
      let (path, c, there, loaded, drops, (served, sent)) =
        serve_started-Passed a a.buffers a.handles_signals s e in
      let (user, users, groups, cleared, refused) =
        drop_privileges_permanently_sound k law a.uid a.gid s _ drops in
      let (known, whole, iff) =
        serve_client_sound l a.peer a.uid a.gid c a.reads a.writes hl
          (load_demo_credential-IsCredential (a.file_at path) a.closes c loaded) hh served in
      (path, c, there, loaded, user, users, groups, refused, known, sent ∙ whole, iff)
