-- ===== src/Auth/Main/Tests.antt =====
-- A whole run of the backend over a small kernel and a small layout.
use st5039cmd.Base.{ℕ, ◌≡◌, ◌≢◌, ◌↔◌, refl, arith, true, false, List, [], ◌∷◌, ◌++◌, none, some}
use st5039cmd.Base.CString.{codes, c_string}
use st5039cmd.Base.Stdio.{file_lines}
use st5039cmd.Auth.Account.Path.{
  resolve_demo_credential_path, resolve_demo_credential_path_lem, credentials_file_name,
}
use st5039cmd.Auth.Privileges.{drop_privileges_permanently}
use st5039cmd.Auth.Privileges.Tests.{
  small_system, small_system-IsSystem, started, as_root, change_effective,
}
use st5039cmd.Auth.Session.Tests.{small_layout, small_layout-IsLayout, expected_peer, reads, writes}
use st5039cmd.Auth.Transfer.Tests.{quiet}
use st5039cmd.Auth.Transfer.{read_all, write_all}
use st5039cmd.Auth.Session.{verify_peer_credentials, handle_client, serve_client}
use st5039cmd.Auth.Session.Laws.{request_from}
use st5039cmd.Auth.Account.{load_demo_credential}
use st5039cmd.Auth.Protocol.{AuthResult, result_code}
use st5039cmd.Auth.Request.{DemoCredential, process_request}
use st5039cmd.Auth.Privileges.{not_permitted}
use st5039cmd.Auth.Privileges.Dropped.{all_ids}
use st5039cmd.Auth.Server.{path_absent, create_server_socket, accepted, accept_one_client}
use st5039cmd.Auth.Server.Effects.{held_after, holding}
use st5039cmd.Auth.Main.{Answers, main}
use st5039cmd.Auth.Main.Releases.{main-releases}
use st5039cmd.Auth.Main.Granted.{main_sound}

abbrev program : List ℕ
program = (codes "/p" ++ b'/' ∷ codes "build") ++ b'/' ∷ codes "auth"

path_resolved :
    resolve_demo_credential_path 4096 (some program)
    ≡ some ((codes "/p" ++ b'/' ∷ []) ++ credentials_file_name)
path_resolved =
    resolve_demo_credential_path_lem 4096 (codes "/p") (codes "build") (codes "auth")
      (refl, (refl, (refl, (refl, (refl, tt))))) (refl, (refl, (refl, (refl, tt)))) (omega arith)
      (omega arith)

abbrev pub answers : Answers
answers = record {
  buffers = true;
  handles_signals = true;
  link = some program;
  file_at =
      λ path. some (record { bytes = codes "demo_user:demo_password" ++ 10 ∷ []; fails = false });
  closes = true;
  uid = 1000;
  gid = 1000;
  sockets = record {
    socket = some 3;
    sun_path_size = 108;
    status = path_absent;
    unlinks = true;
    binds = true;
    chmods = true;
    listens = true;
  };
  clients = quiet (accepted 4) ∷ [];
  peer = some expected_peer;
  reads = reads;
  writes = writes;
}

succeeds : (main 4096 small_layout small_system answers started).0.exit ≡ some true
unfolding main resolve_demo_credential_path load_demo_credential file_lines c_string
    drop_privileges_permanently as_root change_effective create_server_socket accept_one_client
    serve_client verify_peer_credentials handle_client read_all write_all
succeeds = refl

main-releases_example :
    held_after (main 4096 small_layout small_system answers started).0.acts (holding none [])
    ≡ holding none []
main-releases_example = main-releases 4096 small_layout small_system answers started true succeeds

main_sound_example :
    let s' = (main 4096 small_layout small_system answers started).1 in
    let r = request_from small_layout reads in
    (path : List ℕ) × (c : DemoCredential) × (resolve_demo_credential_path 4096 (some program)
      ≡ some path)
    × (load_demo_credential (answers.file_at path) true ≡ some c)
    × (◌≢◌ {A = ℕ} 1000 0)
    × (s'.users ≡ all_ids 1000)
    × (s'.groups ≡ all_ids 1000)
    × ((change_effective 0 s').0 ≡ not_permitted)
    × (verify_peer_credentials (some expected_peer) 1000 1000 ≡ true)
    × ((main 4096 small_layout small_system answers started).0.sent
        ≡ small_layout.encode (process_request r c))
    × (((process_request r c).result ≡ result_code AuthResult.success) ↔ (
        (r.version ≡ 1)
        × (r.type ≡ 1)
        × (c_string r.username ≡ c_string c.username)
        × (c_string r.password ≡ c_string c.password)))
main_sound_example =
    main_sound 4096 small_layout small_system answers started small_system-IsSystem
      small_layout-IsLayout (omega arith, (omega arith, tt)) succeeds
