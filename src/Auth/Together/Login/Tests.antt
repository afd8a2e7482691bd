-- ===== src/Auth/Together/Login/Tests.antt =====
-- A login, from the user's terminal to the credential file.
use mathlib.Core.List.{append-nil}
use st5039cmd.Base.{◌≡◌, ◌↔◌, refl, true, Bool, sym, ◌∙◌, [], ◌∷◌, ◌++◌, some}
use st5039cmd.Base.CString.{codes, c_string, print_zeroed}
use st5039cmd.Base.Stdio.{file_lines}
use st5039cmd.Auth.Account.{load_demo_credential}
use st5039cmd.Auth.Account.Path.{resolve_demo_credential_path, credentials_file_name}
use st5039cmd.Auth.Privileges.{drop_privileges_permanently}
use st5039cmd.Auth.Privileges.Tests.{
  small_system, small_system-IsSystem, started, as_root, change_effective,
}
use st5039cmd.Auth.Request.Tests.{demo_credential}
use st5039cmd.Auth.Server.{
  opened, bound, restricted, listening, create_server_socket, accept_one_client,
}
use st5039cmd.Auth.Session.{serve_client}
use st5039cmd.Auth.Session.Tests.{expected_peer}
use st5039cmd.Auth.Transfer.Reading.{arrived}
use st5039cmd.Auth.Main as Backend
use st5039cmd.Auth.Main.{main}
use st5039cmd.Auth.Main.Sends.{leave-sent}
use st5039cmd.Auth.Main.Tests.{answers}
use st5039cmd.Auth.Frontend.Exchange.Exchanged.{brought}
use st5039cmd.Auth.Together.Layouts.{
  backend_layout, frontend_layout, backend_layout-IsLayout, layouts-IsCodec,
}
use st5039cmd.Auth.Together.Grants.{EntersAccount}
use st5039cmd.Auth.Together.Login.Finishes.{main_finishes}
use st5039cmd.Auth.Main.Started.{HasStarted}
use st5039cmd.Auth.Frontend.Main as Frontend
use st5039cmd.Auth.Together.Login.{AreConnected, LoggedIn, main-LoggedIn}
use st5039cmd.Auth.Together.Tests.{
  to_backend, to_client, demo_user, demo_entered, demo_exchange, demo_connected, demo_undisturbed,
  demo_succeeds,
}

abbrev backend_answers : Backend.Answers
backend_answers = record answers { reads = to_backend; writes = to_client }

session_sent :
    (main 4096 backend_layout small_system backend_answers started).0.sent
    ≡ (serve_client backend_layout
        (some expected_peer)
        1000
        1000
        demo_credential
        to_backend
        to_client).0.sent
unfolding main resolve_demo_credential_path load_demo_credential file_lines c_string
    drop_privileges_permanently as_root change_effective create_server_socket accept_one_client
    print_zeroed
session_sent = leave-sent 4 3 (opened 3 ∷ bound ∷ restricted ∷ listening ∷ []) (
    serve_client backend_layout (some expected_peer) 1000 1000 demo_credential to_backend to_client)

connected :
    AreConnected 4096 backend_layout frontend_layout layouts-IsCodec small_system demo_user
      backend_answers started
connected = (
  ([], append-nil (arrived to_backend) ∙ demo_undisturbed.to_backend),
  ([], append-nil (brought demo_exchange) ∙ demo_undisturbed.to_client ∙ sym session_sent),
)

main-LoggedIn_example :
    LoggedIn 4096 backend_layout frontend_layout layouts-IsCodec small_system demo_user
      backend_answers started small_system-IsSystem
main-LoggedIn_example =
    main-LoggedIn 4096 backend_layout frontend_layout layouts-IsCodec small_system demo_user
      backend_answers started small_system-IsSystem demo_undisturbed.honest_reads
      demo_connected.honest connected demo_succeeds

demo_started : HasStarted 4096 small_system backend_answers started demo_credential
unfolding resolve_demo_credential_path load_demo_credential file_lines c_string
    drop_privileges_permanently as_root change_effective create_server_socket accept_one_client
    print_zeroed
demo_started = record {
  buffers = refl;
  handles_signals = refl;
  path = (codes "/p" ++ b'/' ∷ []) ++ credentials_file_name;
  resolves = refl;
  loads = refl;
  after_drop = (drop_privileges_permanently small_system 1000 1000 started).1;
  drops = refl;
  server_fd = 3;
  acts = opened 3 ∷ bound ∷ restricted ∷ listening ∷ [];
  listens = refl;
  client_fd = 4;
  accepts = refl;
}

main_finishes_example :
    ((main 4096 backend_layout small_system backend_answers started).0.exit ≡ some true)
    × (success : Bool) × ((Frontend.main frontend_layout demo_user).exit ≡ some success)
    × ((success ≡ true) ↔ EntersAccount demo_entered demo_credential)
main_finishes_example =
    main_finishes 4096 backend_layout frontend_layout small_system demo_user backend_answers started
      demo_credential demo_entered layouts-IsCodec backend_layout-IsLayout demo_started
      demo_undisturbed
