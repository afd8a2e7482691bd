-- ===== src/Auth/Server/Tests.antt =====
-- A server socket whose `chmod` fails.
use st5039cmd.Base.{◌≡◌, refl, true, false, [], ◌∷◌, none, some}
use st5039cmd.Auth.Server.{
  path_present, SocketAnswers, create_server_socket, opened, closed, removed_stale, bound, unlinked,
}
use st5039cmd.Auth.Server.Effects.{held_after, holding, create_server_socket-held}

abbrev refused_mode : SocketAnswers
refused_mode = record {
  socket = some 5;
  sun_path_size = 108;
  status = path_present true 1000;
  unlinks = true;
  binds = true;
  chmods = false;
  listens = true;
}

undone :
    create_server_socket refused_mode 1000
    ≡ (none, opened 5 ∷ removed_stale ∷ bound ∷ closed 5 ∷ unlinked ∷ [])
unfolding create_server_socket
undone = refl

undone_path :
    held_after (create_server_socket refused_mode 1000).1 (holding none (3 ∷ []))
    ≡ holding (create_server_socket refused_mode 1000).0 (3 ∷ [])
undone_path = create_server_socket-held refused_mode 1000 (3 ∷ [])
