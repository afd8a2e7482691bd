-- ===== src/Auth/Session/Tests.antt =====
-- A session over a small layout, and the theorems at it.
use st5039cmd.Base.{◌≡◌, ◌≢◌, ◌↔◌, refl, arith, true, List, [], ◌∷◌, some, length}
use st5039cmd.Base.CString.{codes, c_string, print_zeroed, length-print_zeroed}
use st5039cmd.Base.Int.{pos, is_positive}
use st5039cmd.Auth.Protocol.{AuthResult, result_code}
use st5039cmd.Auth.Request.{process_request}
use st5039cmd.Auth.Request.Tests.{demo_credential, demo_credential-IsCredential, request_of}
use st5039cmd.Auth.Transfer.{ReadAnswer, received, WriteAnswer, written, Turn}
use st5039cmd.Auth.Transfer.Tests.{quiet}
use st5039cmd.Auth.Transfer.Reading.{arrived}
use st5039cmd.Auth.Transfer.Writing.{accepted}
use st5039cmd.Auth.Session.{
  Layout, IsLayout, PeerCredentials, invalid_id, verify_peer_credentials, serve_client,
}
use st5039cmd.Auth.Session.Laws.{
  request_from, verify_peer_credentials_iff, serve_client_sound, serve_client_returns,
}

-- Nine bytes are the user name, the rest of the request is fixed; an answer is its result.
abbrev pub small_layout : Layout
small_layout = record {
  request_size = 9;
  decode = λ bytes. request_of bytes (codes "demo_password");
  encode = λ response. (response.result ∷ []);
}

pub small_layout-IsLayout : IsLayout small_layout
unfolding print_zeroed
small_layout-IsLayout = record {
  decode-IsRequest = λ bytes size. record {
    username_size = length-print_zeroed 64 bytes;
    password_size = length-print_zeroed 128 (codes "demo_password");
  };
}

abbrev pub expected_peer : PeerCredentials
expected_peer = record { pid = pos 4242; uid = 1000; gid = 1000; length_matches = true }

abbrev pub reads : List (Turn ReadAnswer)
reads = (quiet (received (codes "demo_")) ∷ quiet (received (codes "user")) ∷ [])

abbrev pub writes : List (Turn WriteAnswer)
writes = (quiet (written 1) ∷ [])

expected_passes : (verify_peer_credentials (some expected_peer) 1000 1000 ≡ true) ↔ (
    (expected_peer.length_matches ≡ true)
    × (is_positive expected_peer.pid ≡ true)
    × (expected_peer.uid ≢ invalid_id)
    × (expected_peer.gid ≢ invalid_id)
    × (expected_peer.uid ≡ 1000)
    × (expected_peer.gid ≡ 1000))
expected_passes = verify_peer_credentials_iff expected_peer 1000 1000

reads_calm : (length (arrived reads) ≡ 9)
unfolding arrived
reads_calm = refl

calm_session_served :
    (serve_client small_layout (some expected_peer) 1000 1000 demo_credential reads writes).1 ≡ true
unfolding arrived accepted verify_peer_credentials
calm_session_served =
    serve_client_returns small_layout (some expected_peer) 1000 1000 demo_credential reads writes
      refl ((refl, refl, omega arith), ((refl, refl, omega arith), tt))
      (omega arith, (omega arith, tt)) (omega arith) ((refl, refl, λ e. cc, λ e. cc), tt)
      (omega arith)

session_succeeds :
    (serve_client small_layout (some expected_peer) 1000 1000 demo_credential reads writes).1 ≡ true
unfolding arrived accepted verify_peer_credentials
session_succeeds =
    serve_client_returns small_layout (some expected_peer) 1000 1000 demo_credential reads writes
      refl ((refl, refl, omega arith), ((refl, refl, omega arith), tt))
      (omega arith, (omega arith, tt)) (omega arith) ((refl, refl, λ e. cc, λ e. cc), tt)
      (omega arith)

served_soundly :
    let r = request_from small_layout reads in
    (verify_peer_credentials (some expected_peer) 1000 1000 ≡ true)
    × ((serve_client small_layout
          (some expected_peer)
          1000
          1000
          demo_credential
          reads
          writes).0.sent
        ≡ small_layout.encode (process_request r demo_credential))
    × (((process_request r demo_credential).result ≡ result_code AuthResult.success) ↔ (
        (r.version ≡ 1)
        × (r.type ≡ 1)
        × (c_string r.username ≡ c_string demo_credential.username)
        × (c_string r.password ≡ c_string demo_credential.password)))
served_soundly =
    serve_client_sound small_layout (some expected_peer) 1000 1000 demo_credential reads writes
      small_layout-IsLayout demo_credential-IsCredential (omega arith, (omega arith, tt))
      session_succeeds
