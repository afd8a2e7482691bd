-- ===== src/Auth/Together/Login/Finishes.antt =====
-- The frontend's `main` and the backend's, when nothing disturbs them.
use st5039cmd.Base.{ℕ, ◌≡◌, ◌↔◌, Bool, true, some}
use st5039cmd.Auth.Request.{DemoCredential}
use st5039cmd.Auth.Account.Loading.{load_demo_credential-IsCredential}
use st5039cmd.Auth.Privileges.{System}
use st5039cmd.Auth.Session
use st5039cmd.Auth.Session.{
  IsLayout, PeerCredentials, Answered, is_complete, handle_client, verify_peer_credentials,
  serve_client,
}
use st5039cmd.Auth.Main as Backend
use st5039cmd.Auth.Main.Started.{HasStarted, started-exit}
use st5039cmd.Auth.Frontend.Exchange
use st5039cmd.Auth.Frontend.Main.{main}
use st5039cmd.Auth.Frontend.Main as Frontend
use st5039cmd.Auth.Frontend.Main.Answered.{Entered}
use st5039cmd.Auth.Together.{IsCodec}
use st5039cmd.Auth.Together.Grants.{EntersAccount}
use st5039cmd.Auth.Together.Finishes.{AreUndisturbed, session_finishes}

-- If the backend starts, and behind that no signal and no failing call disturbs the two programs, each
-- of which receives all that the other sends, both finish: the backend exits with success, and the
-- frontend exits, with success exactly when the user entered the name and the password of the account
-- that the backend loaded.
pub main_finishes :
    (path_max : ℕ) (l : Session.Layout) (m : Exchange.Layout) {S : Type 0} (k : System S)
    (a : Frontend.Answers) (b : Backend.Answers) (s : S) (c : DemoCredential) (e : Entered a)
    → IsCodec l m
    → IsLayout l
    → HasStarted path_max k b s c
    → AreUndisturbed l m a e b.peer b.uid b.gid c b.reads b.writes
    → ((Backend.main path_max l k b s).0.exit ≡ some true)
      × (success : Bool) × ((main m a).exit ≡ some success)
      × ((success ≡ true) ↔ EntersAccount e c)
main_finishes path_max l m k a b s c e codec hl t v =
    let hc = load_demo_credential-IsCredential (b.file_at t.path) b.closes c t.loads in
    let (served, success, exit, granted) =
      session_finishes l m codec a e b.peer b.uid b.gid c b.reads b.writes v hl hc in
    (started-exit path_max l k b s c t served, success, exit, granted)
