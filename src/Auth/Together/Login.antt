-- ===== src/Auth/Together/Login.antt =====
-- A run of the frontend's `main` and one of the backend's `main`, joined by a connection.
pub mod Finishes
pub mod Tests
use st5039cmd.Base.{
  ℕ, ◌+◌, ◌≤◌, ◌<◌, ◌≡◌, ◌≢◌, refl, sym, ap, subst, ◌∙◌, Bool, true, List, [], ◌++◌, Option, some,
  length, length-append, arith, inl, inr,
}
use st5039cmd.Base.CString.{c_string}
use st5039cmd.Auth.Request.{DemoCredential}
use st5039cmd.Auth.Account.{load_demo_credential}
use st5039cmd.Auth.Account.Loading.{load_demo_credential-IsCredential}
use st5039cmd.Auth.Account.Path.{resolve_demo_credential_path}
use st5039cmd.Auth.Privileges.{System, drop_privileges_permanently, not_permitted}
use st5039cmd.Auth.Privileges.Dropped.{IsSystem, all_ids, drop_privileges_permanently_sound}
use st5039cmd.Auth.Transfer.Reading.{Honest, arrived}
use st5039cmd.Auth.Session
use st5039cmd.Auth.Session.{verify_peer_credentials, serve_client}
use st5039cmd.Auth.Main as Backend
use st5039cmd.Auth.Main.Sends.{main-SendsLate}
use st5039cmd.Auth.Frontend.Exchange
use st5039cmd.Auth.Frontend.Exchange.Exchanged.{IsFirstPart, HonestReads, brought}
use st5039cmd.Auth.Frontend.Main.{main}
use st5039cmd.Auth.Frontend.Main as Frontend
use st5039cmd.Auth.Frontend.Main.Answered.{Entered, main-Succeeded}
use st5039cmd.Auth.Together.{IsCodec}
use st5039cmd.Auth.Together.Grants.{EntersAccount, main-Grants}

module _ (path_max : ℕ) (l : Session.Layout) (m : Exchange.Layout) (codec : IsCodec l m)
    {S : Type 0} (k : System S) (a : Frontend.Answers) (b : Backend.Answers) (s : S) where
  -- The backend's run, and the state of the kernel behind it.
  abbrev pub backend_run : Backend.Run × S
  backend_run = Backend.main path_max l k b s

  -- Each side reads a first part of what the other has sent.
  abbrev pub AreConnected : Type 0
  AreConnected =
      IsFirstPart (arrived b.reads) (main m a).sent
      × IsFirstPart (brought a.exchange) backend_run.0.sent

  answered_something :
      HonestReads m.response_size a.exchange
      → IsFirstPart (brought a.exchange) backend_run.0.sent
      → (main m a).exit ≡ some true
      → backend_run.0.sent ≢ []
  answered_something hm (rest, joined) h nothing =
      let (e, (sent, enough, accepts)) = main-Succeeded m a hm h in
      omega (
        arith,
        length-append (brought a.exchange) rest,
        ap length (joined ∙ nothing),
        enough,
        codec.response_given,
      )

  -- What a successful login has established of both sides.
  abbrev pub LoggedIn : IsSystem k → Type 0
  LoggedIn law =
      (path : List ℕ) × (c : DemoCredential) × (e : Entered a) × (resolve_demo_credential_path
          path_max b.link
        ≡ some path)
      × (load_demo_credential (b.file_at path) b.closes ≡ some c)
      × (e.name ≡ c_string c.username)
      × (e.word ≡ c_string c.password)
      × (verify_peer_credentials b.peer b.uid b.gid ≡ true)
      × (b.uid ≢ 0)
      × (law.users backend_run.1 ≡ all_ids b.uid)
      × (law.groups backend_run.1 ≡ all_ids b.gid)
      × ((k.seteuid 0 backend_run.1).0 ≡ not_permitted)

  -- Over calls that behave as documented: when the frontend exits with success against this backend,
  -- the backend had loaded an account from the file beside its program's directory, what the user has
  -- entered is the name and the password of that account, the peer was the invoking user, and the
  -- backend answered with the ids of that user, who is not root, and with root out of reach.
  pub main-LoggedIn :
      (law : IsSystem k)
      → Honest l.request_size b.reads
      → HonestReads m.response_size a.exchange
      → AreConnected
      → (main m a).exit ≡ some true
      → LoggedIn law
  main-LoggedIn law hl hm (to_backend, to_client) h = elim (main-SendsLate path_max l k b s) [
    | inl nothing ↦ absurd (answered_something hm to_client h nothing)
    | inr (path, c, there, loaded, drops, same) ↦
        let hc = load_demo_credential-IsCredential (b.file_at path) b.closes c loaded in
        let (e, verified, (name, word)) =
          main-Grants l m codec a b.peer b.uid b.gid c b.reads b.writes hc hl hm
            (to_backend, subst (IsFirstPart (brought a.exchange)) same to_client) h in
        let (user, users, groups, cleared, refused) =
          drop_privileges_permanently_sound k law b.uid b.gid s backend_run.1 drops in
        (path, c, e, there, loaded, name, word, verified, user, users, groups, refused)
  ]
