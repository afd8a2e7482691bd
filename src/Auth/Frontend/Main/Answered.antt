-- ===== src/Auth/Frontend/Main/Answered.antt =====
-- What a run of the frontend has sent, and when it succeeds.
use mathlib.Core.Bool.{false≢true}
use mathlib.Core.Option.{some_inj}
use mathlib.Core.Path.{ap₂}
use st5039cmd.Base.CString.{memchr}
use st5039cmd.Base.{
  Option-cases, inl, inr, ℕ, ◌+◌, ◌≤◌, ◌<◌, ◌≡◌, refl, sym, ap, subst, ◌∙◌, Bool, true, false, List,
  Option, none, some, length, take, arith,
}
use st5039cmd.Base.Stdio.{File}
use st5039cmd.Auth.Protocol.{
  AuthRequest, AuthResponse, auth_username_max, auth_password_max, auth_response_message_max,
}
use st5039cmd.Auth.Transfer.{Outcome, complete, aborted, waiting}
use st5039cmd.Auth.Frontend.Input.{copy_string, read_username}
use st5039cmd.Auth.Frontend.Input.Accepts.{BeginsWith, read_username_iff}
use st5039cmd.Auth.Frontend.Terminal.{Termios, read_password}
use st5039cmd.Auth.Frontend.Terminal.Accepts.{source, read_password_iff}
use st5039cmd.Auth.Frontend.Exchange.{Layout, Exchange, exchange_auth_request}
use st5039cmd.Auth.Frontend.Exchange.Exchanged.{
  brought, HonestReads, Exchanged, exchange_auth_request-Exchanged,
}
use st5039cmd.Auth.Frontend.Main.{
  Answers, Run, request_of, cleared_username, cleared_password, stopped, judge, after_exchange,
  send_request, after_password, after_username, after_handlers, main,
}

-- Standard input behind the user name.
abbrev pub behind_name : Answers → File
behind_name a = (read_username a.interrupted cleared_username a.stdin).1

-- What the user has entered: a name and a password that are neither empty nor too long.
pub record Entered (a : Answers) : Type 0 where
  pub name : List ℕ
  pub name_typed : BeginsWith name a.stdin.bytes
  pub name_given : 0 < length name
  pub name_fits : length name ≤ auth_username_max
  pub word : List ℕ
  pub word_typed : BeginsWith word (source a.password (behind_name a)).bytes
  pub word_given : 0 < length word
  pub word_fits : length word ≤ auth_password_max

abbrev pub entered_request : {a : Answers} → Entered a → AuthRequest
entered_request e =
    request_of (copy_string e.name cleared_username) (copy_string e.word cleared_password)

-- The response that the backend's first bytes make up.
abbrev pub received_response : Layout → Answers → AuthResponse
received_response l a = l.decode (take l.response_size (brought a.exchange))

some≢none : {b : Bool} → none ≡ some b → ⊥
some≢none e = cc

-- A response of the supported version whose result is AUTH_RESULT_SUCCESS and whose message ends
-- within its array.
abbrev pub GrantsAccess : AuthResponse → Type 0
GrantsAccess r =
    (r.version ≡ 1)
    × (r.result ≡ 0)
    × ((i : ℕ) × (memchr 0 (auth_response_message_max + 1) r.message ≡ some i))

pub judge-GrantsAccess : (r : AuthResponse) → (judge r).0 ≡ true → GrantsAccess r
unfolding judge memchr
judge-GrantsAccess r h = elim (Option-cases (memchr 0 (auth_response_message_max + 1) r.message)) [
  | inl unended ↦ absurd (false≢true (rw unended at h))
  | inr (i, ends) ↦
      let tests = rw ends at h in (ground (arith, tests), ground (arith, tests), (i, ends))
]

module _ (l : Layout) (a : Answers) (honest : HonestReads l.response_size a.exchange) where
  -- A run that sent this request and accepted the response.
  abbrev Accepted : AuthRequest → Run → Type 0
  Accepted request r =
      (r.sent ≡ l.encode request)
      × (l.response_size ≤ length (brought a.exchange))
      × GrantsAccess (received_response l a)

  after_exchange-Accepted :
      (t : Termios) (request : AuthRequest) (e : Exchange) (o : Outcome)
      → e.outcome ≡ o
      → (e.outcome ≡ complete → Exchanged a.exchange l request e)
      → (after_exchange t (l.decode e.response) e o).exit ≡ some true
      → Accepted request (after_exchange t (l.decode e.response) e o)
  unfolding after_exchange
  after_exchange-Accepted t request e complete there known h =
      let (sent, enough, response) = known there in
      (
        sent,
        enough,
        judge-GrantsAccess (received_response l a)
            (ap (λ r. (judge (l.decode r)).0) (sym response) ∙ some_inj.0 h),
      )
  after_exchange-Accepted t request e aborted there known h = absurd (false≢true (some_inj.0 h))
  after_exchange-Accepted t request e waiting there known h = absurd (some≢none h)

  send_request-Accepted :
      (t : Termios) (request : AuthRequest)
      → (send_request l a t request).exit ≡ some true
      → Accepted request (send_request l a t request)
  unfolding send_request
  send_request-Accepted t request h =
      let e = exchange_auth_request a.exchange l request in
      after_exchange-Accepted t request e e.outcome refl
        (exchange_auth_request-Exchanged a.exchange l request honest) h

  after_password-Accepted :
      (username : List ℕ) (t : Termios) (o : Option (List ℕ))
      → (after_password l a username t o).exit ≡ some true
      → (password : List ℕ) × (o ≡ some password)
        × Accepted (request_of username password) (after_password l a username t o)
  unfolding after_password stopped
  after_password-Accepted username t none h = absurd (false≢true (some_inj.0 h))
  after_password-Accepted username t (some password) h =
      let r = request_of username password in (password, refl, send_request-Accepted t r h)

  -- The user entered a request, which was sent and granted.
  abbrev pub Succeeded : Run → Type 0
  Succeeded r = (e : Entered a) × Accepted (entered_request e) r

  after_username-Succeeded :
      (o : Option (List ℕ)) (stdin : File)
      → read_username a.interrupted cleared_username a.stdin ≡ (o, stdin)
      → (after_username l a (o, stdin)).exit ≡ some true
      → Succeeded (after_username l a (o, stdin))
  unfolding after_username stopped
  after_username-Succeeded none stdin there h = absurd (false≢true (some_inj.0 h))
  after_username-Succeeded (some username) stdin there h =
      let r = read_password a.password cleared_password a.terminal stdin in
      let (free, name, begins, given, fits, stored) =
        (read_username_iff a.interrupted cleared_username a.stdin username refl).0
          (ap (λ x. x.0) there) in
      let (password, got, (sent, enough, good)) =
        after_password-Accepted username r.terminal r.password h in
      let (before, hidden, after, can, (word, typed, some_word, short, copied)) =
        (read_password_iff a.password cleared_password refl a.terminal stdin password).0 got in
      (
        record {
          name = name;
          name_typed = begins;
          name_given = given;
          name_fits = fits;
          word = word;
          word_typed =
              subst (λ f. BeginsWith word (source a.password f).bytes) (sym (ap (λ x. x.1) there))
                typed;
          word_given = some_word;
          word_fits = omega (arith, short);
        },
        (sent ∙ ap₂ (λ u p. l.encode (request_of u p)) stored copied, enough, good),
      )

  after_handlers-Succeeded :
      (handled : Bool)
      → (after_handlers l a handled).exit ≡ some true
      → Succeeded (after_handlers l a handled)
  unfolding after_handlers stopped
  after_handlers-Succeeded false h = absurd (false≢true (some_inj.0 h))
  after_handlers-Succeeded true h =
      let (o, stdin) = read_username a.interrupted cleared_username a.stdin in
      after_username-Succeeded o stdin refl h

  -- When the frontend exits with success, the user entered a name and a password of proper length, the
  -- backend was sent exactly the request with these two, and the first bytes that it sent back are a
  -- response of version 1 with the result AUTH_RESULT_SUCCESS and a message that ends in its array.
  pub main-Succeeded : (main l a).exit ≡ some true → Succeeded (main l a)
  unfolding main
  main-Succeeded h = after_handlers-Succeeded a.handles_signals h
