-- ===== src/Auth/Together/Tests.antt =====
-- One user at a terminal, one frontend and one backend, and the theorems at them.
use mathlib.Core.List.{append-nil}
use st5039cmd.Base.{
  ℕ, suc, ◌-◌, ◌≤◌, ◌≡◌, ◌++◌, refl, take-short, subst, length-append, sym, ap, ◌∙◌, inr, arith,
  true, false, List, [], ◌∷◌, some, length, take, All,
}
use st5039cmd.Base.CString.{codes, c_string, print_zeroed}
use st5039cmd.Auth.Protocol.{AuthRequest, AuthResponse}
use st5039cmd.Auth.Request.{process_request}
use st5039cmd.Auth.Request.Tests.{demo_credential, demo_credential-IsCredential}
use st5039cmd.Auth.Transfer
use st5039cmd.Auth.Transfer.{ReadAnswer, received, WriteAnswer, written}
use st5039cmd.Auth.Transfer.Tests.{quiet}
use st5039cmd.Auth.Transfer.Reading.{arrived, IsCalm, Honest}
use st5039cmd.Auth.Transfer.Writing.{accepted}
use st5039cmd.Auth.Session.{verify_peer_credentials, serve_client}
use st5039cmd.Auth.Session.Laws.{request_from, serve_client_returns, serve_client_sound}
use st5039cmd.Auth.Session.Tests.{expected_peer}
use st5039cmd.Auth.Frontend.Input.{copy_string}
use st5039cmd.Auth.Frontend.Input.Accepts.{IsTyped}
use st5039cmd.Auth.Frontend.Exchange
use st5039cmd.Auth.Frontend.Exchange.{ExchangeAnswers}
use st5039cmd.Auth.Frontend.Exchange.Exchanged.{brought}
use st5039cmd.Auth.Frontend.Exchange.Returns.{IsConnected}
use st5039cmd.Auth.Frontend.Main
use st5039cmd.Auth.Frontend.Main.{request_of, cleared_username, cleared_password, main}
use st5039cmd.Auth.Frontend.Main.Answered.{Entered, entered_request, Succeeded, main-Succeeded}
use st5039cmd.Auth.Frontend.Main.Leaves.{IsTidy, main-IsTidy}
use st5039cmd.Auth.Frontend.Main.Returns.{IsQuiet, main_returns}
use st5039cmd.Auth.Together.Sends.{process_request-IsResponse}
use st5039cmd.Auth.Together.Grants.{
  entered_request-IsRequest, AreJoined, EntersAccount, main-Grants,
}
use st5039cmd.Auth.Together.Finishes.{AreUndisturbed, session_finishes}
use st5039cmd.Auth.Together.Layouts.{
  encode_request, encode_response, backend_layout, frontend_layout, backend_layout-IsLayout,
  layouts-IsCodec,
}

abbrev demo_request : AuthRequest
demo_request =
    request_of (copy_string (codes "demo_user") cleared_username)
      (copy_string (codes "demo_password") cleared_password)

abbrev pub to_backend : List (Transfer.Turn ReadAnswer)
to_backend = (quiet (received (encode_request demo_request)) ∷ [])

abbrev pub to_client : List (Transfer.Turn WriteAnswer)
to_client = (quiet (written 144) ∷ [])

abbrev demo_response : AuthResponse
demo_response = process_request (request_from backend_layout to_backend) demo_credential

abbrev uninterrupted : {A : Type 0} → A → Exchange.Turn A
uninterrupted a = record { answer = a; interrupted = false }

abbrev pub demo_exchange : ExchangeAnswers
demo_exchange = record {
  interrupted = false;
  socket = some 3;
  sun_path_size = 108;
  connects = true;
  writes = (uninterrupted (written 204) ∷ []);
  reads = (uninterrupted (received (encode_response demo_response)) ∷ []);
  closes = true;
}

-- The name is typed at once, the password behind its prompt.
abbrev pub demo_user : Main.Answers
demo_user = record {
  handles_signals = true;
  interrupted = false;
  stdin = record { bytes = codes "demo_user" ++ 10 ∷ []; fails = false };
  terminal = record { echo = true; other_settings = 7 };
  password = record {
    interrupted_before = false;
    isatty = true;
    gets_settings = true;
    hides = true;
    interrupted_hidden = false;
    typed = record { bytes = codes "demo_password" ++ 10 ∷ []; fails = false };
    restores = true;
    interrupted_after = false;
  };
  exchange = demo_exchange;
}

pub name-IsTyped : All IsTyped (codes "demo_user")
name-IsTyped = ground arith

pub word-IsTyped : All IsTyped (codes "demo_password")
word-IsTyped = ground arith

abbrev pub demo_entered : Entered demo_user
demo_entered = record {
  name = codes "demo_user";
  name_typed = (name-IsTyped, [], refl);
  name_given = omega arith;
  name_fits = omega arith;
  word = codes "demo_password";
  word_typed = (word-IsTyped, [], refl);
  word_given = omega arith;
  word_fits = omega arith;
}

demo_quiet : IsQuiet demo_user
demo_quiet = record {
  handles = refl;
  before_name = refl;
  before_word = refl;
  hidden = refl;
  after_word = refl;
  can_hide = inr (refl, refl, refl);
}

request_size : length (encode_request demo_request) ≡ 204
request_size = layouts-IsCodec.request_length demo_request (entered_request-IsRequest demo_entered)

arrived_whole : take 204 (arrived to_backend) ≡ encode_request demo_request
unfolding arrived
arrived_whole =
    ap (take 204) (append-nil (encode_request demo_request))
    ∙ take-short 204 (encode_request demo_request) (omega (arith, request_size))

response_size : length (encode_response demo_response) ≡ 144
response_size = layouts-IsCodec.response_length demo_response (
    process_request-IsResponse (request_from backend_layout to_backend) demo_credential (
      backend_layout-IsLayout.decode-IsRequest (take 204 (arrived to_backend))
        (ap length arrived_whole ∙ request_size)))

one_read :
    (n : ℕ) (bytes : List ℕ)
    → length bytes ≡ suc n
    → All IsCalm (quiet (received bytes) ∷ [])
      × Honest (suc n) (quiet (received bytes) ∷ [])
      × (suc n ≤ length (arrived (quiet (received bytes) ∷ [])))
unfolding arrived
one_read n bytes h =
    let size = length-append bytes [] in
    let rest : suc n - length bytes ≡ 0 = omega (arith, h) in
    (
      ((refl, refl, omega (arith, h)), tt),
      (omega (arith, h), subst (λ k. Honest k []) (sym rest) tt),
      omega (arith, h, size),
    )

pub demo_connected : IsConnected demo_exchange frontend_layout (entered_request demo_entered)
unfolding accepted
demo_connected =
    let (calm, honest, enough) = one_read 143 (encode_response demo_response) response_size in
    record {
      free = refl;
      fd = 3;
      there = refl;
      short = refl;
      connects = refl;
      calm_writes = ((refl, refl, λ e. cc, λ e. cc), tt);
      takes = omega (arith, request_size);
      calm_reads = calm;
      honest = honest;
      brings = enough;
      closes = refl;
    }

served :
    (serve_client backend_layout
      (some expected_peer)
      1000
      1000
      demo_credential
      to_backend
      to_client).1
    ≡ true
unfolding accepted verify_peer_credentials
served =
    let (calm, honest, enough) = one_read 203 (encode_request demo_request) request_size in
    serve_client_returns backend_layout (some expected_peer) 1000 1000 demo_credential to_backend
      to_client refl calm honest enough ((refl, refl, λ e. cc, λ e. cc), tt)
      (omega (arith, response_size))

pub demo_undisturbed :
    AreUndisturbed backend_layout frontend_layout demo_user demo_entered
      (some expected_peer)
      1000
      1000
      demo_credential
      to_backend
      to_client
unfolding accepted verify_peer_credentials arrived
demo_undisturbed =
    let (calm, honest, enough) = one_read 203 (encode_request demo_request) request_size in
    let (verified, sent, grants) =
      serve_client_sound backend_layout (some expected_peer) 1000 1000 demo_credential to_backend
        to_client backend_layout-IsLayout demo_credential-IsCredential honest served in
    record {
      quiet = demo_quiet;
      connected = demo_connected;
      expected = refl;
      calm_reads = calm;
      honest_reads = honest;
      calm_writes = ((refl, refl, λ e. cc, λ e. cc), tt);
      takes = omega arith;
      to_backend =
          append-nil (encode_request demo_request)
          ∙ sym (main_returns frontend_layout demo_user demo_quiet demo_entered demo_connected).1;
      to_client = append-nil (encode_response demo_response) ∙ sym sent;
    }

pub demo_account : EntersAccount demo_entered demo_credential
unfolding print_zeroed c_string
demo_account = (refl, refl)

pub demo_succeeds : (main frontend_layout demo_user).exit ≡ some true
demo_succeeds =
    let (served, success, exit, grants) =
      session_finishes backend_layout frontend_layout layouts-IsCodec demo_user demo_entered
        (some expected_peer) 1000 1000 demo_credential to_backend to_client demo_undisturbed
        backend_layout-IsLayout demo_credential-IsCredential in
    exit ∙ ap some (grants.1 demo_account)

demo_joined :
    AreJoined backend_layout frontend_layout layouts-IsCodec demo_user
      (some expected_peer)
      1000
      1000
      demo_credential
      to_backend
      to_client
demo_joined = (
  ([], append-nil (arrived to_backend) ∙ demo_undisturbed.to_backend),
  ([], append-nil (brought demo_exchange) ∙ demo_undisturbed.to_client),
)

demo_granted :
    (e : Entered demo_user) × (verify_peer_credentials (some expected_peer) 1000 1000 ≡ true)
    × EntersAccount e demo_credential
demo_granted =
    main-Grants backend_layout frontend_layout layouts-IsCodec demo_user (some expected_peer) 1000
      1000 demo_credential to_backend to_client demo_credential-IsCredential
      demo_undisturbed.honest_reads demo_connected.honest demo_joined demo_succeeds

main-Succeeded_example :
    Succeeded frontend_layout demo_user demo_connected.honest (main frontend_layout demo_user)
main-Succeeded_example =
    main-Succeeded frontend_layout demo_user demo_connected.honest demo_succeeds

main-IsTidy_example : IsTidy frontend_layout demo_user (main frontend_layout demo_user)
main-IsTidy_example = main-IsTidy frontend_layout demo_user
