-- ===== src/Auth/Together/Finishes.antt =====
-- A frontend and the backend's session with it that nothing disturbs.
use mathlib.Core.List.{append-nil}
use st5039cmd.Base.{
  ℕ, ◌≤◌, ◌≡◌, ◌↔◌, refl, ap, ◌∙◌, Bool, true, List, [], All, Option, some, length, arith,
}
use st5039cmd.Auth.Protocol.{AuthResponse}
use st5039cmd.Auth.Request.{DemoCredential, IsCredential, process_request}
use st5039cmd.Auth.Request.Outcome.{IsReadable, process_request-IsReadable}
use st5039cmd.Auth.Transfer.{ReadAnswer, WriteAnswer, Turn}
use st5039cmd.Auth.Transfer.Reading.{Honest, IsCalm, arrived}
use st5039cmd.Auth.Transfer.Writing.{IsCalmWrite, accepted}
use st5039cmd.Auth.Session
use st5039cmd.Auth.Session.{IsLayout, PeerCredentials, verify_peer_credentials, serve_client}
use st5039cmd.Auth.Session.Laws.{request_from, serve_client_returns, serve_client_sound}
use st5039cmd.Auth.Frontend.Exchange
use st5039cmd.Auth.Frontend.Exchange.Exchanged.{brought}
use st5039cmd.Auth.Frontend.Exchange.Returns.{IsConnected}
use st5039cmd.Auth.Frontend.Main
use st5039cmd.Auth.Frontend.Main.{cleared_username, cleared_password, judge, main}
use st5039cmd.Auth.Frontend.Main.Answered.{Entered, entered_request, received_response}
use st5039cmd.Auth.Frontend.Main.Returns.{IsQuiet, main_returns}
use st5039cmd.Auth.Together.{IsResponse, IsCodec}
use st5039cmd.Auth.Together.Sends.{process_request-IsResponse}
use st5039cmd.Auth.Together.Grants.{
  entered_request-IsRequest, request_whole, response_whole, EntersAccount, entered-granted,
}

-- A response of a backend is judged by its result alone.
judge-readable : (r : AuthResponse) → IsReadable r → ((judge r).0 ≡ true) ↔ (r.result ≡ 0)
unfolding judge
judge-readable r (version, size, ended) = ground (arith, version, ended)

module _ (l : Session.Layout) (m : Exchange.Layout) where
  -- A frontend and a backend that no signal and no failing call disturbs, each of which receives all
  -- that the other sends.
  pub record AreUndisturbed (a : Main.Answers) (e : Entered a) (peer : Option PeerCredentials)
      (uid gid : ℕ) (c : DemoCredential) (reads : List (Turn ReadAnswer))
      (writes : List (Turn WriteAnswer)) : Type 0 where
    pub quiet : IsQuiet a
    pub connected : IsConnected a.exchange m (entered_request e)
    pub expected : verify_peer_credentials peer uid gid ≡ true
    pub calm_reads : All IsCalm reads
    pub honest_reads : Honest l.request_size reads
    pub calm_writes : All IsCalmWrite writes
    pub takes : m.response_size ≤ accepted writes
    pub to_backend : arrived reads ≡ (main m a).sent
    pub to_client : brought a.exchange ≡ (serve_client l peer uid gid c reads writes).0.sent

  module _ (codec : IsCodec l m) (a : Main.Answers) (e : Entered a) (peer : Option PeerCredentials)
      (uid gid : ℕ) (c : DemoCredential) (reads : List (Turn ReadAnswer))
      (writes : List (Turn WriteAnswer)) (v : AreUndisturbed a e peer uid gid c reads writes) where
    request_there : arrived reads ≡ m.encode (entered_request e)
    request_there = v.to_backend ∙ (main_returns m a v.quiet e v.connected).1

    request_enough : l.request_size ≤ length (arrived reads)
    request_enough = omega (
      arith,
      ap length request_there,
      codec.request_length (entered_request e) (entered_request-IsRequest e),
    )

    request_read : request_from l reads ≡ entered_request e
    request_read =
        request_whole l m codec (entered_request e) reads (entered_request-IsRequest e) refl refl
          ([], append-nil (arrived reads) ∙ request_there) request_enough

    abbrev response : AuthResponse
    response = process_request (entered_request e) c

    response-IsResponse : IsResponse response
    response-IsResponse =
        process_request-IsResponse (entered_request e) c (entered_request-IsRequest e)

    backend_done : (serve_client l peer uid gid c reads writes).1 ≡ true
    backend_done =
        serve_client_returns l peer uid gid c reads writes v.expected v.calm_reads v.honest_reads
          request_enough v.calm_writes
          (omega (
            arith,
            ap (λ r. length (l.encode (process_request r c))) request_read,
            codec.response_length response response-IsResponse,
            v.takes,
          ))

    response_back : IsLayout l → IsCredential c → received_response m a ≡ response
    response_back hl hc =
        let (verified, sent, grants) =
          serve_client_sound l peer uid gid c reads writes hl hc v.honest_reads backend_done in
        let there = v.to_client ∙ sent ∙ ap (λ r. l.encode (process_request r c)) request_read in
        response_whole l m codec a (brought a.exchange) response response-IsResponse
          ([], append-nil (brought a.exchange) ∙ there) ([], append-nil (brought a.exchange))
          v.connected.brings

    -- Undisturbed, the backend's session with its client succeeds, and the frontend exits, with success
    -- exactly when the user entered the account's name and password.
    pub session_finishes :
        IsLayout l
        → IsCredential c
        → ((serve_client l peer uid gid c reads writes).1 ≡ true)
          × (success : Bool) × ((main m a).exit ≡ some success)
          × ((success ≡ true) ↔ EntersAccount e c)
    session_finishes hl hc =
        let judged =
          judge-readable response
            (process_request-IsReadable (entered_request e) c (entered_request-IsRequest e)) in
        let exit =
          (main_returns m a v.quiet e v.connected).0
          ∙ ap (λ r. some (judge r).0) (response_back hl hc) in
        let granted = entered-granted e c hc in
        (
          backend_done,
          (judge response).0,
          exit,
          (λ h. granted.0 (judged.0 h), λ h. judged.1 (granted.1 h)),
        )
