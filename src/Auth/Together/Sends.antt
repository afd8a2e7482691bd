-- ===== src/Auth/Together/Sends.antt =====
-- What a backend can have sent to its client.
use st5039cmd.Base.{
  ℕ, ◌^◌, ◌≤◌, ◌<◌, ◌≡◌, ◌≢◌, ◌⊎◌, inl, inr, refl, sym, ap, Bool, true, false, not, List, [],
  Option, length, length-take, arith, subst, if◌then◌else◌,
}
use st5039cmd.Base.CString.{codes, length-print_zeroed}
use st5039cmd.Auth.Protocol.{
  AuthRequest, AuthResponse, IsRequest, AuthResult, AuthErrorCode, result_code, error_number,
}
use st5039cmd.Auth.Request.{DemoCredential, set_response, process_request}
use st5039cmd.Auth.Request.Verdict.{verdict_response, process_request-verdict}
use st5039cmd.Auth.Transfer.{
  ReadAnswer, WriteAnswer, Turn, Outcome, complete, aborted, waiting, read_all, write_all,
}
use st5039cmd.Auth.Transfer.Reading.{Honest, arrived, read_all_exact}
use st5039cmd.Auth.Transfer.Writing.{write_all-Delivers}
use st5039cmd.Auth.Session.{
  Layout, PeerCredentials, Answered, verify_peer_credentials, send_peer_rejection, respond,
  answer_request, handle_client, serve_client, is_complete,
}
use st5039cmd.Auth.Session.Laws.{request_from}
use st5039cmd.Auth.Frontend.Exchange.Exchanged.{IsFirstPart}
use st5039cmd.Auth.Together.{IsResponse}

set_response-IsResponse :
    (result : AuthResult) (e : AuthErrorCode) (text : List ℕ)
    → IsResponse (set_response result e text)
unfolding set_response
set_response-IsResponse result e text = record {
  version_fits = omega arith;
  result_fits = result_small result;
  error_code_fits = error_small e;
  message_size = length-print_zeroed 128 text;
}
  where
    result_small : (r : AuthResult) → result_code r < 2 ^ 32
    result_small AuthResult.success = omega arith
    result_small AuthResult.invalid_credentials = omega arith
    result_small AuthResult.rejected = omega arith
    result_small AuthResult.error = omega arith

    error_small : (e : AuthErrorCode) → error_number e < 2 ^ 32
    error_small e = ground arith

pub process_request-IsResponse :
    (r : AuthRequest) (c : DemoCredential) → IsRequest r → IsResponse (process_request r c)
unfolding verdict_response
process_request-IsResponse r c h =
    subst IsResponse (sym (process_request-verdict r c h)) (set_response-IsResponse _ _ _)

-- The response to a client that is not the expected one.
abbrev pub peer_rejection : AuthResponse
peer_rejection =
    set_response AuthResult.rejected AuthErrorCode.bad_request (codes "peer credentials rejected")

pub peer_rejection-IsResponse : IsResponse peer_rejection
peer_rejection-IsResponse = set_response-IsResponse _ _ _

pub peer_rejection-result : peer_rejection.result ≢ 0
unfolding set_response
peer_rejection-result = λ e. omega (arith, e)

module _ (l : Layout) where
  -- What the response answers: a client that was turned away, or the request that was read whole.
  abbrev pub Answers :
      Option PeerCredentials
      → (uid gid : ℕ) → DemoCredential
      → List (Turn ReadAnswer)
      → AuthResponse
      → Type 0
  Answers peer uid gid c reads r =
      (r ≡ peer_rejection)
      ⊎ ((verify_peer_credentials peer uid gid ≡ true)
          × (l.request_size ≤ length (arrived reads))
          × (r ≡ process_request (request_from l reads) c))

  -- Nothing has been sent, or a first part of a response.
  abbrev pub HasSent : (AuthResponse → Type 0) → List ℕ → Type 0
  HasSent Allowed sent =
      (sent ≡ []) ⊎ ((r : AuthResponse) × Allowed r × IsFirstPart sent (l.encode r))

  written_part :
      (r : AuthResponse) (writes : List (Turn WriteAnswer))
      → IsFirstPart (write_all (l.encode r) writes).1 (l.encode r)
  written_part r writes =
      let (rest, whole, all) = write_all-Delivers (l.encode r) writes in (rest, whole)

  module _ (c : DemoCredential) (reads : List (Turn ReadAnswer))
      (writes : List (Turn WriteAnswer)) where
    answer_request-HasSent :
        (o : Outcome) (bytes : List ℕ)
        → read_all l.request_size reads ≡ (o, bytes)
        → Honest l.request_size reads
        → HasSent
            (λ r.
              (l.request_size ≤ length (arrived reads))
              × (r ≡ process_request (request_from l reads) c))
            (answer_request l c (o, bytes) writes).sent
    unfolding answer_request respond
    answer_request-HasSent complete bytes there h =
        let (size, same) = read_all_exact l.request_size reads bytes h there in
        let response = process_request (l.decode bytes) c in
        inr (
          response,
          (
            omega (arith, size, ap length same, length-take l.request_size (arrived reads)),
            ap (λ b. process_request (l.decode b) c) same,
          ),
          written_part response writes,
        )
    answer_request-HasSent aborted bytes there h = inl refl
    answer_request-HasSent waiting bytes there h = inl refl

    handle_client-HasSent :
        Honest l.request_size reads
        → HasSent
            (λ r.
              (l.request_size ≤ length (arrived reads))
              × (r ≡ process_request (request_from l reads) c))
            (handle_client l c reads writes).sent
    unfolding handle_client
    handle_client-HasSent h =
        let (o, bytes) = read_all l.request_size reads in answer_request-HasSent o bytes refl h

    served-HasSent :
        (peer : Option PeerCredentials) (uid gid : ℕ) (verified : Bool)
        → verify_peer_credentials peer uid gid ≡ verified
        → Honest l.request_size reads
        → HasSent
            (Answers peer uid gid c reads)
            (if not verified
              then send_peer_rejection l writes
              else handle_client l c reads writes).sent
    unfolding send_peer_rejection
    served-HasSent peer uid gid false there h =
        inr (peer_rejection, inl refl, written_part peer_rejection writes)
    served-HasSent peer uid gid true there h = elim (handle_client-HasSent h) [
      | inl nothing ↦ inl nothing
      | inr (r, (enough, same), part) ↦ inr (r, inr (there, enough, same), part)
    ]

    sent_of :
        (verified : Bool) (refused answered : Answered) (success : Bool)
        → (if◌then◌else◌ {A = Answered × Bool}
            (not verified)
            (refused, false)
            (answered, success)).0
          ≡ (if not verified then refused else answered)
    sent_of true refused answered success = refl
    sent_of false refused answered success = refl

    -- Whatever the backend has sent is a first part of one response: the peer rejection, or the answer
    -- of `process_request` to a whole request of a verified peer.
    pub serve_client-HasSent :
        (peer : Option PeerCredentials) (uid gid : ℕ)
        → Honest l.request_size reads
        → HasSent (Answers peer uid gid c reads) (serve_client l peer uid gid c reads writes).0.sent
    unfolding serve_client
    serve_client-HasSent peer uid gid h =
        let answered = handle_client l c reads writes in
        subst (λ a. HasSent (Answers peer uid gid c reads) a.sent)
          (sym (
            sent_of (verify_peer_credentials peer uid gid) (send_peer_rejection l writes) answered
              (is_complete answered.outcome)))
          (served-HasSent peer uid gid (verify_peer_credentials peer uid gid) refl h)
