-- ===== src/Auth/Session/Laws.antt =====
-- What one client can learn and obtain.
use mathlib.Core.Bool.{false≢true}
use mathlib.Core.List.{append-nil}
use st5039cmd.Base.{
  ℕ, ◌≡◌, ◌≢◌, ◌↔◌, ◌≤◌, refl, sym, ap, ◌∙◌, true, List, ◌++◌, Option, some, length, take, All,
  arith, Bool-cases, inl, inr,
}
use st5039cmd.Base.Int.{is_positive}
use st5039cmd.Base.CString.{c_string}
use st5039cmd.Auth.Protocol.{AuthRequest, AuthResult, result_code}
use st5039cmd.Auth.Request.{DemoCredential, IsCredential, process_request}
use st5039cmd.Auth.Request.Outcome.{process_request-success}
use st5039cmd.Auth.Transfer.{
  ReadAnswer, WriteAnswer, Turn, Outcome, complete, aborted, waiting, read_all, write_all,
}
use st5039cmd.Auth.Transfer.Reading.{Honest, IsCalm, arrived, read_all_exact, read_all_returns}
use st5039cmd.Auth.Transfer.Writing.{IsCalmWrite, accepted, write_all-Delivers, write_all_returns}
use st5039cmd.Auth.Session.{
  Layout, IsLayout, PeerCredentials, invalid_id, verify_peer_credentials, is_complete,
  handle_client, serve_client, answer_request, respond,
}

-- A peer passes exactly when the kernel reports a whole, valid record with the expected user and group.
pub verify_peer_credentials_iff :
    (peer : PeerCredentials) (uid gid : ℕ)
    → (verify_peer_credentials (some peer) uid gid ≡ true) ↔ (
        (peer.length_matches ≡ true)
        × (is_positive peer.pid ≡ true)
        × (peer.uid ≢ invalid_id)
        × (peer.gid ≢ invalid_id)
        × (peer.uid ≡ uid)
        × (peer.gid ≡ gid))
unfolding verify_peer_credentials
verify_peer_credentials_iff peer uid gid = grind arith

pub is_complete→complete : (o : Outcome) → is_complete o ≡ true → o ≡ complete
is_complete→complete complete h = refl
is_complete→complete aborted h = cc
is_complete→complete waiting h = cc

module _ (l : Layout) where
  answer_request-cases :
      (c : DemoCredential) (o : Outcome) (bytes : List ℕ) (writes : List (Turn WriteAnswer))
      → (answer_request l c (o, bytes) writes).outcome ≡ complete
      → (o ≡ complete)
        × ((answer_request l c (o, bytes) writes).sent
            ≡ l.encode (process_request (l.decode bytes) c))
  unfolding answer_request respond
  answer_request-cases c complete bytes writes h =
      let (rest, whole, all_sent) =
        write_all-Delivers (l.encode (process_request (l.decode bytes) c)) writes in
      (
        refl,
        sym (append-nil _)
            ∙ ap (λ r. (write_all (l.encode (process_request (l.decode bytes) c)) writes).1 ++ r)
                (sym (all_sent h))
            ∙ whole,
      )
  answer_request-cases c aborted bytes writes h = cc
  answer_request-cases c waiting bytes writes h = cc

  -- The request that a client's bytes make up.
  abbrev pub request_from : List (Turn ReadAnswer) → AuthRequest
  request_from reads = l.decode (take l.request_size (arrived reads))

  handle_client-complete :
      (c : DemoCredential) (reads : List (Turn ReadAnswer)) (writes : List (Turn WriteAnswer))
      → Honest l.request_size reads
      → (handle_client l c reads writes).outcome ≡ complete
      → (length (take l.request_size (arrived reads)) ≡ l.request_size)
        × ((handle_client l c reads writes).sent
            ≡ l.encode (process_request (request_from reads) c))
  unfolding handle_client
  handle_client-complete c reads writes h e =
      let bytes = (read_all l.request_size reads).1 in
      let (whole, same) = answer_request-cases c (read_all l.request_size reads).0 bytes writes e in
      let (size, first) = read_all_exact l.request_size reads bytes h (λ i. (whole i, bytes)) in
      (
        ap length (sym first) ∙ size,
        same ∙ ap (λ b. l.encode (process_request (l.decode b) c)) first,
      )

  -- When the backend exits with success, the peer was the expected user and group, the client was sent
  -- the whole response to the first bytes it sent, and that response grants access exactly when the
  -- request has the supported version and type and the account's two strings.
  pub serve_client_sound :
      (peer : Option PeerCredentials) (uid gid : ℕ) (c : DemoCredential)
      (reads : List (Turn ReadAnswer)) (writes : List (Turn WriteAnswer))
      → IsLayout l
      → IsCredential c
      → Honest l.request_size reads
      → (serve_client l peer uid gid c reads writes).1 ≡ true
      → let r = request_from reads in
        (verify_peer_credentials peer uid gid ≡ true)
        × ((serve_client l peer uid gid c reads writes).0.sent ≡ l.encode (process_request r c))
        × (((process_request r c).result ≡ result_code AuthResult.success) ↔ (
            (r.version ≡ 1)
            × (r.type ≡ 1)
            × (c_string r.username ≡ c_string c.username)
            × (c_string r.password ≡ c_string c.password)))
  unfolding serve_client
  serve_client_sound peer uid gid c reads writes hl hc hh e =
      elim (Bool-cases (verify_peer_credentials peer uid gid)) [
        | inl ok ↦
            let done : (handle_client l c reads writes).outcome ≡ complete =
              is_complete→complete _ (rw (ok) at e) in
            let (size, same) = handle_client-complete c reads writes hh done in
            (
              ok,
              rw ok same,
              process_request-success (request_from reads) c
                  (hl.decode-IsRequest (take l.request_size (arrived reads)) size) hc,
            )
        | inr bad ↦ absurd (false≢true (rw bad at e))
      ]

  -- An expected peer that sends a whole request over a calm connection gets its answer, and the backend
  -- exits with success.
  pub serve_client_returns :
      (peer : Option PeerCredentials) (uid gid : ℕ) (c : DemoCredential)
      (reads : List (Turn ReadAnswer)) (writes : List (Turn WriteAnswer))
      → verify_peer_credentials peer uid gid ≡ true
      → All IsCalm reads
      → Honest l.request_size reads
      → l.request_size ≤ length (arrived reads)
      → All IsCalmWrite writes
      → length (l.encode (process_request (request_from reads) c)) ≤ accepted writes
      → (serve_client l peer uid gid c reads writes).1 ≡ true
  unfolding serve_client handle_client
  serve_client_returns peer uid gid c reads writes ok cr hr enough cw fits =
      let ran = read_all_returns l.request_size reads cr hr enough in
      let wrote =
        write_all_returns (l.encode (process_request (request_from reads) c)) writes cw fits in
      rw (ok, ran) (ap is_complete wrote)
