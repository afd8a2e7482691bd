-- ===== src/Auth/Session.antt =====
-- Authentication/Backend.c: one client, from the peer check to the answer: `verify_peer_credentials`,
-- `send_peer_rejection`, `handle_client` and the end of `main`. How a struct lies in memory is the
-- argument `Layout`; clearing buffers and logging leave no trace.
pub mod Laws
pub mod Tests
use st5039cmd.Base.{
  ℕ, ◌-◌, ◌^◌, ◌≡◌, Bool, true, false, not, ◌&&◌, ◌||◌, List, [], Option, none, some, length, ◌==◌,
  if◌then◌else◌,
}
use st5039cmd.Base.CString.{codes}
use st5039cmd.Base.Int.{ℤ, is_positive}
use st5039cmd.Auth.Protocol.{AuthRequest, AuthResponse, AuthResult, AuthErrorCode, IsRequest}
use st5039cmd.Auth.Request.{DemoCredential, set_response, process_request}
use st5039cmd.Auth.Transfer.{
  ReadAnswer, WriteAnswer, Turn, Outcome, complete, aborted, waiting, read_all, write_all,
}

-- `sizeof(AuthRequest)` and how the compiler lays the two messages out.
pub record Layout : Type 0 where
  pub request_size : ℕ
  pub decode : List ℕ → AuthRequest
  pub encode : AuthResponse → List ℕ

-- The request's arrays have their declared sizes, whatever the bytes.
pub record IsLayout (l : Layout) : Type 0 where
  pub decode-IsRequest :
      (bytes : List ℕ) → length bytes ≡ l.request_size → IsRequest (l.decode bytes)

-- `struct ucred` and the length that `getsockopt` reports.
pub record PeerCredentials : Type 0 where
  pub pid : ℤ
  pub uid : ℕ
  pub gid : ℕ
  pub length_matches : Bool

-- `(uid_t)-1`.
abbrev pub invalid_id : ℕ
invalid_id = 2 ^ 32 - 1

-- `none` is a failed `getsockopt`.
unfoldable pub verify_peer_credentials :
    Option PeerCredentials → (expected_uid expected_gid : ℕ) → Bool
verify_peer_credentials none expected_uid expected_gid = false
verify_peer_credentials (some peer) expected_uid expected_gid =
    if not peer.length_matches
      || not (is_positive peer.pid)
      || peer.uid == invalid_id
      || peer.gid == invalid_id
    then false
    else if not (peer.uid == expected_uid) || not (peer.gid == expected_gid)
    then false
    else true

abbrev pub is_complete : Outcome → Bool
is_complete complete = true
is_complete aborted = false
is_complete waiting = false

-- What a client sees, and how the call ended.
pub record Answered : Type 0 where
  pub outcome : Outcome
  pub sent : List ℕ

module _ (l : Layout) where
  unfoldable pub send_peer_rejection : List (Turn WriteAnswer) → Answered
  send_peer_rejection writes =
      let (outcome, sent) =
        write_all
          (l.encode (
            set_response AuthResult.rejected AuthErrorCode.bad_request
              (codes "peer credentials rejected")))
          writes in
      record { outcome = outcome; sent = sent }

  unfoldable pub respond : AuthResponse → List (Turn WriteAnswer) → Answered
  respond response writes =
      let (outcome, sent) = write_all (l.encode response) writes in
      record { outcome = outcome; sent = sent }

  -- Behind `read_all`: a request that did not arrive whole gets no answer.
  unfoldable pub answer_request :
      DemoCredential → Outcome × List ℕ → List (Turn WriteAnswer) → Answered
  answer_request credential (complete, bytes) writes =
      respond (process_request (l.decode bytes) credential) writes
  answer_request credential (aborted, bytes) writes = record { outcome = aborted; sent = [] }
  answer_request credential (waiting, bytes) writes = record { outcome = waiting; sent = [] }

  unfoldable pub handle_client :
      DemoCredential → List (Turn ReadAnswer) → List (Turn WriteAnswer) → Answered
  unfolding respond answer_request
  handle_client credential reads writes =
      answer_request credential (read_all l.request_size reads) writes

  -- `main` from the accepted connection on: the answer, and whether the exit code is EXIT_SUCCESS.
  unfoldable pub serve_client :
      Option PeerCredentials
      → (invoking_uid invoking_gid : ℕ) → DemoCredential
      → List (Turn ReadAnswer)
      → List (Turn WriteAnswer)
      → Answered × Bool
  serve_client peer invoking_uid invoking_gid credential reads writes =
      if not (verify_peer_credentials peer invoking_uid invoking_gid)
      then (send_peer_rejection writes, false)
      else let answered = handle_client credential reads writes in
        (answered, is_complete answered.outcome)
