-- ===== src/Auth/Frontend/Exchange.antt =====
-- Authentication/Frontend.c: `connect_to_backend`, `write_all`, `read_all` and
-- `exchange_auth_request`. The loops meet one turn of the kernel in each round, as those of the backend
-- do, but test for a signal only behind an interrupted call.
pub mod Loops
pub mod Exchanged
pub mod Returns
use st5039cmd.Base.{
  ℕ, zero, suc, ◌-◌, Bool, true, false, List, [], ◌∷◌, ◌++◌, Option, none, some, length, take, drop,
  leb, if◌then◌else◌,
}
use st5039cmd.Auth.Protocol.{AuthRequest, AuthResponse}
use st5039cmd.Auth.Transfer.{
  ReadAnswer, received, read_interrupted, read_failed, WriteAnswer, written, write_interrupted,
  write_failed, Outcome, complete, aborted, waiting,
}
use st5039cmd.Auth.Server.{Act, opened, closed, auth_socket_path}

-- The call's answer, and `frontend_interrupted` behind an EINTR.
pub record Turn (A : Type 0) : Type 0 where
  pub answer : A
  pub interrupted : Bool

-- The loop of `write_all`: what the backend was sent, and the bytes from `cursor` on.
unfoldable pub write_from : List ℕ → List ℕ → List (Turn WriteAnswer) → Outcome × List ℕ
write_from sent [] turns = (complete, sent)
write_from sent (b ∷ bs) [] = (waiting, sent)
write_from sent (b ∷ bs) (t ∷ turns) = elim t.answer [
  | write_interrupted ↦ elim t.interrupted [
    | true ↦ (aborted, sent)
    | false ↦ write_from sent (b ∷ bs) turns
  ]
  | write_failed ↦ (aborted, sent)
  | written zero ↦ (aborted, sent)
  | written (suc k) ↦ write_from (sent ++ take (suc k) (b ∷ bs)) (drop (suc k) (b ∷ bs)) turns
]

unfoldable pub write_all : List ℕ → List (Turn WriteAnswer) → Outcome × List ℕ
unfolding write_from
write_all buffer turns = write_from [] buffer turns

-- The loop of `read_all`: the bytes in the buffer, and `length`.
unfoldable pub read_from : List ℕ → ℕ → List (Turn ReadAnswer) → Outcome × List ℕ
read_from got zero turns = (complete, got)
read_from got (suc n) [] = (waiting, got)
read_from got (suc n) (t ∷ turns) = elim t.answer [
  | read_interrupted ↦ elim t.interrupted [
    | true ↦ (aborted, got)
    | false ↦ read_from got (suc n) turns
  ]
  | read_failed ↦ (aborted, got)
  | received [] ↦ (aborted, got)
  | received (b ∷ bs) ↦ read_from (got ++ b ∷ bs) (suc n - length (b ∷ bs)) turns
]

unfoldable pub read_all : ℕ → List (Turn ReadAnswer) → Outcome × List ℕ
unfolding read_from
read_all n turns = read_from [] n turns

-- `sizeof(AuthResponse)` and how the compiler lays the two messages out.
pub record Layout : Type 0 where
  pub encode : AuthRequest → List ℕ
  pub response_size : ℕ
  pub decode : List ℕ → AuthResponse

-- What the kernel answers, and `frontend_interrupted` at the start.
pub record ExchangeAnswers : Type 0 where
  pub interrupted : Bool
  pub socket : Option ℕ
  pub sun_path_size : ℕ
  pub connects : Bool
  pub writes : List (Turn WriteAnswer)
  pub reads : List (Turn ReadAnswer)
  pub closes : Bool

-- An open socket, whether the path is too long for the address, and whether `connect` returns 0.
pub try_connect : ℕ → (too_long connects : Bool) → Option ℕ × List Act
try_connect fd true connects = (none, opened fd ∷ closed fd ∷ [])
try_connect fd false false = (none, opened fd ∷ closed fd ∷ [])
try_connect fd false true = (some fd, opened fd ∷ [])

-- Behind `socket`; `none` is the return of -1.
pub connect_socket : ExchangeAnswers → Option ℕ → Option ℕ × List Act
connect_socket a none = (none, [])
connect_socket a (some fd) =
    try_connect fd (leb a.sun_path_size (length auth_socket_path)) a.connects

unfoldable pub connect_to_backend : ExchangeAnswers → Option ℕ × List Act
unfolding try_connect connect_socket
connect_to_backend a = connect_socket a a.socket

-- How the exchange ends; what was opened and closed, what the backend was sent, and the response.
pub record Exchange : Type 0 where
  pub outcome : Outcome
  pub acts : List Act
  pub sent : List ℕ
  pub response : List ℕ

-- From the label `cleanup` on, with `result`.
pub finish_exchange : (closes : Bool) → ℕ → List Act → List ℕ → Outcome → List ℕ → Exchange
finish_exchange closes fd acts sent outcome response = record {
  outcome = if closes then outcome else aborted;
  acts = acts ++ closed fd ∷ [];
  sent = sent;
  response = response;
}

-- Behind `read_all`.
pub after_reading : (closes : Bool) → ℕ → List Act → List ℕ → Outcome × List ℕ → Exchange
after_reading closes fd acts sent (complete, bytes) =
    finish_exchange closes fd acts sent complete bytes
after_reading closes fd acts sent (aborted, bytes) =
    finish_exchange closes fd acts sent aborted bytes
after_reading closes fd acts sent (waiting, bytes) = record {
  outcome = waiting;
  acts = acts;
  sent = sent;
  response = bytes;
}

-- Behind `write_all`.
pub after_writing : ExchangeAnswers → ℕ → ℕ → List Act → Outcome × List ℕ → Exchange
after_writing a response_size fd acts (complete, sent) =
    after_reading a.closes fd acts sent (read_all response_size a.reads)
after_writing a response_size fd acts (aborted, sent) =
    finish_exchange a.closes fd acts sent aborted []
after_writing a response_size fd acts (waiting, sent) = record {
  outcome = waiting;
  acts = acts;
  sent = sent;
  response = [];
}

-- Behind `connect_to_backend`.
pub after_connecting : ExchangeAnswers → Layout → AuthRequest → Option ℕ × List Act → Exchange
after_connecting a l request (none, acts) = record {
  outcome = aborted;
  acts = acts;
  sent = [];
  response = [];
}
after_connecting a l request (some fd, acts) =
    after_writing a l.response_size fd acts (write_all (l.encode request) a.writes)

pub exchange_unless : (interrupted : Bool) → ExchangeAnswers → Layout → AuthRequest → Exchange
exchange_unless true a l request = record { outcome = aborted; acts = []; sent = []; response = [] }
exchange_unless false a l request = after_connecting a l request (connect_to_backend a)

unfoldable pub exchange_auth_request : ExchangeAnswers → Layout → AuthRequest → Exchange
unfolding finish_exchange after_reading after_writing after_connecting exchange_unless
exchange_auth_request a l request = exchange_unless a.interrupted a l request
