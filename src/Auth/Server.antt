-- ===== src/Auth/Server.antt =====
-- Authentication/Backend.c: the listening socket and its path: `remove_stale_socket_path`,
-- `create_server_socket`, `accept_one_client`, `close_logged` and `unlink_socket_path`. The answers of
-- the kernel are arguments; beside its result each operation has the list of what it did.
pub mod Effects
pub mod Tests
use st5039cmd.Base.{
  ℕ, Bool, true, false, not, ◌||◌, List, [], ◌∷◌, ◌++◌, Option, none, some, length, leb, ◌==◌,
  if◌then◌else◌,
}
use st5039cmd.Base.CString.{codes}
use st5039cmd.Auth.Transfer.{Turn}

-- A call that had an effect, or that was made to take one back.
pub data Act : Type 0 where
  opened closed : ℕ → Act
  removed_stale bound restricted listening unlinked : Act

-- AUTH_SOCKET_PATH.
abbrev pub auth_socket_path : List ℕ
auth_socket_path = codes "/tmp/st5039cmd_auth.sock"

-- `fd` below 0 is `none`.
pub close_logged : Option ℕ → List Act
close_logged none = []
close_logged (some fd) = closed fd ∷ []

-- What `lstat` says: ENOENT, another error, or what stands there.
pub data PathStatus : Type 0 where
  path_absent path_error : PathStatus
  path_present : (is_socket : Bool) → (owner : ℕ) → PathStatus

unfoldable pub remove_stale_socket_path :
    PathStatus → (euid : ℕ) → (unlinks : Bool) → Bool × List Act
remove_stale_socket_path path_absent euid unlinks = (true, [])
remove_stale_socket_path path_error euid unlinks = (false, [])
remove_stale_socket_path (path_present is_socket owner) euid unlinks =
    if not is_socket || not (owner == euid)
    then (false, [])
    else if unlinks
    then (true, removed_stale ∷ [])
    else (false, [])

-- The answers behind `socket`, and `sizeof(address.sun_path)`.
pub record SocketAnswers : Type 0 where
  pub socket : Option ℕ
  pub sun_path_size : ℕ
  pub status : PathStatus
  pub unlinks : Bool
  pub binds : Bool
  pub chmods : Bool
  pub listens : Bool

-- Behind a successful `bind`.
pub listen_on : SocketAnswers → ℕ → Option ℕ × List Act
listen_on a fd =
    if not a.chmods
    then (none, close_logged (some fd) ++ unlinked ∷ [])
    else if not a.listens
    then (none, restricted ∷ close_logged (some fd) ++ unlinked ∷ [])
    else (some fd, restricted ∷ listening ∷ [])

-- Behind `remove_stale_socket_path`.
pub bind_to : SocketAnswers → ℕ → Bool × List Act → Option ℕ × List Act
bind_to a fd (false, acts) = (none, acts ++ close_logged (some fd))
bind_to a fd (true, acts) =
    if not a.binds
    then (none, acts ++ close_logged (some fd))
    else let (server, after) = listen_on a fd in (server, acts ++ (bound ∷ after))

pub prepare_socket : SocketAnswers → (euid : ℕ) → ℕ → Option ℕ × List Act
prepare_socket a euid fd =
    if leb a.sun_path_size (length auth_socket_path)
    then (none, close_logged (some fd))
    else bind_to a fd (remove_stale_socket_path a.status euid a.unlinks)

pub create_from : SocketAnswers → (euid : ℕ) → Option ℕ → Option ℕ × List Act
create_from a euid none = (none, [])
create_from a euid (some fd) =
    let (server, acts) = prepare_socket a euid fd in (server, opened fd ∷ acts)

unfoldable pub create_server_socket : SocketAnswers → (euid : ℕ) → Option ℕ × List Act
unfolding close_logged remove_stale_socket_path listen_on bind_to prepare_socket create_from
create_server_socket a euid = create_from a euid a.socket

pub data AcceptAnswer : Type 0 where
  accepted : ℕ → AcceptAnswer
  accept_interrupted accept_failed : AcceptAnswer

-- A client, none, or a call that has not returned yet.
pub data Accepted : Type 0 where
  client : ℕ → Accepted
  no_client accepting : Accepted

unfoldable pub accept_one_client : List (Turn AcceptAnswer) → Accepted
accept_one_client [] = accepting
accept_one_client (t ∷ turns) = elim t.stop_before [
  | true ↦ no_client
  | false ↦ elim t.answer [
    | accepted fd ↦ client fd
    | accept_failed ↦ no_client
    | accept_interrupted ↦ elim t.stop_after [ true ↦ no_client | false ↦ accept_one_client turns ]
  ]
]

-- The label `cleanup` of `main`.
unfoldable pub release_sockets : (client_fd server_fd : Option ℕ) → List Act
unfolding close_logged
release_sockets client_fd none = close_logged client_fd
release_sockets client_fd (some fd) =
    close_logged client_fd ++ close_logged (some fd) ++ unlinked ∷ []
