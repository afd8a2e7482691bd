-- ===== src/Auth/Server/Effects.antt =====
-- What the acts of the backend leave open and on disk.
use st5039cmd.Base.{
  ℕ, ◌≡◌, refl, Bool, true, false, not, ◌||◌, List, [], ◌∷◌, ◌++◌, Option, none, some, length, leb,
  ◌==◌, if◌then◌else◌, arith, Bool-cases, inl, inr,
}
use st5039cmd.Auth.Server.{
  Act, opened, closed, removed_stale, bound, restricted, listening, unlinked, auth_socket_path,
  close_logged, PathStatus, path_absent, path_error, path_present, remove_stale_socket_path,
  SocketAnswers, listen_on, bind_to, prepare_socket, create_from, create_server_socket,
  release_sockets,
}

-- The first descriptor of this number taken out.
unfoldable pub without : ℕ → List ℕ → List ℕ
without fd [] = []
without fd (x ∷ xs) = let rest = without fd xs in if x == fd then xs else x ∷ rest

-- The open descriptors, and whether a socket that this process has bound stands at the path.
pub record Held : Type 0 where
  pub descriptors : List ℕ
  pub at_path : Bool

unfoldable pub act_on : Act → Held → Held
unfolding without
act_on (opened fd) h = record h { descriptors = fd ∷ h.descriptors }
act_on (closed fd) h = record h { descriptors = without fd h.descriptors }
act_on removed_stale h = h
act_on bound h = record h { at_path = true }
act_on restricted h = h
act_on listening h = h
act_on unlinked h = record h { at_path = false }

unfoldable pub held_after : List Act → Held → Held
unfolding act_on
held_after [] h = h
held_after (a ∷ acts) h = held_after acts (act_on a h)

pub held_after-append :
    (xs ys : List Act) (h : Held) → held_after (xs ++ ys) h ≡ held_after ys (held_after xs h)
unfolding held_after
held_after-append [] ys h = refl
held_after-append (x ∷ xs) ys h = held_after-append xs ys (act_on x h)

pub without-first : (fd : ℕ) (fds : List ℕ) → without fd (fd ∷ fds) ≡ fds
unfolding without
without-first fd fds = ground arith

-- What is held with and without a server socket.
abbrev pub holding : Option ℕ → List ℕ → Held
holding none fds = record { descriptors = fds; at_path = false }
holding (some fd) fds = record { descriptors = fd ∷ fds; at_path = true }

remove_stale-held :
    (status : PathStatus) (euid : ℕ) (unlinks : Bool) (h : Held)
    → held_after (remove_stale_socket_path status euid unlinks).1 h ≡ h
unfolding remove_stale_socket_path held_after
remove_stale-held path_absent euid unlinks h = refl
remove_stale-held path_error euid unlinks h = refl
remove_stale-held (path_present is_socket owner) euid unlinks h =
    elim (Bool-cases (not is_socket || not (owner == euid))) [
      | inl refused ↦ rw refused
      | inr ours ↦ elim (Bool-cases unlinks) [
        | inl gone ↦ rw (ours, gone)
        | inr stays ↦ rw (ours, stays)
      ]
    ]

listen_on-held :
    (a : SocketAnswers) (fd : ℕ) (fds : List ℕ)
    → held_after (listen_on a fd).1 (holding (some fd) fds) ≡ holding (listen_on a fd).0 fds
unfolding listen_on held_after close_logged
listen_on-held a fd fds = elim (Bool-cases a.chmods) [
  | inr kept ↦ rw (kept, without-first fd fds)
  | inl changed ↦ elim (Bool-cases a.listens) [
    | inr deaf ↦ rw (changed, deaf, without-first fd fds)
    | inl ready ↦ rw (changed, ready)
  ]
]

-- Before `bind`: the server socket is open.
abbrev unbound : ℕ → List ℕ → Held
unbound fd fds = record { descriptors = fd ∷ fds; at_path = false }

bind_to-held :
    (a : SocketAnswers) (fd : ℕ) (fds : List ℕ) (b : Bool) (acts : List Act)
    → ((h : Held) → held_after acts h ≡ h)
    → held_after (bind_to a fd (b, acts)).1 (unbound fd fds)
      ≡ holding (bind_to a fd (b, acts)).0 fds
unfolding bind_to held_after close_logged listen_on
bind_to-held a fd fds false acts idle =
    rw (held_after-append acts (closed fd ∷ []), idle, without-first fd fds)
bind_to-held a fd fds true acts idle = elim (Bool-cases a.binds) [
  | inr unnamed ↦ rw (unnamed, held_after-append acts (closed fd ∷ []), idle, without-first fd fds)
  | inl named ↦
      rw (named, held_after-append acts (bound ∷ (listen_on a fd).1), idle)
        (listen_on-held a fd fds)
]

prepare_socket-held :
    (a : SocketAnswers) (euid fd : ℕ) (fds : List ℕ)
    → held_after (prepare_socket a euid fd).1 (unbound fd fds)
      ≡ holding (prepare_socket a euid fd).0 fds
unfolding prepare_socket held_after close_logged
prepare_socket-held a euid fd fds =
    elim (Bool-cases (leb a.sun_path_size (length auth_socket_path))) [
      | inl long ↦ rw (long, without-first fd fds)
      | inr fits ↦
          let (b, acts) = remove_stale_socket_path a.status euid a.unlinks in
          rw fits (bind_to-held a fd fds b acts (λ h. remove_stale-held a.status euid a.unlinks h))
    ]

-- Whichever call fails, the server socket is closed again and the path that was bound is taken away;
-- otherwise both are held.
pub create_server_socket-held :
    (a : SocketAnswers) (euid : ℕ) (fds : List ℕ)
    → held_after (create_server_socket a euid).1 (holding none fds)
      ≡ holding (create_server_socket a euid).0 fds
unfolding create_server_socket create_from held_after
create_server_socket-held a euid fds = go a.socket
  where
    go :
        (socket : Option ℕ)
        → held_after (create_from a euid socket).1 (holding none fds)
          ≡ holding (create_from a euid socket).0 fds
    go none = refl
    go (some fd) = prepare_socket-held a euid fd fds

-- The cleanup gives everything back.
pub release_sockets-held :
    (server_fd : Option ℕ) (fds : List ℕ)
    → held_after (release_sockets none server_fd) (holding server_fd fds) ≡ holding none fds
unfolding release_sockets held_after close_logged
release_sockets-held none fds = refl
release_sockets-held (some fd) fds = rw (without-first fd fds)

pub release_sockets-client :
    (client server : ℕ) (fds : List ℕ)
    → held_after
        (opened client ∷ release_sockets (some client) (some server))
        (holding (some server) fds)
      ≡ holding none fds
unfolding release_sockets held_after close_logged
release_sockets-client client server fds =
    rw (without-first client (server ∷ fds), without-first server fds)
