-- ===== src/Auth/Frontend/Exchange/Exchanged.antt =====
-- What an exchange that returned 0 has sent and received, and that it leaves no descriptor open.
use mathlib.Core.List.{append-nil}
use mathlib.Core.Path.{ap₂}
use st5039cmd.Base.{
  ℕ, ◌≤◌, ◌≡◌, ◌≢◌, ◌⊎◌, refl, sym, ap, ◌∙◌, Bool, true, false, List, [], ◌∷◌, ◌++◌, Option, none,
  some, length, take, length-take, leb, if◌then◌else◌, arith, inl, inr,
}
use st5039cmd.Auth.Protocol.{AuthRequest}
use st5039cmd.Auth.Transfer.{ReadAnswer, WriteAnswer, Outcome, complete, aborted, waiting}
use st5039cmd.Auth.Transfer.Reading.{arrived, Honest, read_all_exact}
use st5039cmd.Auth.Transfer.Writing.{write_all-Delivers}
use st5039cmd.Auth.Server.{Act, opened, closed, auth_socket_path}
use st5039cmd.Auth.Server.Effects.{held_after, holding, without-first}
use st5039cmd.Auth.Frontend.Exchange.{
  Turn, write_all, read_all, Layout, ExchangeAnswers, try_connect, connect_socket,
  connect_to_backend, Exchange, finish_exchange, after_reading, after_writing, after_connecting,
  exchange_unless, exchange_auth_request,
}
use st5039cmd.Auth.Frontend.Exchange.Loops.{
  all_as_backend, write_all-as_backend, read_all-as_backend,
}

-- The bytes that the backend's side of the connection brings.
abbrev pub brought : ExchangeAnswers → List ℕ
brought a = arrived (all_as_backend a.reads)

-- `read` never returns more than it was asked for.
abbrev pub HonestReads : ℕ → ExchangeAnswers → Type 0
HonestReads n a = Honest n (all_as_backend a.reads)

-- What has been sent is a first part of a message.
abbrev pub IsFirstPart : List ℕ → List ℕ → Type 0
IsFirstPart sent whole = (rest : List ℕ) × (sent ++ rest ≡ whole)

-- The request went out whole, and the response is the first bytes that came in.
abbrev pub Exchanged : ExchangeAnswers → Layout → AuthRequest → Exchange → Type 0
Exchanged a l request e =
    (e.sent ≡ l.encode request)
    × (l.response_size ≤ length (brought a))
    × (e.response ≡ take l.response_size (brought a))

pub aborted≢complete : aborted ≢ complete
aborted≢complete e = cc

not_complete :
    (o : Outcome) (closes : Bool) → (if closes then o else aborted) ≡ complete → o ≡ complete
not_complete o true e = e
not_complete o false e = cc

sent_whole :
    (buffer sent : List ℕ) (turns : List (Turn WriteAnswer))
    → write_all buffer turns ≡ (complete, sent)
    → sent ≡ buffer
sent_whole buffer sent turns e =
    let same = sym (write_all-as_backend buffer turns) ∙ e in
    let (rest, whole, all) = write_all-Delivers buffer (all_as_backend turns) in
    let all_sent = ap (λ r. r.1) same in
    let empty = all (ap (λ r. r.0) same) in
    sym (append-nil sent) ∙ ap₂ ◌++◌ (sym all_sent) (sym empty) ∙ whole

received_first :
    (n : ℕ) (bytes : List ℕ) (turns : List (Turn ReadAnswer))
    → Honest n (all_as_backend turns)
    → read_all n turns ≡ (complete, bytes)
    → (n ≤ length (arrived (all_as_backend turns)))
      × (bytes ≡ take n (arrived (all_as_backend turns)))
received_first n bytes turns h e =
    let came = arrived (all_as_backend turns) in
    let (size, same) =
      read_all_exact n (all_as_backend turns) bytes h (sym (read_all-as_backend n turns) ∙ e) in
    (omega (arith, size, ap length same, length-take n came), same)

module _ (a : ExchangeAnswers) (l : Layout) (request : AuthRequest) where
  after_reading-complete :
      (fd : ℕ) (acts : List Act) (sent : List ℕ) (r : Outcome × List ℕ)
      → read_all l.response_size a.reads ≡ r
      → HonestReads l.response_size a
      → (after_reading a.closes fd acts sent r).outcome ≡ complete
      → ((after_reading a.closes fd acts sent r).sent ≡ sent)
        × (l.response_size ≤ length (brought a))
        × ((after_reading a.closes fd acts sent r).response ≡ take l.response_size (brought a))
  unfolding after_reading finish_exchange
  after_reading-complete fd acts sent (complete, bytes) there h e =
      let (enough, same) = received_first l.response_size bytes a.reads h there in
      (refl, enough, same)
  after_reading-complete fd acts sent (aborted, bytes) there h e =
      absurd (aborted≢complete (not_complete aborted a.closes e))
  after_reading-complete fd acts sent (waiting, bytes) there h e = cc

  after_writing-complete :
      (fd : ℕ) (acts : List Act) (w : Outcome × List ℕ)
      → write_all (l.encode request) a.writes ≡ w
      → HonestReads l.response_size a
      → (after_writing a l.response_size fd acts w).outcome ≡ complete
      → Exchanged a l request (after_writing a l.response_size fd acts w)
  unfolding after_writing finish_exchange
  after_writing-complete fd acts (complete, sent) there h e =
      let (same, enough, response) =
        after_reading-complete fd acts sent (read_all l.response_size a.reads) refl h e in
      (same ∙ sent_whole (l.encode request) sent a.writes there, enough, response)
  after_writing-complete fd acts (aborted, sent) there h e =
      absurd (aborted≢complete (not_complete aborted a.closes e))
  after_writing-complete fd acts (waiting, sent) there h e = cc

  after_connecting-complete :
      (x : Option ℕ × List Act)
      → HonestReads l.response_size a
      → (after_connecting a l request x).outcome ≡ complete
      → Exchanged a l request (after_connecting a l request x)
  unfolding after_connecting
  after_connecting-complete (none, acts) h e = cc
  after_connecting-complete (some fd, acts) h e =
      after_writing-complete fd acts (write_all (l.encode request) a.writes) refl h e

  exchange_unless-complete :
      (interrupted : Bool)
      → HonestReads l.response_size a
      → (exchange_unless interrupted a l request).outcome ≡ complete
      → Exchanged a l request (exchange_unless interrupted a l request)
  unfolding exchange_unless
  exchange_unless-complete true h e = cc
  exchange_unless-complete false h e = after_connecting-complete (connect_to_backend a) h e

  -- When the exchange returns 0, the backend was sent the whole request, and the response is made of
  -- the first bytes that it sent back.
  pub exchange_auth_request-Exchanged :
      HonestReads l.response_size a
      → (exchange_auth_request a l request).outcome ≡ complete
      → Exchanged a l request (exchange_auth_request a l request)
  unfolding exchange_auth_request
  exchange_auth_request-Exchanged h e = exchange_unless-complete a.interrupted h e

  -- The descriptor is closed whenever the exchange returns.
  abbrev GivesBack : Exchange → Type 0
  GivesBack e = (e.outcome ≡ waiting) ⊎ (held_after e.acts (holding none []) ≡ holding none [])

  opened-closed :
      (fd : ℕ) → held_after (opened fd ∷ closed fd ∷ []) (holding none []) ≡ holding none []
  unfolding held_after
  opened-closed fd = rw (without-first fd [])

  after_reading-GivesBack :
      (fd : ℕ) (sent : List ℕ) (r : Outcome × List ℕ)
      → GivesBack (after_reading a.closes fd (opened fd ∷ []) sent r)
  unfolding after_reading finish_exchange
  after_reading-GivesBack fd sent (complete, bytes) = inr (opened-closed fd)
  after_reading-GivesBack fd sent (aborted, bytes) = inr (opened-closed fd)
  after_reading-GivesBack fd sent (waiting, bytes) = inl refl

  after_writing-GivesBack :
      (fd : ℕ) (w : Outcome × List ℕ)
      → GivesBack (after_writing a l.response_size fd (opened fd ∷ []) w)
  unfolding after_writing finish_exchange
  after_writing-GivesBack fd (complete, sent) =
      after_reading-GivesBack fd sent (read_all l.response_size a.reads)
  after_writing-GivesBack fd (aborted, sent) = inr (opened-closed fd)
  after_writing-GivesBack fd (waiting, sent) = inl refl

  try_connect-GivesBack :
      (fd : ℕ) (too_long connects : Bool)
      → GivesBack (after_connecting a l request (try_connect fd too_long connects))
  unfolding after_connecting try_connect
  try_connect-GivesBack fd true connects = inr (opened-closed fd)
  try_connect-GivesBack fd false false = inr (opened-closed fd)
  try_connect-GivesBack fd false true =
      after_writing-GivesBack fd (write_all (l.encode request) a.writes)

  connect-GivesBack :
      (socket : Option ℕ) → GivesBack (after_connecting a l request (connect_socket a socket))
  unfolding after_connecting connect_socket held_after
  connect-GivesBack none = inr refl
  connect-GivesBack (some fd) =
      try_connect-GivesBack fd (leb a.sun_path_size (length auth_socket_path)) a.connects

  exchange_unless-GivesBack :
      (interrupted : Bool) → GivesBack (exchange_unless interrupted a l request)
  unfolding exchange_unless connect_to_backend held_after
  exchange_unless-GivesBack true = inr refl
  exchange_unless-GivesBack false = connect-GivesBack a.socket

  -- Whichever way the exchange returns, it has closed the socket that it opened.
  pub exchange_auth_request-GivesBack : GivesBack (exchange_auth_request a l request)
  unfolding exchange_auth_request
  exchange_auth_request-GivesBack = exchange_unless-GivesBack a.interrupted
