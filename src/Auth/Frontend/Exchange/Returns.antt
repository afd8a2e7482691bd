-- ===== src/Auth/Frontend/Exchange/Returns.antt =====
-- When an exchange returns 0.
use mathlib.Core.Path.{ap₂}
use st5039cmd.Base.{ℕ, ◌≤◌, ◌≡◌, ap, ◌∙◌, true, false, List, [], ◌∷◌, some, length, leb, All}
use st5039cmd.Auth.Protocol.{AuthRequest}
use st5039cmd.Auth.Transfer.{Outcome, complete, aborted, waiting}
use st5039cmd.Auth.Transfer.Reading.{IsCalm, read_all_returns}
use st5039cmd.Auth.Transfer.Writing.{accepted, IsCalmWrite, write_all_returns}
use st5039cmd.Auth.Server.{Act, opened, auth_socket_path}
use st5039cmd.Auth.Frontend.Exchange.{
  write_all, Layout, ExchangeAnswers, try_connect, connect_socket, connect_to_backend,
  finish_exchange, after_reading, after_writing, after_connecting, exchange_unless,
  exchange_auth_request,
}
use st5039cmd.Auth.Frontend.Exchange.Loops.{
  all_as_backend, write_all-as_backend, read_all-as_backend,
}
use st5039cmd.Auth.Frontend.Exchange.Exchanged.{brought, HonestReads, aborted≢complete}

module _ (a : ExchangeAnswers) (l : Layout) (request : AuthRequest) where
  -- A connection that nothing disturbs, with a backend that takes the request and sends a response.
  pub record IsConnected : Type 0 where
    pub free : a.interrupted ≡ false
    pub fd : ℕ
    pub there : a.socket ≡ some fd
    pub short : leb a.sun_path_size (length auth_socket_path) ≡ false
    pub connects : a.connects ≡ true
    pub calm_writes : All IsCalmWrite (all_as_backend a.writes)
    pub takes : length (l.encode request) ≤ accepted (all_as_backend a.writes)
    pub calm_reads : All IsCalm (all_as_backend a.reads)
    pub honest : HonestReads l.response_size a
    pub brings : l.response_size ≤ length (brought a)
    pub closes : a.closes ≡ true

  after_writing-returns :
      (v : IsConnected) (acts : List Act) (w : Outcome × List ℕ)
      → w.0 ≡ complete
      → (after_writing a l.response_size v.fd acts w).outcome ≡ complete
  unfolding after_writing after_reading finish_exchange
  after_writing-returns v acts (complete, sent) e =
      let got =
        read_all-as_backend l.response_size a.reads
        ∙ read_all_returns l.response_size (all_as_backend a.reads) v.calm_reads v.honest
            v.brings in
      rw (got, v.closes)
  after_writing-returns v acts (aborted, sent) e = absurd (aborted≢complete e)
  after_writing-returns v acts (waiting, sent) e = cc

  connected : (v : IsConnected) → connect_to_backend a ≡ (some v.fd, opened v.fd ∷ [])
  unfolding connect_to_backend connect_socket try_connect
  connected v = ap (connect_socket a) v.there ∙ ap₂ (try_connect v.fd) v.short v.connects

  written_whole : IsConnected → (write_all (l.encode request) a.writes).0 ≡ complete
  written_whole v =
      ap (λ w. w.0) (write_all-as_backend (l.encode request) a.writes)
      ∙ write_all_returns (l.encode request) (all_as_backend a.writes) v.calm_writes v.takes

  -- An undisturbed exchange returns 0.
  pub exchange_auth_request_returns :
      IsConnected → (exchange_auth_request a l request).outcome ≡ complete
  unfolding exchange_auth_request exchange_unless after_connecting
  exchange_auth_request_returns v =
      ap (λ i. (exchange_unless i a l request).outcome) v.free
      ∙ ap (λ x. (after_connecting a l request x).outcome) (connected v)
      ∙ after_writing-returns v (opened v.fd ∷ []) (write_all (l.encode request) a.writes)
          (written_whole v)
