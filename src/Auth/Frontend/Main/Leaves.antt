-- ===== src/Auth/Frontend/Main/Leaves.antt =====
-- What a run of the frontend leaves behind.
use st5039cmd.Base.{
  ℕ, ◌≡◌, ◌≢◌, ◌⊎◌, inl, inr, refl, sym, ◌∙◌, Bool, true, false, List, [], Option, none, some,
}
use st5039cmd.Base.Stdio.{File}
use st5039cmd.Auth.Protocol.{AuthResponse}
use st5039cmd.Auth.Transfer.{Outcome, complete, aborted, waiting}
use st5039cmd.Auth.Server.Effects.{held_after, holding}
use st5039cmd.Auth.Frontend.Input.{read_username}
use st5039cmd.Auth.Frontend.Terminal.{Termios, read_password}
use st5039cmd.Auth.Frontend.Terminal.Restored.{read_password-IsRestored}
use st5039cmd.Auth.Frontend.Exchange.{Layout, Exchange, exchange_auth_request}
use st5039cmd.Auth.Frontend.Exchange.Exchanged.{exchange_auth_request-GivesBack}
use st5039cmd.Auth.Frontend.Main.{
  Answers, Run, request_of, cleared_username, cleared_password, stopped, after_exchange,
  send_request, after_password, after_username, after_handlers, main,
}

module _ (l : Layout) (a : Answers) where
  -- The run has not ended, or no descriptor is open; and the terminal has its first settings, or it
  -- could not be given them, which is a failure.
  abbrev pub IsTidy : Run → Type 0
  IsTidy r =
      ((r.exit ≡ none) ⊎ (held_after r.acts (holding none []) ≡ holding none []))
      × ((r.terminal ≡ a.terminal) ⊎ ((a.password.restores ≡ false) × (r.exit ≡ some false)))

  stopped-IsTidy :
      (t : Termios) → (t ≡ a.terminal) ⊎ (a.password.restores ≡ false) → IsTidy (stopped t)
  unfolding stopped held_after
  stopped-IsTidy t (inl same) = (inr refl, inl same)
  stopped-IsTidy t (inr cannot) = (inr refl, inr (cannot, refl))

  after_exchange-IsTidy :
      (t : Termios) (response : AuthResponse) (e : Exchange) (o : Outcome)
      → e.outcome ≡ o
      → t ≡ a.terminal
      → (e.outcome ≡ waiting) ⊎ (held_after e.acts (holding none []) ≡ holding none [])
      → IsTidy (after_exchange t response e o)
  unfolding after_exchange
  after_exchange-IsTidy t response e complete there same (inl waits) =
      absurd (not_waiting (sym there ∙ waits))
    where
      not_waiting : complete ≢ waiting
      not_waiting h = cc
  after_exchange-IsTidy t response e complete there same (inr back) = (inr back, inl same)
  after_exchange-IsTidy t response e aborted there same (inl waits) =
      absurd (not_waiting (sym there ∙ waits))
    where
      not_waiting : aborted ≢ waiting
      not_waiting h = cc
  after_exchange-IsTidy t response e aborted there same (inr back) = (inr back, inl same)
  after_exchange-IsTidy t response e waiting there same back = (inl refl, inl same)

  after_password-IsTidy :
      (username : List ℕ) (t : Termios) (o : Option (List ℕ))
      → (t ≡ a.terminal) ⊎ ((a.password.restores ≡ false) × (o ≡ none))
      → IsTidy (after_password l a username t o)
  unfolding after_password send_request
  after_password-IsTidy username t none (inl same) = stopped-IsTidy t (inl same)
  after_password-IsTidy username t none (inr (cannot, nothing)) = stopped-IsTidy t (inr cannot)
  after_password-IsTidy username t (some password) (inl same) =
      let request = request_of username password in
      let e = exchange_auth_request a.exchange l request in
      after_exchange-IsTidy t (l.decode e.response) e e.outcome refl same
        (exchange_auth_request-GivesBack a.exchange l request)
  after_password-IsTidy username t (some password) (inr (cannot, nothing)) = cc

  after_username-IsTidy :
      (o : Option (List ℕ)) (stdin : File) → IsTidy (after_username l a (o, stdin))
  unfolding after_username
  after_username-IsTidy none stdin = stopped-IsTidy a.terminal (inl refl)
  after_username-IsTidy (some username) stdin =
      let r = read_password a.password cleared_password a.terminal stdin in
      after_password-IsTidy username r.terminal r.password
        (read_password-IsRestored a.password cleared_password a.terminal stdin).0

  after_handlers-IsTidy : (handled : Bool) → IsTidy (after_handlers l a handled)
  unfolding after_handlers
  after_handlers-IsTidy false = stopped-IsTidy a.terminal (inl refl)
  after_handlers-IsTidy true =
      let (o, stdin) = read_username a.interrupted cleared_username a.stdin in
      after_username-IsTidy o stdin

  -- Whichever way the frontend ends, it has closed the socket that it opened, and the terminal has the
  -- settings that it had at the start, unless restoring them failed, and then the frontend fails.
  pub main-IsTidy : IsTidy (main l a)
  unfolding main
  main-IsTidy = after_handlers-IsTidy a.handles_signals
