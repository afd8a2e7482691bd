-- ===== src/Auth/Frontend/Main/Returns.antt =====
-- A run of the frontend that nothing disturbs.
use st5039cmd.Base.{◌≡◌, refl, ap, ◌∙◌, true, false, some, arith}
use st5039cmd.Auth.Protocol.{AuthResponse}
use st5039cmd.Auth.Transfer.{Outcome, complete, aborted, waiting}
use st5039cmd.Auth.Frontend.Input.{copy_string, read_username}
use st5039cmd.Auth.Frontend.Input.Accepts.{read_username_iff}
use st5039cmd.Auth.Frontend.Terminal.{Termios, read_password}
use st5039cmd.Auth.Frontend.Terminal.Accepts.{CanHide, read_password_iff}
use st5039cmd.Auth.Frontend.Exchange.{Layout, Exchange, exchange_auth_request}
use st5039cmd.Auth.Frontend.Exchange.Exchanged.{exchange_auth_request-Exchanged}
use st5039cmd.Auth.Frontend.Exchange.Returns.{IsConnected, exchange_auth_request_returns}
use st5039cmd.Auth.Frontend.Main.{
  Answers, cleared_username, cleared_password, judge, after_exchange, send_request, after_password,
  after_username, after_handlers, main,
}
use st5039cmd.Auth.Frontend.Main.Answered.{behind_name, Entered, entered_request, received_response}

-- No signal, and a terminal that can be changed, if there is one.
pub record IsQuiet (a : Answers) : Type 0 where
  pub handles : a.handles_signals ≡ true
  pub before_name : a.interrupted ≡ false
  pub before_word : a.password.interrupted_before ≡ false
  pub hidden : a.password.interrupted_hidden ≡ false
  pub after_word : a.password.interrupted_after ≡ false
  pub can_hide : CanHide a.password

module _ (l : Layout) (a : Answers) (q : IsQuiet a) (e : Entered a) where
  name_read :
      read_username a.interrupted cleared_username a.stdin
      ≡ (some (copy_string e.name cleared_username), behind_name a)
  name_read = λ i. (
    (read_username_iff a.interrupted cleared_username a.stdin (copy_string e.name cleared_username)
          refl).1
        (q.before_name, e.name, e.name_typed, e.name_given, e.name_fits, refl) i,
    behind_name a,
  )

  word_read :
      (read_password a.password cleared_password a.terminal (behind_name a)).password
      ≡ some (copy_string e.word cleared_password)
  word_read =
      (read_password_iff a.password cleared_password refl a.terminal (behind_name a)
          (copy_string e.word cleared_password)).1
        (
          q.before_word,
          q.hidden,
          q.after_word,
          q.can_hide,
          (e.word, e.word_typed, e.word_given, omega (arith, e.word_fits), refl),
        )

  after_exchange-exit :
      (t : Termios) (r : AuthResponse) (x : Exchange) (o : Outcome)
      → o ≡ complete
      → ((after_exchange t r x o).exit ≡ some (judge r).0)
        × ((after_exchange t r x o).sent ≡ x.sent)
  unfolding after_exchange
  after_exchange-exit t r x complete h = (refl, refl)
  after_exchange-exit t r x aborted h = cc
  after_exchange-exit t r x waiting h = cc

  -- What is entered over an undisturbed connection is sent, and the exit code is the judgement of the
  -- response.
  pub main_returns :
      IsConnected a.exchange l (entered_request e)
      → ((main l a).exit ≡ some (judge (received_response l a)).0)
        × ((main l a).sent ≡ l.encode (entered_request e))
  unfolding main after_handlers after_username after_password send_request
  main_returns v =
      let request = entered_request e in
      let r = read_password a.password cleared_password a.terminal (behind_name a) in
      let x = exchange_auth_request a.exchange l request in
      let runs : main l a ≡ send_request l a r.terminal request =
        ap (after_handlers l a) q.handles
        ∙ ap (after_username l a) name_read
        ∙ ap (after_password l a (copy_string e.name cleared_username) r.terminal) word_read in
      let done = exchange_auth_request_returns a.exchange l request v in
      let (sent, enough, response) =
        exchange_auth_request-Exchanged a.exchange l request v.honest done in
      let (exit, same) = after_exchange-exit r.terminal (l.decode x.response) x x.outcome done in
      (
        ap (λ y. y.exit) runs ∙ exit ∙ ap (λ b. some (judge (l.decode b)).0) response,
        ap (λ y. y.sent) runs ∙ same ∙ sent,
      )
