-- ===== src/Auth/Together/Grants.antt =====
-- A frontend and a backend that talk to each other.
use mathlib.Core.List.{append_assoc}
use st5039cmd.Base.{
  ℕ, ◌+◌, ◌≤◌, ◌<◌, ◌≡◌, ◌⊎◌, ◌↔◌, inl, inr, refl, sym, ap, ◌∙◌, true, List, [], ◌∷◌, ◌++◌, All,
  Option, some, length, length-append, length-drop, drop, arith, subst,
}
use st5039cmd.Base.CString.{c_string}
use st5039cmd.Auth.Account.Loading.{HasNoNul, c_string-ended}
use st5039cmd.Auth.Protocol.{AuthRequest, AuthResponse, IsRequest}
use st5039cmd.Auth.Request.{DemoCredential, IsCredential, process_request}
use st5039cmd.Auth.Request.Outcome.{process_request-success}
use st5039cmd.Auth.Transfer.{ReadAnswer, WriteAnswer, Turn}
use st5039cmd.Auth.Transfer.Reading.{Honest, arrived}
use st5039cmd.Auth.Session
use st5039cmd.Auth.Session.{PeerCredentials, verify_peer_credentials, serve_client}
use st5039cmd.Auth.Session.Laws.{request_from}
use st5039cmd.Auth.Frontend.Exchange
use st5039cmd.Auth.Frontend.Exchange.Exchanged.{IsFirstPart, HonestReads, brought}
use st5039cmd.Auth.Frontend.Input.{copy_string}
use st5039cmd.Auth.Frontend.Input.Accepts.{IsTyped}
use st5039cmd.Auth.Frontend.Main
use st5039cmd.Auth.Frontend.Main.{request_of, cleared_username, cleared_password, judge, main}
use st5039cmd.Auth.Frontend.Main.Answered.{
  Entered, entered_request, received_response, GrantsAccess, main-Succeeded,
}
use st5039cmd.Auth.Together.{IsResponse, IsCodec, take-whole}
use st5039cmd.Auth.Together.Sends.{
  Answers, peer_rejection, peer_rejection-IsResponse, peer_rejection-result,
  process_request-IsResponse, serve_client-HasSent,
}

typed-HasNoNul : (line : List ℕ) → All IsTyped line → HasNoNul line
typed-HasNoNul [] h = tt
typed-HasNoNul (c ∷ cs) h = (h.0.1, typed-HasNoNul cs h.1)

-- A line in an array of bytes, as the string that it holds.
pub c_string-copy_string :
    (line array : List ℕ) → All IsTyped line → c_string (copy_string line array) ≡ line
unfolding copy_string
c_string-copy_string line array h =
    c_string-ended line (drop (length line + 1) array) (typed-HasNoNul line h)

length-copy_string :
    (line array : List ℕ)
    → length line < length array
    → length (copy_string line array) ≡ length array
unfolding copy_string
length-copy_string line array h = omega (
  arith,
  length-append line (0 ∷ drop (length line + 1) array),
  length-drop (length line + 1) array,
)

pub entered_request-IsRequest : {a : Main.Answers} → (e : Entered a) → IsRequest (entered_request e)
entered_request-IsRequest e = record {
  username_size = length-copy_string e.name cleared_username (omega (arith, e.name_fits));
  password_size = length-copy_string e.word cleared_password (omega (arith, e.word_fits));
}

-- What the user entered is the account.
abbrev pub EntersAccount : {a : Main.Answers} → Entered a → DemoCredential → Type 0
EntersAccount e c = (e.name ≡ c_string c.username) × (e.word ≡ c_string c.password)

pub entered-granted :
    {a : Main.Answers}
    → (e : Entered a) (c : DemoCredential) → IsCredential c
    → ((process_request (entered_request e) c).result ≡ 0) ↔ EntersAccount e c
entered-granted e c hc =
    let (only_if, if_so) =
      process_request-success (entered_request e) c (entered_request-IsRequest e) hc in
    let name = c_string-copy_string e.name cleared_username e.name_typed.0 in
    let word = c_string-copy_string e.word cleared_password e.word_typed.0 in
    (
      λ h.
          let (version, type, username, password) = only_if h in
          (sym name ∙ username, sym word ∙ password),
      λ h. if_so (refl, refl, name ∙ h.0, word ∙ h.1),
    )

module _ (l : Session.Layout) (m : Exchange.Layout) (codec : IsCodec l m) where
  -- What a frontend that was sent a part of this response makes of it.
  pub response_whole :
      (a : Main.Answers) (sent : List ℕ) (r : AuthResponse)
      → IsResponse r
      → IsFirstPart sent (l.encode r)
      → IsFirstPart (brought a.exchange) sent
      → m.response_size ≤ length (brought a.exchange)
      → received_response m a ≡ r
  response_whole a sent r h (after, sent_part) (rest, part) enough =
      let whole =
        take-whole m.response_size (brought a.exchange) (l.encode r)
          (
            rest ++ after,
            sym (append_assoc (brought a.exchange) rest after)
                ∙ ap (λ s. s ++ after) part
                ∙ sent_part,
          )
          (codec.response_length r h) enough in
      ap m.decode whole ∙ codec.response_back r h

  pub request_whole :
      (r : AuthRequest) (reads : List (Turn ReadAnswer))
      → IsRequest r
      → r.version ≡ 1
      → r.type ≡ 1
      → IsFirstPart (arrived reads) (m.encode r)
      → l.request_size ≤ length (arrived reads)
      → request_from l reads ≡ r
  request_whole r reads h version type part enough =
      ap l.decode (
        take-whole l.request_size (arrived reads) (m.encode r) part (codec.request_length r h)
          enough)
      ∙ codec.request_back r h (omega (arith, version)) (omega (arith, type))

  module _ (a : Main.Answers) (peer : Option PeerCredentials) (uid gid : ℕ) (c : DemoCredential)
      (reads : List (Turn ReadAnswer)) (writes : List (Turn WriteAnswer)) where
    -- The two ends: what arrives is a first part of what the other side has sent.
    abbrev pub AreJoined : Type 0
    AreJoined =
        IsFirstPart (arrived reads) (main m a).sent
        × IsFirstPart (brought a.exchange) (serve_client l peer uid gid c reads writes).0.sent

    -- The response is the peer rejection or the answer to what the user entered.
    abbrev AnswersEntered : Entered a → AuthResponse → Type 0
    AnswersEntered e r =
        (r ≡ peer_rejection)
        ⊎ ((verify_peer_credentials peer uid gid ≡ true)
            × (r ≡ process_request (entered_request e) c))

    answers_entered :
        (e : Entered a)
        → IsFirstPart (arrived reads) (m.encode (entered_request e))
        → (r : AuthResponse) → Answers l peer uid gid c reads r
        → AnswersEntered e r
    answers_entered e part r (inl turned_away) = inl turned_away
    answers_entered e part r (inr (verified, enough, same)) =
        let read =
          request_whole (entered_request e) reads (entered_request-IsRequest e) refl refl part
            enough in
        inr (verified, same ∙ ap (λ x. process_request x c) read)

    entered-IsResponse : (e : Entered a) (r : AuthResponse) → AnswersEntered e r → IsResponse r
    entered-IsResponse e r (inl turned_away) =
        subst IsResponse (sym turned_away) peer_rejection-IsResponse
    entered-IsResponse e r (inr (verified, same)) =
        subst IsResponse (sym same)
          (process_request-IsResponse (entered_request e) c (entered_request-IsRequest e))

    answered_granted :
        IsCredential c
        → (e : Entered a) (r : AuthResponse) → AnswersEntered e r
        → r.result ≡ 0
        → (verify_peer_credentials peer uid gid ≡ true) × EntersAccount e c
    answered_granted hc e r (inl turned_away) ok =
        absurd (peer_rejection-result (sym (ap (λ x. x.result) turned_away) ∙ ok))
    answered_granted hc e r (inr (verified, same)) ok =
        (verified, (entered-granted e c hc).0 (sym (ap (λ x. x.result) same) ∙ ok))

    -- When the two programs are joined and the frontend exits with success, the backend verified its
    -- peer, and what the user entered is the account's name and password.
    pub main-Grants :
        IsCredential c
        → Honest l.request_size reads
        → HonestReads m.response_size a.exchange
        → AreJoined
        → (main m a).exit ≡ some true
        → (e : Entered a) × (verify_peer_credentials peer uid gid ≡ true) × EntersAccount e c
    main-Grants hc hl hm (to_backend, to_client) h =
        let (e, (sent, enough, accepts)) = main-Succeeded m a hm h in
        let part = subst (IsFirstPart (arrived reads)) sent to_backend in
        let served = (serve_client l peer uid gid c reads writes).0.sent in
        elim (serve_client-HasSent l c reads writes peer uid gid hl) [
          | inl nothing ↦
              let (rest, joined) = to_client in
              absurd (
                omega (
                  arith,
                  length-append (brought a.exchange) rest,
                  ap length (joined ∙ nothing),
                  enough,
                  codec.response_given,
                ))
          | inr (r, allowed, sent_part) ↦
              let answers = answers_entered e part r allowed in
              let received =
                response_whole a served r (entered-IsResponse e r answers) sent_part to_client
                  enough in
              let ok = (subst GrantsAccess received accepts).1 in
              let (verified, enters) = answered_granted hc e r answers ok in (e, verified, enters)
        ]
