-- ===== src/Auth/Together.antt =====
-- Authentication/Frontend.c and Authentication/Backend.c joined by a connection: what arrives at one
-- side is a first part of what the other has sent.
pub mod Sends
pub mod Grants
pub mod Finishes
pub mod Login
pub mod Layouts
pub mod Tests
use mathlib.Core.List.{append-nil}
use st5039cmd.Base.{
  ℕ, ◌+◌, ◌^◌, ◌≤◌, ◌<◌, ◌≡◌, refl, sym, ap, ◌∙◌, List, [], ◌∷◌, ◌++◌, length, take, take-short,
  length-append, arith,
}
use st5039cmd.Auth.Protocol.{AuthRequest, AuthResponse, IsRequest, auth_response_message_max}
use st5039cmd.Auth.Session
use st5039cmd.Auth.Frontend.Exchange
use st5039cmd.Auth.Frontend.Exchange.Exchanged.{IsFirstPart}

-- A response whose array and integers have their declared sizes.
pub record IsResponse (r : AuthResponse) : Type 0 where
  pub version_fits : r.version < 2 ^ 32
  pub result_fits : r.result < 2 ^ 32
  pub error_code_fits : r.error_code < 2 ^ 32
  pub message_size : length r.message ≡ auth_response_message_max + 1

-- Both programs are compiled with the same layout of the two structs.
pub record IsCodec (l : Session.Layout) (m : Exchange.Layout) : Type 0 where
  pub request_length : (r : AuthRequest) → IsRequest r → length (m.encode r) ≡ l.request_size
  pub request_back :
      (r : AuthRequest)
      → IsRequest r
      → r.version < 2 ^ 32
      → r.type < 2 ^ 32
      → l.decode (m.encode r) ≡ r
  pub response_length : (r : AuthResponse) → IsResponse r → length (l.encode r) ≡ m.response_size
  pub response_back : (r : AuthResponse) → IsResponse r → m.decode (l.encode r) ≡ r
  pub response_given : 0 < m.response_size

no_bytes : (xs : List ℕ) → length xs ≡ 0 → xs ≡ []
no_bytes [] h = refl
no_bytes (x ∷ xs) h = absurd (omega (arith, h))

-- A first part that is long enough is the whole.
pub take-whole :
    (n : ℕ) (part whole : List ℕ)
    → IsFirstPart part whole
    → length whole ≡ n
    → n ≤ length part
    → take n part ≡ whole
take-whole n part whole (rest, same) size enough =
    let parts = length-append part rest in
    let empty = no_bytes rest (omega (arith, parts, ap length same, size, enough)) in
    let all : part ≡ whole = sym (append-nil part) ∙ ap (λ r. part ++ r) (sym empty) ∙ same in
    take-short n part (omega (arith, ap length all, size)) ∙ all
