-- ===== src/Auth/Request/Outcome.antt =====
-- What a response of the backend tells, for every request: from the verdict.
use st5039cmd.Base.{ℕ, ◌+◌, ◌≡◌, ◌≢◌, ◌↔◌, refl, List, length, none, arith}
use st5039cmd.Base.CString.{
  same_bytes_iff, c_string, memchr, length-print_zeroed, memchr-print_zeroed,
}
use st5039cmd.Auth.Protocol.{
  AuthResult, AuthErrorCode, AuthRequest, AuthResponse, result_code, IsRequest,
  auth_protocol_version, auth_response_message_max,
}
use st5039cmd.Auth.Request.{DemoCredential, IsCredential, set_response, process_request}
use st5039cmd.Auth.Request.Verdict.{
  Verdict, verdict, verdict_response, verdict_result, process_request-verdict,
}

verdict-granted :
    (r : AuthRequest) (c : DemoCredential)
    → IsCredential c
    → (verdict r c ≡ Verdict.granted) ↔ (
        (r.version ≡ 1)
        × (r.type ≡ 1)
        × (c_string r.username ≡ c_string c.username)
        × (c_string r.password ≡ c_string c.password))
unfolding verdict
verdict-granted r c h = ground (
  arith,
  same_bytes_iff (c_string r.username) (c_string c.username),
  same_bytes_iff (c_string r.password) (c_string c.password),
)

result-success : (v : Verdict) → ((verdict_response v).result ≡ 0) ↔ (v ≡ Verdict.granted)
unfolding verdict_response verdict_result set_response
result-success v = ground arith

-- The backend grants a request exactly when version and type are the supported ones and both strings
-- are the ones of the loaded account.
pub process_request-success :
    (r : AuthRequest) (c : DemoCredential)
    → IsRequest r
    → IsCredential c
    → ((process_request r c).result ≡ result_code AuthResult.success) ↔ (
        (r.version ≡ 1)
        × (r.type ≡ 1)
        × (c_string r.username ≡ c_string c.username)
        × (c_string r.password ≡ c_string c.password))
process_request-success r c hr hc =
    rw (process_request-verdict r c hr) ground
      (arith, result-success (verdict r c), verdict-granted r c hc)

result-invalid :
    (v : Verdict)
    → (verdict_response v).result ≡ 1
    → verdict_response v ≡ verdict_response Verdict.mismatch
unfolding verdict_response verdict_result set_response
result-invalid v h = ground arith

-- Whichever of the two strings is wrong, the client sees the same response, byte for byte.
pub process_request_uniform :
    (r s : AuthRequest) (c d : DemoCredential)
    → IsRequest r
    → IsRequest s
    → (process_request r c).result ≡ result_code AuthResult.invalid_credentials
    → (process_request s d).result ≡ result_code AuthResult.invalid_credentials
    → process_request r c ≡ process_request s d
process_request_uniform r s c d hr hs p q =
    let er = process_request-verdict r c hr in
    let es = process_request-verdict s d hs in
    ground (arith, er, es, result-invalid (verdict r c), result-invalid (verdict s d))

-- What the frontend checks of a response: the version, and a NUL among the message's bytes.
abbrev pub IsReadable : AuthResponse → Type 0
IsReadable r =
    (r.version ≡ auth_protocol_version)
    × (length r.message ≡ auth_response_message_max + 1)
    × (memchr 0 (auth_response_message_max + 1) r.message ≢ none)

set_response-IsReadable :
    (result : AuthResult) (e : AuthErrorCode) (text : List ℕ)
    → IsReadable (set_response result e text)
unfolding set_response
set_response-IsReadable result e text =
    (refl, length-print_zeroed 128 text, memchr-print_zeroed 128 text)

-- Every request, of whatever bytes, gets a response that the frontend can read.
pub process_request-IsReadable :
    (r : AuthRequest) (c : DemoCredential) → IsRequest r → IsReadable (process_request r c)
unfolding verdict_response
process_request-IsReadable r c h =
    rw (process_request-verdict r c h) (set_response-IsReadable _ _ _)
