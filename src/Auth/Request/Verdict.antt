-- ===== src/Auth/Request/Verdict.antt =====
-- The verdict on a request, decided from the strings alone, and `process_request` against it.
use Prim.Native.String.{String}
use st5039cmd.Base.{
  ℕ, ◌+◌, ◌≡◌, ◌≤◌, refl, List, ◌++◌, ◌&&◌, length, take, ltb, ◌==◌, if◌then◌else◌, not, arith,
}
use st5039cmd.Base.CString.{
  same_bytes, same_bytes_iff, codes, strlen, c_string, memchr-c_string, take-strlen, strlen-le,
}
use st5039cmd.Auth.Protocol.{AuthResult, AuthErrorCode, AuthRequest, AuthResponse, IsRequest}
use st5039cmd.Auth.Compare.{secure_string_equal, secure_string_equal_iff}
use st5039cmd.Auth.Request.{
  DemoCredential, set_response, refused, accepted, validate_request_string, process_request,
  compare_credentials, check_username, check_password,
}

-- The verdict names the result and the error code of the response.
pub data Verdict : Type 0 where
  bad_version bad_type : Verdict
  no_username long_username no_password long_password : Verdict
  mismatch granted : Verdict

unfoldable pub verdict_result : Verdict → AuthResult
verdict_result Verdict.mismatch = AuthResult.invalid_credentials
verdict_result Verdict.granted = AuthResult.success
verdict_result _ = AuthResult.rejected

unfoldable pub verdict_error : Verdict → AuthErrorCode
verdict_error Verdict.bad_version = AuthErrorCode.unsupported_version
verdict_error Verdict.bad_type = AuthErrorCode.bad_request
verdict_error Verdict.no_username = AuthErrorCode.username_required
verdict_error Verdict.long_username = AuthErrorCode.username_too_long
verdict_error Verdict.no_password = AuthErrorCode.password_required
verdict_error Verdict.long_password = AuthErrorCode.password_too_long
verdict_error _ = AuthErrorCode.no_error

-- The verdict once the username has been accepted.
judge_password : AuthRequest → DemoCredential → Verdict
judge_password r c =
    if strlen r.password == 0
    then Verdict.no_password
    else if ltb 128 (strlen r.password)
    then Verdict.long_password
    else if same_bytes (c_string r.username) (c_string c.username)
        && same_bytes (c_string r.password) (c_string c.password)
    then Verdict.granted
    else Verdict.mismatch

unfoldable pub verdict : AuthRequest → DemoCredential → Verdict
unfolding judge_password
verdict r c =
    if not (r.version == 1)
    then Verdict.bad_version
    else if not (r.type == 1)
    then Verdict.bad_type
    else if strlen r.username == 0
    then Verdict.no_username
    else if ltb 64 (strlen r.username)
    then Verdict.long_username
    else judge_password r c

equal-same_bytes :
    (a b : List ℕ) (bound : ℕ)
    → strlen a ≤ bound
    → secure_string_equal a (strlen a) b (strlen b) bound ≡ same_bytes (c_string a) (c_string b)
equal-same_bytes a b bound h = ground (
  arith,
  secure_string_equal_iff a (strlen a) b (strlen b) bound (strlen-le a) (strlen-le b) h,
  same_bytes_iff (c_string a) (c_string b),
  take-strlen a,
  take-strlen b,
)

-- The oversized branch behind the search for the NUL is never taken.
validate_request_string_lem :
    (value : List ℕ) (bound : ℕ) (name : String) (empty_error oversized_error : AuthErrorCode)
    → length value ≡ bound + 1
    → validate_request_string value (bound + 1) bound name empty_error oversized_error ≡ (
        if strlen value == 0
        then refused (
            set_response AuthResult.rejected empty_error
              (take 128 (codes name ++ codes " must not be empty")))
        else if ltb bound (strlen value)
        then refused (
            set_response AuthResult.rejected oversized_error
              (take 128 (codes name ++ codes " is oversized or not null-terminated")))
        else accepted (strlen value))
unfolding validate_request_string
validate_request_string_lem value bound name empty_error oversized_error h =
    rw (memchr-c_string (bound + 1) value (omega arith), validate_request_string) (ground arith)

compare_credentials-verdict :
    (r : AuthRequest) (c : DemoCredential)
    → strlen r.username ≤ 64
    → strlen r.password ≤ 128
    → compare_credentials r c (strlen r.username) (strlen r.password) ≡ (
        if same_bytes (c_string r.username) (c_string c.username)
          && same_bytes (c_string r.password) (c_string c.password)
        then set_response AuthResult.success AuthErrorCode.no_error
            (codes "authentication successful")
        else set_response AuthResult.invalid_credentials AuthErrorCode.no_error
            (codes "invalid username or password"))
unfolding compare_credentials
compare_credentials-verdict r c p q =
    rw (equal-same_bytes r.username c.username 64 p, equal-same_bytes r.password c.password 128 q)
      (ground arith)

-- The response that goes with each verdict.
unfoldable pub verdict_message : Verdict → List ℕ
verdict_message Verdict.bad_version = codes "unsupported protocol version"
verdict_message Verdict.bad_type = codes "unsupported authentication request type"
verdict_message Verdict.no_username = codes "username must not be empty"
verdict_message Verdict.long_username = codes "username is oversized or not null-terminated"
verdict_message Verdict.no_password = codes "password must not be empty"
verdict_message Verdict.long_password = codes "password is oversized or not null-terminated"
verdict_message Verdict.mismatch = codes "invalid username or password"
verdict_message Verdict.granted = codes "authentication successful"

unfoldable pub verdict_response : Verdict → AuthResponse
verdict_response v = set_response (verdict_result v) (verdict_error v) (verdict_message v)

check_password-verdict :
    (r : AuthRequest) (c : DemoCredential)
    → IsRequest r
    → strlen r.username ≤ 64
    → check_password r c (strlen r.username) (
        validate_request_string r.password
          (128 + 1)
          128
          "password"
          AuthErrorCode.password_required
          AuthErrorCode.password_too_long)
      ≡ verdict_response (judge_password r c)
unfolding check_password judge_password verdict_response verdict_result verdict_error
    verdict_message
check_password-verdict r c h p =
    rw
      (
        validate_request_string_lem r.password 128 "password" AuthErrorCode.password_required
            AuthErrorCode.password_too_long h.password_size,
        check_password,
      )
      (ground (arith, compare_credentials-verdict r c p))

early_responses :
    (verdict_response Verdict.bad_version
      ≡ set_response AuthResult.rejected AuthErrorCode.unsupported_version
          (codes "unsupported protocol version"))
    × (verdict_response Verdict.bad_type
        ≡ set_response AuthResult.rejected AuthErrorCode.bad_request
            (codes "unsupported authentication request type"))
    × (verdict_response Verdict.no_username
        ≡ set_response AuthResult.rejected AuthErrorCode.username_required
            (codes "username must not be empty"))
    × (verdict_response Verdict.long_username
        ≡ set_response AuthResult.rejected AuthErrorCode.username_too_long
            (codes "username is oversized or not null-terminated"))
unfolding verdict_response verdict_result verdict_error verdict_message
early_responses = (refl, refl, refl, refl)

check_username-verdict :
    (r : AuthRequest) (c : DemoCredential)
    → IsRequest r
    → check_username r c (
        validate_request_string r.username
          (64 + 1)
          64
          "username"
          AuthErrorCode.username_required
          AuthErrorCode.username_too_long)
      ≡ verdict_response (
          if strlen r.username == 0
          then Verdict.no_username
          else if ltb 64 (strlen r.username)
          then Verdict.long_username
          else judge_password r c)
unfolding check_username
check_username-verdict r c h =
    rw
      (
        validate_request_string_lem r.username 64 "username" AuthErrorCode.username_required
            AuthErrorCode.username_too_long h.username_size,
        check_username,
      )
      (ground (arith, check_password-verdict r c h, early_responses))

-- For a request of the sizes that the C types fix, the response is the one of the verdict, which is
-- decided from the NUL-terminated strings alone.
pub process_request-verdict :
    (r : AuthRequest) (c : DemoCredential)
    → IsRequest r
    → process_request r c ≡ verdict_response (verdict r c)
unfolding process_request verdict
process_request-verdict r c h = ground (arith, check_username-verdict r c h, early_responses)
