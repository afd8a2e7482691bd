-- ===== src/Auth/Request.antt =====
-- Authentication/Backend.c: `set_response`, `validate_request_string`, `process_request`. What the
-- code logs is left out; each out-parameter is a result.
pub mod Verdict
pub mod Outcome
pub mod Tests
use Prim.Native.String.{String}
use st5039cmd.Base.{
  ℕ, ◌+◌, ◌≡◌, ◌≤◌, ◌<◌, List, ◌++◌, none, some, length, take, ltb, ◌==◌, if◌then◌else◌, not,
}
use st5039cmd.Base.CString.{codes, memchr, strlen, print_zeroed}
use st5039cmd.Auth.Protocol.{
  AuthResult, AuthErrorCode, AuthRequest, AuthResponse, result_code, error_number,
  auth_protocol_version, auth_username_max, auth_password_max, auth_response_message_max,
  auth_request_validate,
}
use st5039cmd.Auth.Compare.{secure_string_equal}

-- `DemoCredential`: two NUL-terminated buffers.
pub record DemoCredential : Type 0 where
  pub username : List ℕ
  pub password : List ℕ

-- What loading a credential file establishes.
pub record IsCredential (c : DemoCredential) : Type 0 where
  pub username_size : length c.username ≡ auth_username_max + 1
  pub password_size : length c.password ≡ auth_password_max + 1
  pub username_given : 0 < strlen c.username
  pub password_given : 0 < strlen c.password
  pub username_ended : strlen c.username ≤ auth_username_max
  pub password_ended : strlen c.password ≤ auth_password_max

unfoldable pub set_response : AuthResult → AuthErrorCode → List ℕ → AuthResponse
set_response result error_code message = record {
  version = auth_protocol_version;
  result = result_code result;
  error_code = error_number error_code;
  message = print_zeroed auth_response_message_max message;
}

pub data Validated : Type 0 where
  refused : AuthResponse → Validated
  accepted : ℕ → Validated

-- The local `message` buffer of 129 bytes, as the string that it holds.
abbrev field_message : String → String → List ℕ
field_message field_name text = take auth_response_message_max (codes field_name ++ codes text)

pub validate_request_string :
    (value : List ℕ) (capacity maximum_length : ℕ) (field_name : String)
    → AuthErrorCode
    → AuthErrorCode
    → Validated
validate_request_string value capacity maximum_length field_name empty_error oversized_error =
    elim (memchr 0 capacity value) [
      | none ↦ refused (
          set_response AuthResult.rejected oversized_error
            (field_message field_name " is oversized or not null-terminated"))
      | some value_length ↦
          if value_length == 0
          then refused (
              set_response AuthResult.rejected empty_error
                (field_message field_name " must not be empty"))
          else if ltb maximum_length value_length
          then refused (
              set_response AuthResult.rejected oversized_error
                (field_message field_name " exceeds maximum length"))
          else accepted value_length
    ]

-- The part of `process_request` behind the validation.
compare_credentials : AuthRequest → DemoCredential → ℕ → ℕ → AuthResponse
compare_credentials request credential username_length password_length =
    let username_matches =
      secure_string_equal request.username username_length credential.username
        (strlen credential.username) auth_username_max in
    let password_matches =
      secure_string_equal request.password password_length credential.password
        (strlen credential.password) auth_password_max in
    if not username_matches
    then set_response AuthResult.invalid_credentials AuthErrorCode.no_error
        (codes "invalid username or password")
    else if not password_matches
    then set_response AuthResult.invalid_credentials AuthErrorCode.no_error
        (codes "invalid username or password")
    else set_response AuthResult.success AuthErrorCode.no_error (codes "authentication successful")

check_password : AuthRequest → DemoCredential → ℕ → Validated → AuthResponse
check_password request credential username_length (refused response) = response
check_password request credential username_length (accepted password_length) =
    compare_credentials request credential username_length password_length

check_username : AuthRequest → DemoCredential → Validated → AuthResponse
check_username request credential (refused response) = response
check_username request credential (accepted username_length) =
    check_password request credential username_length (
      validate_request_string request.password (auth_password_max + 1) auth_password_max "password"
        AuthErrorCode.password_required AuthErrorCode.password_too_long)

unfoldable pub process_request : AuthRequest → DemoCredential → AuthResponse
unfolding validate_request_string check_username check_password compare_credentials
    secure_string_equal set_response
process_request request credential =
    if not (request.version == auth_protocol_version)
    then set_response AuthResult.rejected AuthErrorCode.unsupported_version
        (codes "unsupported protocol version")
    else if not (request.type == auth_request_validate)
    then set_response AuthResult.rejected AuthErrorCode.bad_request
        (codes "unsupported authentication request type")
    else check_username request credential (
        validate_request_string request.username (auth_username_max + 1) auth_username_max
          "username" AuthErrorCode.username_required AuthErrorCode.username_too_long)
