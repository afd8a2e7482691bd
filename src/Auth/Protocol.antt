-- ===== src/Auth/Protocol.antt =====
-- Authentication/auth_protocol.h: limits, enumerations and the two messages. A `char[n]` is a list
-- of n bytes; a `uint32_t` is a number, of which the code only copies and compares values.
use st5039cmd.Base.{ℕ, ◌+◌, ◌≡◌, List, length}

abbrev pub auth_protocol_version : ℕ
auth_protocol_version = 1

abbrev pub auth_username_max : ℕ
auth_username_max = 64

abbrev pub auth_password_max : ℕ
auth_password_max = 128

abbrev pub auth_response_message_max : ℕ
auth_response_message_max = 128

abbrev pub auth_request_validate : ℕ
auth_request_validate = 1

pub data AuthResult : Type 0 where
  success invalid_credentials rejected error : AuthResult

abbrev pub result_code : AuthResult → ℕ
result_code AuthResult.success = 0
result_code AuthResult.invalid_credentials = 1
result_code AuthResult.rejected = 2
result_code AuthResult.error = 3

pub data AuthErrorCode : Type 0 where
  no_error bad_request unsupported_version username_required username_too_long : AuthErrorCode
  password_required password_too_long ipc_failure privilege_drop_failed internal : AuthErrorCode

abbrev pub error_number : AuthErrorCode → ℕ
error_number AuthErrorCode.no_error = 0
error_number AuthErrorCode.bad_request = 1
error_number AuthErrorCode.unsupported_version = 2
error_number AuthErrorCode.username_required = 3
error_number AuthErrorCode.username_too_long = 4
error_number AuthErrorCode.password_required = 5
error_number AuthErrorCode.password_too_long = 6
error_number AuthErrorCode.ipc_failure = 7
error_number AuthErrorCode.privilege_drop_failed = 8
error_number AuthErrorCode.internal = 9

pub record AuthRequest : Type 0 where
  pub version : ℕ
  pub type : ℕ
  pub username : List ℕ
  pub password : List ℕ

pub record AuthResponse : Type 0 where
  pub version : ℕ
  pub result : ℕ
  pub error_code : ℕ
  pub message : List ℕ

-- The sizes that the C types fix.
pub record IsRequest (r : AuthRequest) : Type 0 where
  pub username_size : length r.username ≡ auth_username_max + 1
  pub password_size : length r.password ≡ auth_password_max + 1
