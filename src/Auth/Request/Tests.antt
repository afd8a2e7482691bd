-- ===== src/Auth/Request/Tests.antt =====
-- Runs of the request handling, and its theorems at concrete requests.
use st5039cmd.Base.{ℕ, ◌≡◌, ◌↔◌, refl, arith, List, take, true}
use st5039cmd.Auth.Compare.{secure_string_equal, secure_string_equal_iff}
use st5039cmd.Base.CString.{codes, print_zeroed, c_string, memchr}
use st5039cmd.Auth.Protocol.{AuthRequest, IsRequest}
use st5039cmd.Auth.Request.{DemoCredential, IsCredential, process_request}
use st5039cmd.Auth.Request.Verdict.{verdict, verdict_response, process_request-verdict}
use st5039cmd.Auth.Request.Outcome.{
  process_request-success, process_request_uniform, IsReadable, process_request-IsReadable,
}

abbrev pub demo_credential : DemoCredential
unfolding print_zeroed
demo_credential = record {
  username = print_zeroed 64 (codes "demo_user");
  password = print_zeroed 128 (codes "demo_password");
}

abbrev pub request_of : List ℕ → List ℕ → AuthRequest
unfolding print_zeroed
request_of user word = record {
  version = 1;
  type = 1;
  username = print_zeroed 64 user;
  password = print_zeroed 128 word;
}

abbrev good_request : AuthRequest
good_request = request_of (codes "demo_user") (codes "demo_password")

abbrev wrong_user : AuthRequest
wrong_user = request_of (codes "demo_uses") (codes "demo_password")

abbrev wrong_password : AuthRequest
wrong_password = request_of (codes "demo_user") (codes "demo_passwort")

good_request-IsRequest : IsRequest good_request
unfolding print_zeroed
good_request-IsRequest = record { username_size = refl; password_size = refl }

wrong_user-IsRequest : IsRequest wrong_user
unfolding print_zeroed
wrong_user-IsRequest = record { username_size = refl; password_size = refl }

wrong_password-IsRequest : IsRequest wrong_password
unfolding print_zeroed
wrong_password-IsRequest = record { username_size = refl; password_size = refl }

pub demo_credential-IsCredential : IsCredential demo_credential
unfolding print_zeroed c_string
demo_credential-IsCredential = record {
  username_size = refl;
  password_size = refl;
  username_given = omega arith;
  password_given = omega arith;
  username_ended = omega arith;
  password_ended = omega arith;
}

grants : (process_request good_request demo_credential).result ≡ 0
unfolding print_zeroed c_string memchr process_request
grants = refl

secure_string_equal_iff_example :
    (secure_string_equal wrong_user.username 9 demo_credential.username 9 64 ≡ true)
    ↔ (take 9 wrong_user.username ≡ take 9 demo_credential.username)
unfolding request_of
secure_string_equal_iff_example =
    secure_string_equal_iff wrong_user.username 9 demo_credential.username 9 64 (omega arith)
      (omega arith) (omega arith)

process_request-verdict_example :
    process_request wrong_user demo_credential
    ≡ verdict_response (verdict wrong_user demo_credential)
process_request-verdict_example =
    process_request-verdict wrong_user demo_credential wrong_user-IsRequest

process_request-success_example : ((process_request good_request demo_credential).result ≡ 0) ↔ (
    (good_request.version ≡ 1)
    × (good_request.type ≡ 1)
    × (c_string good_request.username ≡ c_string demo_credential.username)
    × (c_string good_request.password ≡ c_string demo_credential.password))
process_request-success_example =
    process_request-success good_request demo_credential good_request-IsRequest
      demo_credential-IsCredential

refusals_uniform :
    process_request wrong_user demo_credential ≡ process_request wrong_password demo_credential
unfolding print_zeroed c_string memchr process_request
refusals_uniform =
    process_request_uniform wrong_user wrong_password demo_credential demo_credential
      wrong_user-IsRequest wrong_password-IsRequest refl refl

answer-IsReadable : IsReadable (process_request wrong_user demo_credential)
answer-IsReadable = process_request-IsReadable wrong_user demo_credential wrong_user-IsRequest
