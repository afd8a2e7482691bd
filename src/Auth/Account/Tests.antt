-- ===== src/Auth/Account/Tests.antt =====
-- A credential file with a comment, and the theorems at it.
use st5039cmd.Base.{ℕ, ◌≡◌, refl, true, false, List, [], ◌∷◌, ◌++◌, some}
use st5039cmd.Base.CString.{codes, c_string}
use st5039cmd.Base.Stdio.{File, text_of, file_lines}
use st5039cmd.Auth.Request.{IsCredential}
use st5039cmd.Auth.Account.{load_demo_credential}
use st5039cmd.Auth.Account.Loading.{load_demo_credential-IsCredential}
use st5039cmd.Auth.Account.RoundTrip.{account_of}

abbrev comments : List (List ℕ)
comments = codes "# demo" ∷ [] ∷ []

abbrev name : List ℕ
name = codes "ab"

abbrev word : List ℕ
word = codes "x y"

abbrev demo_file : File
demo_file = record { bytes = text_of (comments ++ (name ++ b':' ∷ word) ∷ []); fails = false }

loads : load_demo_credential (some demo_file) true ≡ some (account_of name word)
unfolding load_demo_credential file_lines text_of c_string
loads = refl

load_demo_credential-IsCredential_example : IsCredential (account_of name word)
load_demo_credential-IsCredential_example =
    load_demo_credential-IsCredential (some demo_file) true (account_of name word) loads
