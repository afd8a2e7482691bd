-- ===== src/Auth/Account.antt =====
-- Authentication/Backend.c: `load_demo_credential`. The file is the bytes that `fgets` finds; a file
-- that cannot be opened is `none`. Clearing buffers leaves no trace; `none` as a result is -1.
pub mod Loading
pub mod RoundTrip
pub mod Path
pub mod Tests
use st5039cmd.Base.{
  ℕ, ◌+◌, ◌-◌, Bool, true, false, not, ◌&&◌, ◌||◌, List, [], ◌∷◌, Option, none, some, length, ltb,
  ◌==◌, if◌then◌else◌,
}
use st5039cmd.Base.CString.{c_string, print_zeroed}
use st5039cmd.Base.Stdio.{File, Line, file_lines}
use st5039cmd.Auth.Protocol.{auth_username_max, auth_password_max}
use st5039cmd.Auth.Request.{DemoCredential}

-- CREDENTIAL_LINE_MAX.
abbrev pub credential_line_max : ℕ
credential_line_max = auth_username_max + auth_password_max + 4

abbrev pub is_break : ℕ → Bool
is_break c = c == 10 || c == 13

-- `strcspn(line, "\r\n")`: the bytes in front of the first break, and whether there is one.
pub before_break : List ℕ → List ℕ
before_break [] = []
before_break (c ∷ cs) = if is_break c then [] else c ∷ before_break cs

pub has_break : List ℕ → Bool
has_break [] = false
has_break (c ∷ cs) = is_break c || has_break cs

-- `line[0] == '\0' || line[0] == '#'`.
pub is_ignored : List ℕ → Bool
is_ignored [] = true
is_ignored (c ∷ cs) = c == b'#'

pub has_colon : List ℕ → Bool
has_colon [] = false
has_colon (c ∷ cs) = c == b':' || has_colon cs

-- `strchr(line, ':')`: what stands in front of the first colon and behind it.
pub split_colon : List ℕ → Option (List ℕ × List ℕ)
split_colon [] = none
split_colon (c ∷ cs) =
    let rest = split_colon cs in
    if c == b':'
    then some ([], cs)
    else elim rest [ none ↦ none | some (before, behind) ↦ some (c ∷ before, behind) ]

pub accept_account : Option (List ℕ × List ℕ) → Option DemoCredential
accept_account none = none
accept_account (some (username, password)) =
    if has_colon password
    then none
    else if length username == 0
        || ltb auth_username_max (length username)
        || length password == 0
        || ltb auth_password_max (length password)
    then none
    else some (record {
      username = print_zeroed auth_username_max username;
      password = print_zeroed auth_password_max password;
    })

pub parse_account : List ℕ → Option DemoCredential
parse_account line = accept_account (split_colon line)

-- `line[line_length] == '\0' && !feof(file)`.
pub is_too_long : Line → Bool
is_too_long l = not (has_break (c_string l.text)) && not l.at_end

-- The loop, over the account found so far; `none` leaves it by `goto cleanup`.
pub load_lines : List Line → Option DemoCredential → Option (Option DemoCredential)
load_lines [] found = some found
load_lines (l ∷ ls) found =
    let line = before_break (c_string l.text) in
    elim (is_too_long l) [
      | true ↦ none
      | false ↦ elim (is_ignored line) [
        | true ↦ load_lines ls found
        | false ↦ elim found [
          | some _ ↦ none
          | none ↦ elim (parse_account line) [
            | none ↦ none
            | some account ↦ load_lines ls (some account)
          ]
        ]
      ]
    ]

pub finish_loading : (failed closes : Bool) → Option (Option DemoCredential) → Option DemoCredential
finish_loading failed closes none = none
finish_loading failed closes (some found) = if failed || not closes then none else found

unfoldable pub load_demo_credential : Option File → (closes : Bool) → Option DemoCredential
unfolding before_break has_break is_ignored has_colon split_colon accept_account parse_account
    is_too_long load_lines finish_loading
load_demo_credential none closes = none
load_demo_credential (some file) closes =
    finish_loading file.fails closes (load_lines (file_lines (credential_line_max - 1) file) none)
