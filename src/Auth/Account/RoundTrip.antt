-- ===== src/Auth/Account/RoundTrip.antt =====
-- A credential file as its author writes it, and what the backend loads from it.
use st5039cmd.Base.{ℕ, ◌≤◌, ◌<◌, ◌≡◌, true, false, List, length, All, ◌==◌}
use st5039cmd.Base.CString.{print_zeroed}
use st5039cmd.Auth.Request.{DemoCredential}
use st5039cmd.Auth.Account.{is_ignored}

-- A byte that may stand in a line: no NUL, no line break.
abbrev pub IsPlain : ℕ → Type 0
IsPlain c = ((c == 0) ≡ false) × ((c == 10) ≡ false) × ((c == 13) ≡ false)

-- An empty line or a comment.
abbrev pub IsRemark : List ℕ → Type 0
IsRemark t = (length t < 195) × All IsPlain t × (is_ignored t ≡ true)

-- A byte of a user name or a password.
abbrev pub IsNameByte : ℕ → Type 0
IsNameByte c = IsPlain c × ((c == b':') ≡ false)

abbrev pub account_of : List ℕ → List ℕ → DemoCredential
account_of u p = record { username = print_zeroed 64 u; password = print_zeroed 128 p }

-- A user name or a password of up to `n` bytes.
abbrev pub IsName : ℕ → List ℕ → Type 0
IsName n t = (0 < length t) × (length t ≤ n) × All IsNameByte t
