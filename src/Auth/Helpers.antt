-- ===== src/Auth/Helpers.antt =====
-- Authentication/Backend.c: `install_signal_handlers` and `log_proc_status_uid_lines`;
-- Authentication/Frontend.c: `install_frontend_signal_handlers`; Authentication/secure_memory.c:
-- `secure_clear` where the C library has no `explicit_bzero`.
pub mod Laws
pub mod Tests
use st5039cmd.Base.{
  ℕ, zero, suc, Bool, true, false, not, ◌&&◌, List, [], ◌∷◌, Option, none, some, length, take, ◌==◌,
  if◌then◌else◌,
}
use st5039cmd.Base.CString.{codes, c_string, same_bytes}
use st5039cmd.Base.Signals.{
  Signal, sigint, sigterm, sigpipe, Setting, handled, ignored, set_in_order,
}
use st5039cmd.Base.Stdio.{File, Line, file_lines}

-- The three calls of both programs.
abbrev pub auth_settings : List Setting
auth_settings = handled sigint ∷ handled sigterm ∷ ignored sigpipe ∷ []

unfoldable pub install_signal_handlers : (sigaction : Signal → Bool) → Bool × List Setting
unfolding set_in_order
install_signal_handlers sigaction = set_in_order sigaction auth_settings

unfoldable pub install_frontend_signal_handlers : (sigaction : Signal → Bool) → Bool × List Setting
unfolding set_in_order
install_frontend_signal_handlers sigaction = set_in_order sigaction auth_settings

-- PROC_STATUS_LINE_MAX.
abbrev pub proc_status_line_max : ℕ
proc_status_line_max = 256

-- `strncmp(line, "Uid:", 4u) == 0`.
abbrev pub is_uid_line : List ℕ → Bool
is_uid_line line = same_bytes (take 4 (c_string line)) (codes "Uid:")

-- What is logged of the lines.
pub uid_lines : List Line → List (List ℕ)
uid_lines [] = []
uid_lines (l ∷ ls) =
    let rest = uid_lines ls in if is_uid_line l.text then c_string l.text ∷ rest else rest

-- Whether the call returned 0, and the lines that it has logged; `none` is a file that cannot be opened.
unfoldable pub log_proc_status_uid_lines : Option File → (closes : Bool) → Bool × List (List ℕ)
unfolding uid_lines
log_proc_status_uid_lines none closes = (false, [])
log_proc_status_uid_lines (some file) closes =
    let found = uid_lines (file_lines 255 file) in
    (not file.fails && closes && not (length found == 0), found)

-- The loop: `cursor` stands on the first byte of the list.
unfoldable pub clear_from : List ℕ → ℕ → List ℕ
clear_from bytes zero = bytes
clear_from [] (suc length) = []
clear_from (b ∷ bytes) (suc length) = 0 ∷ clear_from bytes length

-- `none` is a null pointer.
unfoldable pub secure_clear : Option (List ℕ) → ℕ → Option (List ℕ)
unfolding clear_from
secure_clear none length = none
secure_clear (some buffer) length =
    if length == 0 then some buffer else some (clear_from buffer length)
