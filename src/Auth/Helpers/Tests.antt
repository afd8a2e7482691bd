-- ===== src/Auth/Helpers/Tests.antt =====
-- The helpers at small inputs.
use st5039cmd.Base.{ℕ, ◌≡◌, refl, true, false, List, [], ◌∷◌, ◌++◌, some}
use st5039cmd.Base.CString.{codes, c_string, same_bytes}
use st5039cmd.Base.Stdio.{file_lines, text_of}
use st5039cmd.Auth.Helpers.{log_proc_status_uid_lines, secure_clear}

abbrev status_lines : List (List ℕ)
status_lines = codes "Name: backend" ∷ codes "Uid: 1000 0 0 0" ∷ []

logs_the_uids :
    log_proc_status_uid_lines (some (record { bytes = text_of status_lines; fails = false })) true
    ≡ (true, (codes "Uid: 1000 0 0 0" ++ 10 ∷ []) ∷ [])
unfolding log_proc_status_uid_lines file_lines text_of c_string same_bytes
logs_the_uids = refl

clears_two : secure_clear (some (7 ∷ 8 ∷ 9 ∷ [])) 2 ≡ some (0 ∷ 0 ∷ 9 ∷ [])
unfolding secure_clear
clears_two = refl
