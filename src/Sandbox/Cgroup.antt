-- ===== src/Sandbox/Cgroup.antt =====
-- Sandbox/security.c: the cgroup of the workload. `write_text_file`, `read_unsigned_file`,
-- `current_cgroup_directory` and the operations `sandbox_cgroup_…` over the answers of the kernel. A
-- number that is written stands for its decimal digits; logging leaves no trace.
pub mod Prepared
pub mod Tests
use st5039cmd.Base.{
  ℕ, ◌+◌, ◌-◌, ◌*◌, ◌/◌, ◌%◌, ◌^◌, Bool, true, false, not, ◌&&◌, ◌||◌, List, [], ◌∷◌, ◌++◌, Option,
  none, some, length, ltb, leb, ◌==◌, if◌then◌else◌,
}
use st5039cmd.Base.CString.{codes, c_string}
use st5039cmd.Base.Numbers.{Scan, scan_integer}
use st5039cmd.Base.Stdio.{File, Line, file_lines}
use st5039cmd.Sandbox.ProcFiles.Memory.{strip_label, to_ulong}

-- SANDBOX_CGROUP_PATH_CAPACITY.
abbrev pub sandbox_cgroup_path_capacity : ℕ
sandbox_cgroup_path_capacity = 4096

pub record SandboxCgroup : Type 0 where
  pub path : List ℕ
  pub active : Bool

abbrev pub no_cgroup : SandboxCgroup
no_cgroup = record { path = []; active = false }

-- `snprintf` of a path, which has to fit.
unfoldable pub fit_path : List ℕ → Option (List ℕ)
fit_path path = if leb sandbox_cgroup_path_capacity (length path) then none else some path

-- What comes of one file: it cannot be opened, or the answer of the first `write` that no signal
-- interrupts, and whether `close` returns 0. `missing` says whether the error is ENOENT.
pub data WriteAnswer : Type 0 where
  open_failed write_failed : (missing : Bool) → WriteAnswer
  write_short : WriteAnswer
  write_whole : (closes : Bool) → WriteAnswer

-- Returned 0, or -1 with or without ENOENT.
pub data Written : Type 0 where
  written : Written
  not_written : (missing : Bool) → Written

pub write_answer : WriteAnswer → Written
write_answer (open_failed missing) = not_written missing
write_answer (write_failed missing) = not_written missing
write_answer write_short = not_written false
write_answer (write_whole closes) = if closes then written else not_written false

pub write_to : WriteAnswer → Option (List ℕ) → Written
write_to answer none = not_written false
write_to answer (some path) = write_answer answer

unfoldable pub write_text_file : (directory name : List ℕ) → WriteAnswer → Written
unfolding write_answer write_to
write_text_file directory name answer = write_to answer (fit_path (directory ++ b'/' ∷ name))

pub is_written : Written → Bool
is_written written = true
is_written (not_written missing) = false

-- The text behind the number is its end or a newline.
pub ends_line : List ℕ → Bool
ends_line [] = true
ends_line (c ∷ cs) = c == 10

pub parse_unsigned_line : Bool → List Line → Option ℕ
parse_unsigned_line closes [] = none
parse_unsigned_line closes (l ∷ ls) =
    let s = scan_integer (c_string l.text) in
    if closes && s.converted && ltb s.magnitude (2 ^ 64) && ends_line s.rest
    then some (to_ulong s)
    else none

pub read_from_path : Option (List ℕ) → Option File → (closes : Bool) → Option ℕ
read_from_path none file closes = none
read_from_path (some path) none closes = none
read_from_path (some path) (some file) closes = parse_unsigned_line closes (file_lines 127 file)

-- `none` for the file is one that cannot be opened.
unfoldable pub read_unsigned_file :
    (directory name : List ℕ) → Option File → (closes : Bool) → Option ℕ
unfolding ends_line parse_unsigned_line read_from_path
read_unsigned_file directory name file closes =
    read_from_path (fit_path (directory ++ b'/' ∷ name)) file closes

-- The bytes in front of the first `\r` or `\n`.
pub before_line_end : List ℕ → List ℕ
before_line_end [] = []
before_line_end (c ∷ cs) =
    let rest = before_line_end cs in if c == 10 || c == 13 then [] else c ∷ rest

pub begins_with_slash : List ℕ → Bool
begins_with_slash [] = false
begins_with_slash (c ∷ cs) = c == b'/'

pub name_directory : List ℕ → Option (List ℕ)
name_directory path =
    if begins_with_slash path then fit_path (codes "/sys/fs/cgroup" ++ path) else none

-- The loop over the lines: the first that begins with `0::` decides.
pub find_directory : List Line → Option (List ℕ)
find_directory [] = none
find_directory (l ∷ ls) = elim (strip_label (codes "0::") (c_string l.text)) [
  | none ↦ find_directory ls
  | some path ↦ name_directory (before_line_end path)
]

pub lines_of : Option File → List Line
lines_of none = []
lines_of (some file) = file_lines (sandbox_cgroup_path_capacity - 1) file

unfoldable pub current_cgroup_directory : Option File → Option (List ℕ)
unfolding before_line_end begins_with_slash name_directory find_directory lines_of
current_cgroup_directory file = find_directory (lines_of file)

-- What is done on disk.
pub data CgroupAct : Type 0 where
  directory_made directory_removed : List ℕ → CgroupAct
  number_written : (directory name : List ℕ) → ℕ → CgroupAct

-- The answers during `sandbox_cgroup_prepare`; `pid_text` is what `getpid` prints as.
pub record PrepareAnswers : Type 0 where
  pub self_cgroup : Option File
  pub pid_text : List ℕ
  pub makes : Bool
  pub memory_max : WriteAnswer
  pub oom_group : WriteAnswer
  pub swap_max : WriteAnswer
  pub removes : Bool

-- What `write` leaves in the file at a path that fits; a short one leaves no number.
pub wrote_at :
    (directory name : List ℕ) → ℕ → WriteAnswer → (path : Option (List ℕ)) → List CgroupAct
wrote_at directory name value answer none = []
wrote_at directory name value (open_failed missing) (some path) = []
wrote_at directory name value (write_failed missing) (some path) = []
wrote_at directory name value write_short (some path) = []
wrote_at directory name value (write_whole closes) (some path) =
    number_written directory name value ∷ []

pub wrote : (directory name : List ℕ) → ℕ → WriteAnswer → List CgroupAct
wrote directory name value answer =
    wrote_at directory name value answer (fit_path (directory ++ b'/' ∷ name))

-- Behind the write to memory.max: what follows if it failed, and if it did not.
pub limit_behind : PrepareAnswers → List ℕ → ℕ → Bool → SandboxCgroup × List CgroupAct
limit_behind a path kilobytes false =
    (no_cgroup, if a.removes then directory_removed path ∷ [] else [])
limit_behind a path kilobytes true = (
  record { path = path; active = true },
  wrote path (codes "memory.oom.group") 1 a.oom_group
      ++ wrote path (codes "memory.swap.max") 0 a.swap_max,
)

-- Whether there is a limit.
pub fill_cgroup : PrepareAnswers → List ℕ → ℕ → Bool → SandboxCgroup × List CgroupAct
fill_cgroup a path kilobytes false = (record { path = path; active = true }, [])
fill_cgroup a path kilobytes true =
    let (cgroup, acts) =
      limit_behind a path kilobytes
        (is_written (write_text_file path (codes "memory.max") a.memory_max)) in
    (cgroup, wrote path (codes "memory.max") (kilobytes * 1024 % 2 ^ 64) a.memory_max ++ acts)

-- Whether the directory is made.
pub after_mkdir : PrepareAnswers → List ℕ → ℕ → Bool → SandboxCgroup × List CgroupAct
after_mkdir a path kilobytes false = (no_cgroup, [])
after_mkdir a path kilobytes true =
    let (cgroup, acts) = fill_cgroup a path kilobytes (ltb 0 kilobytes) in
    (cgroup, directory_made path ∷ acts)

pub make_cgroup : PrepareAnswers → ℕ → Option (List ℕ) → SandboxCgroup × List CgroupAct
make_cgroup a kilobytes none = (no_cgroup, [])
make_cgroup a kilobytes (some path) = after_mkdir a path kilobytes a.makes

pub place_cgroup : PrepareAnswers → ℕ → Option (List ℕ) → SandboxCgroup × List CgroupAct
place_cgroup a kilobytes none = (no_cgroup, [])
place_cgroup a kilobytes (some parent) =
    make_cgroup a kilobytes (fit_path (parent ++ (codes "/st5039cmd-" ++ a.pid_text)))

-- The return value is the field `active`.
unfoldable pub sandbox_cgroup_prepare :
    PrepareAnswers → (memory_limit_kilobytes : ℕ) → SandboxCgroup × List CgroupAct
unfolding is_written wrote_at wrote limit_behind fill_cgroup after_mkdir make_cgroup place_cgroup
sandbox_cgroup_prepare a memory_limit_kilobytes =
    place_cgroup a memory_limit_kilobytes (current_cgroup_directory a.self_cgroup)

-- 0, unless the write of the pid fails.
unfoldable pub sandbox_cgroup_attach : SandboxCgroup → WriteAnswer → Bool
unfolding is_written
sandbox_cgroup_attach cgroup answer =
    not cgroup.active || is_written (write_text_file cgroup.path (codes "cgroup.procs") answer)

unfoldable pub sandbox_cgroup_kill : SandboxCgroup → WriteAnswer → Bool
unfolding is_written
sandbox_cgroup_kill cgroup answer =
    not cgroup.active || is_written (write_text_file cgroup.path (codes "cgroup.kill") answer)

pub in_kilobytes : Option ℕ → Option ℕ
in_kilobytes none = none
in_kilobytes (some bytes) = some (bytes / 1024)

unfoldable pub sandbox_cgroup_read_memory_kilobytes :
    SandboxCgroup → Option File → (closes : Bool) → Option ℕ
unfolding in_kilobytes
sandbox_cgroup_read_memory_kilobytes cgroup file closes =
    if cgroup.active
    then in_kilobytes (read_unsigned_file cgroup.path (codes "memory.current") file closes)
    else none

-- The loop over the lines of cgroup.events; `none` is -1.
pub scan_populated : Option (List ℕ) → Option Bool
scan_populated none = none
scan_populated (some rest) =
    let s = scan_integer rest in if s.converted then some (not (s.magnitude == 0)) else none

pub find_populated : List Line → Option Bool
find_populated [] = none
find_populated (l ∷ ls) =
    elim (scan_populated (strip_label (codes "populated") (c_string l.text))) [
      | none ↦ find_populated ls
      | some p ↦ some p
    ]

pub populated_at : Option (List ℕ) → Option File → Option Bool
populated_at none file = none
populated_at (some path) none = none
populated_at (some path) (some file) = find_populated (file_lines 127 file)

unfoldable pub sandbox_cgroup_is_populated : SandboxCgroup → Option File → Option Bool
unfolding scan_populated find_populated populated_at
sandbox_cgroup_is_populated cgroup file =
    if cgroup.active
    then populated_at (fit_path (cgroup.path ++ codes "/cgroup.events")) file
    else some false

-- Whether 0 is returned, and the cgroup behind it.
unfoldable pub sandbox_cgroup_destroy : SandboxCgroup → (removes : Bool) → SandboxCgroup × Bool
sandbox_cgroup_destroy cgroup removes =
    if not cgroup.active
    then (cgroup, true)
    else if removes
    then (no_cgroup, true)
    else (cgroup, false)
