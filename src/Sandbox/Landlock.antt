-- ===== src/Sandbox/Landlock.antt =====
-- Sandbox/security.c: `resolve_target_directory`, `add_landlock_path_rule` and
-- `sandbox_child_restrict_filesystem`. The access rights of the kernel header are the argument
-- `Rights`, with the zeros that the source defines for missing ones; the calls are answers.
pub mod Rules
pub mod Tests
use st5039cmd.Base.{
  ℕ, bit_or, Bool, true, false, not, ◌&&◌, ◌||◌, List, [], ◌∷◌, Option, none, some, length, ltb,
  leb, if◌then◌else◌,
}
use st5039cmd.Base.CString.{codes, before_last_slash}

-- LANDLOCK_ACCESS_FS_….
pub record Rights : Type 0 where
  pub execute : ℕ
  pub write_file : ℕ
  pub read_file : ℕ
  pub read_dir : ℕ
  -- The disjunction of the nine rights to remove and to make entries.
  pub change_entries : ℕ
  pub refer : ℕ
  pub truncate : ℕ

pub check_capacity : ℕ → List ℕ → Option (List ℕ)
check_capacity capacity directory = if leb capacity (length directory) then none else some directory

-- The directory in front of the last slash; that of a name below the root is the root.
pub cut_directory : ℕ → Option (List ℕ) → Option (List ℕ)
cut_directory capacity none = none
cut_directory capacity (some []) = check_capacity capacity (codes "/")
cut_directory capacity (some (c ∷ cs)) = check_capacity capacity (c ∷ cs)

unfoldable pub resolve_target_directory :
    (capacity : ℕ) → (realpath : Option (List ℕ)) → Option (List ℕ)
unfolding check_capacity cut_directory before_last_slash
resolve_target_directory capacity none = none
resolve_target_directory capacity (some resolved) =
    cut_directory capacity (before_last_slash resolved)

unfoldable pub handled_access : Rights → (abi : ℕ) → ℕ
handled_access r abi =
    let first =
      bit_or r.execute
        (bit_or r.write_file (bit_or r.read_file (bit_or r.read_dir r.change_entries))) in
    let second = if leb 2 abi then bit_or first r.refer else first in
    if leb 3 abi then bit_or second r.truncate else second

-- One call of `add_landlock_path_rule`.
pub record Rule : Type 0 where
  pub path : List ℕ
  pub allowed_access : ℕ
  pub required : Bool

abbrev pub runtime_directory_access : Rights → ℕ
runtime_directory_access r = bit_or r.execute (bit_or r.read_file r.read_dir)

abbrev pub runtime_file_access : Rights → ℕ
runtime_file_access r = bit_or r.execute r.read_file

-- The rules of the source, in order.
abbrev pub landlock_rules : Rights → (target_path target_directory : List ℕ) → List Rule
landlock_rules r target_path target_directory =
    record { path = target_path; allowed_access = runtime_file_access r; required = true }
    ∷ record {
      path = target_directory;
      allowed_access = runtime_directory_access r;
      required = true;
    }
    ∷ record { path = codes "/usr"; allowed_access = runtime_directory_access r; required = true }
    ∷ record { path = codes "/lib"; allowed_access = runtime_directory_access r; required = false }
    ∷ record {
      path = codes "/lib64";
      allowed_access = runtime_directory_access r;
      required = false;
    }
    ∷ record { path = codes "/etc/ld.so.cache"; allowed_access = r.read_file; required = false }
    ∷ record { path = codes "/etc/ld.so.preload"; allowed_access = r.read_file; required = false }
    ∷ record {
      path = codes "/dev/null";
      allowed_access = bit_or r.read_file r.write_file;
      required = false;
    }
    ∷ record { path = codes "/dev/urandom"; allowed_access = r.read_file; required = false }
    ∷ record { path = codes "/dev/random"; allowed_access = r.read_file; required = false }
    ∷ []

-- `abi` is what the version query returns, 0 for an error; `creates` whether there is a ruleset;
-- `opens` and `adds` answer for a path.
pub record LandlockAnswers : Type 0 where
  pub realpath : Option (List ℕ)
  pub abi : ℕ
  pub creates : Bool
  pub opens : List ℕ → Bool
  pub adds : List ℕ → Bool
  pub no_new_privileges : Bool
  pub restricts : Bool
  pub closes : Bool

-- What is enforced: the rights the ruleset handles, and the rules that were added.
pub record Enforced : Type 0 where
  pub handled_access_fs : ℕ
  pub rules : List Rule

pub prepend_rule : Rule → Option (List Rule) → Option (List Rule)
prepend_rule rule none = none
prepend_rule rule (some rules) = some (rule ∷ rules)

-- The disjunction of the calls: the first that does not return 0 ends it.
pub add_rules : LandlockAnswers → List Rule → Option (List Rule)
add_rules a [] = some []
add_rules a (rule ∷ rules) =
    let rest = add_rules a rules in
    if not (a.opens rule.path)
    then if rule.required then none else rest
    else if a.adds rule.path
    then prepend_rule rule rest
    else none

pub enforce_rules : LandlockAnswers → ℕ → Option (List Rule) → Option Enforced
enforce_rules a handled none = none
enforce_rules a handled (some rules) =
    if a.no_new_privileges && a.restricts && a.closes
    then some (record { handled_access_fs = handled; rules = rules })
    else none

pub restrict_below :
    Rights → LandlockAnswers → (target_path : List ℕ) → Option (List ℕ) → Option Enforced
restrict_below r a target_path none = none
restrict_below r a target_path (some target_directory) =
    if ltb a.abi 1 || not a.creates
    then none
    else enforce_rules a (handled_access r a.abi)
        (add_rules a (landlock_rules r target_path target_directory))

-- Whether 0 is returned, and then what is enforced.
unfoldable pub sandbox_child_restrict_filesystem :
    (capacity : ℕ) → Rights → LandlockAnswers → (target_path : List ℕ) → Option Enforced
unfolding prepend_rule add_rules enforce_rules restrict_below
sandbox_child_restrict_filesystem capacity r a target_path =
    restrict_below r a target_path (resolve_target_directory capacity a.realpath)
