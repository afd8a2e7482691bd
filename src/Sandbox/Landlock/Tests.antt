-- ===== src/Sandbox/Landlock/Tests.antt =====
-- A target in /opt/demo on a system without /lib64.
use st5039cmd.Base.{ℕ, ◌≡◌, refl, true, not, List, some}
use st5039cmd.Base.CString.{codes, same_bytes}
use st5039cmd.Sandbox.Landlock.{
  Rights, LandlockAnswers, Enforced, handled_access, landlock_rules, resolve_target_directory,
  sandbox_child_restrict_filesystem,
}
use st5039cmd.Sandbox.Landlock.Rules.{IsHandled, openable, sandbox_child_restrict_filesystem_lem}

abbrev pub rights : Rights
rights = record {
  execute = 1;
  write_file = 2;
  read_file = 4;
  read_dir = 8;
  change_entries = 8176;
  refer = 8192;
  truncate = 16384;
}

abbrev pub demo_target : List ℕ
demo_target = codes "/opt/demo/run"

abbrev pub landlock_answers : LandlockAnswers
landlock_answers = record {
  realpath = some demo_target;
  abi = 2;
  creates = true;
  opens = λ path. not (same_bytes path (codes "/lib64"));
  adds = λ path. true;
  no_new_privileges = true;
  restricts = true;
  closes = true;
}

abbrev pub demo_ruleset : Enforced
demo_ruleset = record {
  handled_access_fs = 16383;
  rules = openable landlock_answers (landlock_rules rights demo_target (codes "/opt/demo"));
}

pub restricts :
    sandbox_child_restrict_filesystem 4096 rights landlock_answers demo_target ≡ some demo_ruleset
unfolding sandbox_child_restrict_filesystem resolve_target_directory handled_access openable
    same_bytes
restricts = refl

sandbox_child_restrict_filesystem_lem_example :
    (directory : List ℕ) × (resolve_target_directory 4096 (some demo_target) ≡ some directory)
    × IsHandled rights 2 demo_ruleset.handled_access_fs
    × (demo_ruleset.rules ≡ openable landlock_answers (landlock_rules rights demo_target directory))
    × (landlock_answers.opens demo_target ≡ true)
    × (landlock_answers.opens directory ≡ true)
    × (landlock_answers.opens (codes "/usr") ≡ true)
sandbox_child_restrict_filesystem_lem_example =
    sandbox_child_restrict_filesystem_lem 4096 rights landlock_answers demo_target demo_ruleset
      restricts
