-- ===== src/Sandbox/Cgroup/Tests.antt =====
-- A cgroup whose memory controller is not delegated, and one that is populated.
use st5039cmd.Base.{ℕ, ◌≡◌, ◌⊎◌, refl, true, false, List, [], ◌∷◌, some}
use st5039cmd.Base.CString.{codes, c_string}
use st5039cmd.Base.Numbers.{scan_integer, read_digits}
use st5039cmd.Base.Stdio.{file_lines, text_of}
use st5039cmd.Sandbox.ProcFiles.Memory.{strip_label}
use st5039cmd.Sandbox.Cgroup.{
  no_cgroup, fit_path, open_failed, write_whole, write_text_file, current_cgroup_directory,
  directory_made, directory_removed, PrepareAnswers, sandbox_cgroup_prepare,
  sandbox_cgroup_is_populated,
}
use st5039cmd.Sandbox.Cgroup.Prepared.{Usable, Unused, sandbox_cgroup_prepare_lem}

abbrev undelegated : PrepareAnswers
undelegated = record {
  self_cgroup =
      some (record { bytes = text_of (codes "1:name=x:/" ∷ codes "0::/user" ∷ []); fails = false });
  pid_text = codes "77";
  makes = true;
  memory_max = open_failed true;
  oom_group = write_whole true;
  swap_max = write_whole true;
  removes = true;
}

abbrev path : List ℕ
path = codes "/sys/fs/cgroup/user/st5039cmd-77"

removed_again :
    sandbox_cgroup_prepare undelegated 1024
    ≡ (no_cgroup, directory_made path ∷ directory_removed path ∷ [])
unfolding sandbox_cgroup_prepare current_cgroup_directory file_lines text_of strip_label c_string
    fit_path write_text_file
removed_again = refl

populated :
    sandbox_cgroup_is_populated
      (record { path = path; active = true })
      (some
        (record { bytes = text_of (codes "populated 1" ∷ codes "frozen 0" ∷ []); fails = false }))
    ≡ some true
unfolding sandbox_cgroup_is_populated fit_path file_lines text_of strip_label c_string scan_integer
    read_digits
populated = refl

abbrev delegated : PrepareAnswers
delegated = record undelegated { memory_max = write_whole true }

prepared : (sandbox_cgroup_prepare delegated 1024).0 ≡ record { path = path; active = true }
unfolding sandbox_cgroup_prepare current_cgroup_directory file_lines text_of strip_label c_string
    fit_path write_text_file
prepared = refl

sandbox_cgroup_prepare_lem_example :
    let (g, acts) = sandbox_cgroup_prepare delegated 1024 in
    Usable 1024 delegated.memory_max g acts ⊎ Unused true g acts
sandbox_cgroup_prepare_lem_example = sandbox_cgroup_prepare_lem delegated 1024
