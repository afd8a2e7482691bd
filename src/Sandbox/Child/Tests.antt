-- ===== src/Sandbox/Child/Tests.antt =====
-- A child with a memory limit of one megabyte that comes to run its target.
use st5039cmd.Base.{ℕ, ◌≡◌, refl, true, List, [], ◌∷◌, ◌++◌, map, Option, some}
use st5039cmd.Base.CString.{same_bytes}
use st5039cmd.Base.Int.{pos, int_eq}
use st5039cmd.Sandbox.Options.{SandboxOptions}
use st5039cmd.Sandbox.Filter.{network_filter}
use st5039cmd.Sandbox.Filter.Tests.{x86_64}
use st5039cmd.Sandbox.Landlock.{
  Enforced, sandbox_child_restrict_filesystem, resolve_target_directory, handled_access,
}
use st5039cmd.Sandbox.Landlock.Rules.{openable}
use st5039cmd.Sandbox.Landlock.Tests.{rights, demo_target, landlock_answers, demo_ruleset}
use st5039cmd.Sandbox.Child.{
  InForce, default_handler, own_process_group, dies_with_parent, no_core_file, address_space_limit,
  filesystem_restricted, network_filtered, descriptors_closed, program_executed, byte_read,
  permission_interrupted, granted, wait_for_launch_permission, range_unsupported, ChildAnswers,
  reset_signals, sandbox_child_environment, replaced, run_sandbox_child,
}
use st5039cmd.Sandbox.Child.Executes.{IsClosedTo, address_limits, run_sandbox_child-executes}

abbrev pub demo_options : SandboxOptions
demo_options = record {
  target_path = demo_target;
  target_argv = demo_target ∷ [];
  timeout_seconds = 30;
  memory_limit_kilobytes = 1024;
}

abbrev pub child_answers : ChildAnswers
child_answers = record {
  empties_mask = true;
  resets = λ s. true;
  setpgid = true;
  sets_death_signal = true;
  getppid = pos 77;
  limits_core = true;
  limits_address_space = true;
  permission = permission_interrupted ∷ byte_read 1 ∷ [];
  landlock = landlock_answers;
  no_new_privileges = true;
  sets_seccomp = true;
  close_range = range_unsupported;
  open_max = pos 1024;
  executes = true;
}

abbrev pub all_in_force : List InForce
all_in_force =
    (map default_handler reset_signals
      ++ own_process_group ∷ dies_with_parent ∷ no_core_file ∷ address_space_limit 1048576 ∷ [])
    ++ filesystem_restricted demo_ruleset
      ∷ network_filtered (network_filter x86_64)
      ∷ descriptors_closed (some 1024)
      ∷ program_executed demo_target (demo_target ∷ []) sandbox_child_environment
      ∷ []

pub runs :
    run_sandbox_child 4096 rights x86_64 child_answers demo_options (pos 77)
    ≡ (replaced, all_in_force)
unfolding run_sandbox_child wait_for_launch_permission sandbox_child_restrict_filesystem
    resolve_target_directory same_bytes handled_access openable
runs = refl

run_sandbox_child-executes_example :
    (e : Enforced) × (bound : Option ℕ) × IsClosedTo child_answers bound
    × (int_eq (pos 77) (pos 77) ≡ true)
    × (wait_for_launch_permission child_answers.permission ≡ granted)
    × (sandbox_child_restrict_filesystem 4096 rights landlock_answers demo_target ≡ some e)
    × (all_in_force
        ≡ (map default_handler reset_signals
            ++ own_process_group ∷ dies_with_parent ∷ no_core_file ∷ address_limits 1024)
          ++ filesystem_restricted e
            ∷ network_filtered (network_filter x86_64)
            ∷ descriptors_closed bound
            ∷ program_executed demo_target (demo_target ∷ []) sandbox_child_environment
            ∷ [])
run_sandbox_child-executes_example =
    run_sandbox_child-executes 4096 rights x86_64 child_answers demo_options (pos 77) all_in_force
      runs
