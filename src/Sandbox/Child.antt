-- ===== src/Sandbox/Child.antt =====
-- The child between fork and execve: Sandbox/Sandbox.c, `reset_child_signal_handlers`,
-- `wait_for_launch_permission` and `run_sandbox_child`; Sandbox/security.c, the parent death signal, the
-- resource limits, the calls that install the filter, the closing of descriptors and the environment.
-- Beside whether it returned 0, each operation has the list of what it has put in force.
pub mod Executes
pub mod Tests
use st5039cmd.Base.{
  ℕ, ◌*◌, ◌%◌, ◌^◌, Bool, true, false, not, List, [], ◌∷◌, ◌++◌, Option, none, some, ltb, ◌==◌,
  if◌then◌else◌,
}
use st5039cmd.Base.CString.{codes}
use st5039cmd.Base.Int.{ℤ, pos, negsuc, int_eq}
use st5039cmd.Sandbox.Options.{SandboxOptions}
use st5039cmd.Sandbox.Filter.{Headers, Instruction, network_filter}
use st5039cmd.Sandbox.Landlock.{
  Rights, LandlockAnswers, Enforced, sandbox_child_restrict_filesystem,
}

-- The signals whose handlers are reset.
pub data ChildSignal : Type 0 where
  sigint sigterm sighup sigpipe : ChildSignal

pub data InForce : Type 0 where
  default_handler : ChildSignal → InForce
  own_process_group dies_with_parent no_core_file : InForce
  address_space_limit : (bytes : ℕ) → InForce
  filesystem_restricted : Enforced → InForce
  network_filtered : List Instruction → InForce
  -- The descriptors from 3 on, all of them or those below a bound.
  descriptors_closed : Option ℕ → InForce
  program_executed : (path : List ℕ) → (arguments environment : List (List ℕ)) → InForce

-- Two operations of which the second is reached only behind a success of the first.
pub and_then : Bool × List InForce → Bool × List InForce → Bool × List InForce
and_then (false, acts) second = (false, acts)
and_then (true, acts) second = let (ok, more) = second in (ok, acts ++ more)

-- A call that puts something in force when it returns 0.
pub put : Bool → InForce → Bool × List InForce
put ok act = if ok then (true, act ∷ []) else (false, [])

pub data PermissionAnswer : Type 0 where
  byte_read : ℕ → PermissionAnswer
  pipe_closed permission_interrupted permission_failed : PermissionAnswer

-- Returned 0, returned -1, or still in `read`.
pub data Permission : Type 0 where
  granted denied pending : Permission

unfoldable pub wait_for_launch_permission : List PermissionAnswer → Permission
wait_for_launch_permission [] = pending
wait_for_launch_permission (byte_read b ∷ answers) = if b == 1 then granted else denied
wait_for_launch_permission (pipe_closed ∷ answers) = denied
wait_for_launch_permission (permission_interrupted ∷ answers) = wait_for_launch_permission answers
wait_for_launch_permission (permission_failed ∷ answers) = denied

-- `close_range`: 0, ENOSYS or EINVAL (also where it is not defined), or another error.
pub data CloseRange : Type 0 where
  range_closed range_unsupported range_error : CloseRange

-- What the kernel answers.
pub record ChildAnswers : Type 0 where
  pub empties_mask : Bool
  pub resets : ChildSignal → Bool
  pub setpgid : Bool
  pub sets_death_signal : Bool
  pub getppid : ℤ
  pub limits_core : Bool
  pub limits_address_space : Bool
  pub permission : List PermissionAnswer
  pub landlock : LandlockAnswers
  pub no_new_privileges : Bool
  pub sets_seccomp : Bool
  pub close_range : CloseRange
  pub open_max : ℤ
  pub executes : Bool

abbrev pub reset_signals : List ChildSignal
reset_signals = sigint ∷ sigterm ∷ sighup ∷ sigpipe ∷ []

pub reset_each : (ChildSignal → Bool) → List ChildSignal → Bool × List InForce
reset_each resets [] = (true, [])
reset_each resets (s ∷ signals) =
    and_then (put (resets s) (default_handler s)) (reset_each resets signals)

pub reset_child_signal_handlers : ChildAnswers → Bool × List InForce
reset_child_signal_handlers a = and_then (a.empties_mask, []) (reset_each a.resets reset_signals)

pub sandbox_child_set_parent_death_signal :
    ChildAnswers → (expected_parent : ℤ) → Bool × List InForce
sandbox_child_set_parent_death_signal a expected_parent =
    and_then (put a.sets_death_signal dies_with_parent) (int_eq a.getppid expected_parent, [])

-- `rlim_t` has 64 bits, and so the comparison behind the conversion holds.
pub sandbox_child_set_resource_limits :
    ChildAnswers → (memory_limit_kilobytes : ℕ) → Bool × List InForce
sandbox_child_set_resource_limits a memory_limit_kilobytes =
    and_then (put a.limits_core no_core_file) (
      if ltb 0 memory_limit_kilobytes
      then put a.limits_address_space (address_space_limit (memory_limit_kilobytes * 1024 % 2 ^ 64))
      else (true, []))

pub sandbox_child_install_network_filter : ChildAnswers → Headers → Bool × List InForce
sandbox_child_install_network_filter a h =
    and_then (a.no_new_privileges, []) (put a.sets_seccomp (network_filtered (network_filter h)))

-- `sysconf(_SC_OPEN_MAX)`, kept between 0 and 1048576.
pub descriptor_bound : ℤ → ℕ
descriptor_bound (negsuc n) = 1048576
descriptor_bound (pos n) = if ltb 1048576 n then 1048576 else n

pub close_range_result : CloseRange → ℤ → Bool × List InForce
close_range_result range_closed open_max = (true, descriptors_closed none ∷ [])
close_range_result range_error open_max = (false, [])
close_range_result range_unsupported open_max =
    (true, descriptors_closed (some (descriptor_bound open_max)) ∷ [])

abbrev pub sandbox_child_close_descriptors : ChildAnswers → Bool × List InForce
sandbox_child_close_descriptors a = close_range_result a.close_range a.open_max

abbrev pub sandbox_child_environment : List (List ℕ)
sandbox_child_environment =
    codes "PATH=/usr/bin:/bin"
    ∷ codes "LANG=C"
    ∷ codes "LC_ALL=C"
    ∷ codes "HOME=/nonexistent"
    ∷ codes "TMPDIR=/tmp"
    ∷ []

pub restrict_child : Option Enforced → Bool × List InForce
restrict_child none = (false, [])
restrict_child (some e) = (true, filesystem_restricted e ∷ [])

-- `_exit(127)`, still waiting for the launch, or the target program.
pub data ChildEnd : Type 0 where
  exited_127 not_released replaced : ChildEnd

pub finish_child : Bool × List InForce → ChildEnd × List InForce
finish_child (false, acts) = (exited_127, acts)
finish_child (true, acts) = (replaced, acts)

-- The kernel's headers and SANDBOX_CGROUP_PATH_CAPACITY.
module _ (capacity : ℕ) (r : Rights) (h : Headers) where
  -- In front of the launch permission.
  pub before_launch : ChildAnswers → SandboxOptions → (expected_parent : ℤ) → Bool × List InForce
  before_launch a options expected_parent = and_then (reset_child_signal_handlers a) (
      and_then (put a.setpgid own_process_group) (
        and_then (sandbox_child_set_parent_death_signal a expected_parent)
          (sandbox_child_set_resource_limits a options.memory_limit_kilobytes)))

  -- Behind it.
  pub behind_launch : ChildAnswers → SandboxOptions → Bool × List InForce
  behind_launch a options =
      and_then
        (restrict_child
          (sandbox_child_restrict_filesystem capacity r a.landlock options.target_path))
        (and_then (sandbox_child_install_network_filter a h) (
          and_then (sandbox_child_close_descriptors a) (
            put a.executes (
              program_executed options.target_path options.target_argv sandbox_child_environment))))

  pub launch_child :
      ChildAnswers → SandboxOptions → Permission → Bool × List InForce → ChildEnd × List InForce
  launch_child a options p (false, acts) = (exited_127, acts)
  launch_child a options granted (true, acts) =
      finish_child (and_then (true, acts) (behind_launch a options))
  launch_child a options denied (true, acts) = (exited_127, acts)
  launch_child a options pending (true, acts) = (not_released, acts)

  unfoldable pub run_sandbox_child :
      ChildAnswers → SandboxOptions → (expected_parent : ℤ) → ChildEnd × List InForce
  unfolding and_then put reset_each reset_child_signal_handlers
      sandbox_child_set_parent_death_signal sandbox_child_set_resource_limits
      sandbox_child_install_network_filter descriptor_bound close_range_result restrict_child
      finish_child before_launch behind_launch launch_child
  run_sandbox_child a options expected_parent =
      launch_child a options (wait_for_launch_permission a.permission)
        (before_launch a options expected_parent)
