-- ===== src/Sandbox/Launch/Tests.antt =====
-- A controller that releases a child behind an interrupt.
use st5039cmd.Base.{◌≡◌, true, refl, List, [], ◌∷◌}
use st5039cmd.Sandbox.Child.{
  PermissionAnswer, byte_read, permission_interrupted, wait_for_launch_permission,
}
use st5039cmd.Base.Int.{pos}
use st5039cmd.Sandbox.Filter.Tests.{x86_64}
use st5039cmd.Sandbox.Landlock.Tests.{rights}
use st5039cmd.Sandbox.Child.Tests.{demo_options, child_answers, all_in_force, runs}
use st5039cmd.Sandbox.State.{is_no_reason, init, set_workload}
use st5039cmd.Sandbox.Main.{reason_before_release, launch_reason}
use st5039cmd.Sandbox.Main.Tests.{setup}
use st5039cmd.Sandbox.Launch.{
  ReleaseAnswer, write_interrupted, byte_written, released, is_released, release_child,
  pipe_content, is_recorded,
}
use st5039cmd.Sandbox.Launch.Supervised.{IsIsolated, run_sandbox_child-IsSupervised}
use st5039cmd.Sandbox.Launch.Handshake.{Carries, Agrees, release_child-permits}

abbrev writes : List ReleaseAnswer
writes = (write_interrupted ∷ byte_written ∷ [])

abbrev reads : List PermissionAnswer
reads = (permission_interrupted ∷ byte_read 1 ∷ [])

byte_carried : Carries (release_child writes).written reads
unfolding Carries release_child
byte_carried = ([], refl)

reads-Agrees : Agrees writes reads (wait_for_launch_permission reads)
reads-Agrees = release_child-permits writes reads byte_carried

-- The whole launch: the controller of one test and the child of the other.
pipe_carried : Carries (pipe_content setup writes) child_answers.permission
unfolding Carries pipe_content is_recorded release_child reason_before_release init set_workload
pipe_carried = ([], refl)

demo_released : setup.released ≡ is_released (release_child writes).ending
unfolding release_child
demo_released = refl

run_sandbox_child-IsSupervised_example :
    ((release_child writes).ending ≡ released)
    × (is_no_reason (launch_reason setup) ≡ true)
    × IsIsolated setup writes
    × (is_recorded setup ≡ true)
run_sandbox_child-IsSupervised_example =
    run_sandbox_child-IsSupervised setup writes 4096 rights x86_64 child_answers demo_options
      (pos 77) all_in_force demo_released pipe_carried runs
