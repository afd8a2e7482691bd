-- ===== src/Sandbox/Filter/Tests.antt =====
-- The filter under the numbers of x86-64, of which some are left undefined here.
use st5039cmd.Base.{ℕ, ◌≤◌, ◌≡◌, refl, bit_or, ◌==◌, if◌then◌else◌, length, Option, none, some}
use st5039cmd.Sandbox.Filter.{
  Headers, NetworkCall, socket, connect, recvmmsg, network_filter, blocked_network_syscalls,
  block_each,
}
use st5039cmd.Sandbox.Filter.Program.{
  execute, contains, network_filter_fits, network_filter-execute,
}

abbrev numbers : NetworkCall → Option ℕ
numbers socket = some 41
numbers connect = some 42
numbers recvmmsg = some 299
numbers _ = none

abbrev pub x86_64 : Headers
x86_64 = record {
  sandbox_audit_arch = 0xc000003e;
  seccomp_ret_kill_process = 0x80000000;
  seccomp_ret_errno = 0x00050000;
  seccomp_ret_allow = 0x7fff0000;
  eperm = 1;
  number = numbers;
}

refuses_connect : execute 11 (network_filter x86_64) 0 0xc000003e 42 ≡ some 0x00050001
unfolding execute network_filter block_each blocked_network_syscalls
refuses_connect = refl

small_filter : length (network_filter x86_64) ≤ 64
small_filter = network_filter_fits x86_64

network_filter-execute_example :
    execute (length (network_filter x86_64)) (network_filter x86_64) 0 0xc000003e 42
    ≡ some (
        if 0xc000003e == 0xc000003e
        then if contains (blocked_network_syscalls x86_64) 42
          then bit_or 0x00050000 1
          else 0x7fff0000
        else 0x80000000)
network_filter-execute_example = network_filter-execute x86_64 0xc000003e 42
