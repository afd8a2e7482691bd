-- ===== src/Sandbox/Filter/Program.antt =====
-- What the filter does to a system call, and that it fits its array. `execute` is the documented
-- meaning of the four instructions in the classic BPF language: a jump counts from the instruction
-- behind it, and a program that runs off its end has no result.
use st5039cmd.Base.{
  ℕ, zero, suc, ◌+◌, ◌*◌, ◌%◌, ◌^◌, ◌≤◌, ◌<◌, ◌≡◌, refl, bit_or, Bool, false, ◌||◌, List, [], ◌∷◌,
  ◌++◌, Option, none, some, length, drop, length-append, ◌==◌, if◌then◌else◌, arith, inl, inr,
  Bool-cases,
}
use st5039cmd.Sandbox.Filter.{
  Headers, NetworkCall, all_network_calls, defined, blocked_network_syscalls, Instruction,
  load_arch, load_nr, jump_eq, return, block_each, network_filter,
}

-- The fuel is the number of instructions left, at least.
unfoldable pub execute : ℕ → List Instruction → (accumulator arch nr : ℕ) → Option ℕ
execute zero program a arch nr = none
execute (suc fuel) [] a arch nr = none
execute (suc fuel) (load_arch ∷ rest) a arch nr = execute fuel rest arch arch nr
execute (suc fuel) (load_nr ∷ rest) a arch nr = execute fuel rest nr arch nr
execute (suc fuel) (jump_eq k if_true if_false ∷ rest) a arch nr =
    execute fuel (drop (if a == k then if_true else if_false) rest) a arch nr
execute (suc fuel) (return value ∷ rest) a arch nr = some value

unfoldable pub contains : List ℕ → ℕ → Bool
contains [] n = false
contains (m ∷ ms) n = n == m % 2 ^ 32 || contains ms n

block_each-execute :
    (h : Headers) (ns : List ℕ) (fuel arch nr : ℕ)
    → 2 * length ns < fuel
    → execute fuel (block_each h ns ++ return h.seccomp_ret_allow ∷ []) nr arch nr
      ≡ some (if contains ns nr then bit_or h.seccomp_ret_errno h.eperm else h.seccomp_ret_allow)
unfolding execute block_each contains
block_each-execute h [] zero arch nr lt = absurd (omega arith)
block_each-execute h [] (suc fuel) arch nr lt = refl
block_each-execute h (n ∷ ns) zero arch nr lt = absurd (omega arith)
block_each-execute h (n ∷ ns) (suc zero) arch nr lt = absurd (omega arith)
block_each-execute h (n ∷ ns) (suc (suc fuel)) arch nr lt =
    ground (arith, block_each-execute h ns (suc fuel) arch nr)

length-block_each : (h : Headers) (ns : List ℕ) → length (block_each h ns) ≡ 2 * length ns
unfolding block_each
length-block_each h [] = omega arith
length-block_each h (n ∷ ns) = omega (arith, length-block_each h ns)

length-defined : (h : Headers) (cs : List NetworkCall) → length (defined h cs) ≤ length cs
unfolding defined
length-defined h [] = omega arith
length-defined h (c ∷ cs) = ground (arith, length-defined h cs)

length-network_filter :
    (h : Headers) → length (network_filter h) ≡ 2 * length (blocked_network_syscalls h) + 5
unfolding network_filter
length-network_filter h = omega (
  arith,
  length-append (block_each h (blocked_network_syscalls h)) (return h.seccomp_ret_allow ∷ []),
  length-block_each h (blocked_network_syscalls h),
)

-- The filter never overflows its 64 slots, so its length also fits the `unsigned short` of the program.
pub network_filter_fits : (h : Headers) → length (network_filter h) ≤ 64
unfolding blocked_network_syscalls
network_filter_fits h = omega (arith, length-network_filter h, length-defined h all_network_calls)

abbrev expected_return : Headers → ℕ → ℕ → ℕ
expected_return h arch nr =
    if arch == h.sandbox_audit_arch
    then if contains (blocked_network_syscalls h) nr
      then bit_or h.seccomp_ret_errno h.eperm
      else h.seccomp_ret_allow
    else h.seccomp_ret_kill_process

execute_with_fuel :
    (h : Headers) (fuel arch nr : ℕ)
    → 2 * length (blocked_network_syscalls h) < fuel
    → execute (suc (suc (suc fuel))) (network_filter h) 0 arch nr ≡ some (expected_return h arch nr)
unfolding network_filter execute
execute_with_fuel h zero arch nr lt = absurd (omega arith)
execute_with_fuel h (suc fuel) arch nr lt =
    let blocks = block_each-execute h (blocked_network_syscalls h) (suc fuel) arch nr lt in
    elim (Bool-cases (arch == h.sandbox_audit_arch)) [
      | inl native ↦ rw (native, execute) blocks
      | inr foreign ↦ rw (foreign, execute)
    ]

-- The filter always returns: it kills the process on a foreign architecture, refuses a blocked call
-- with EPERM, and allows every other call.
pub network_filter-execute :
    (h : Headers) (arch nr : ℕ)
    → execute (length (network_filter h)) (network_filter h) 0 arch nr
      ≡ some (
          if arch == h.sandbox_audit_arch
          then if contains (blocked_network_syscalls h) nr
            then bit_or h.seccomp_ret_errno h.eperm
            else h.seccomp_ret_allow
          else h.seccomp_ret_kill_process)
network_filter-execute h arch nr =
    let n = length (blocked_network_syscalls h) in
    let size : length (network_filter h) ≡ suc (suc (suc (2 * n + 2))) =
      omega (arith, length-network_filter h) in
    rw size (execute_with_fuel h (2 * n + 2) arch nr (omega arith))
