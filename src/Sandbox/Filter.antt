-- ===== src/Sandbox/Filter.antt =====
-- Sandbox/security.c: the seccomp filter of `sandbox_child_install_network_filter`. The numbers that
-- kernel headers define are the argument `Headers`; a system call that the headers lack has none.
pub mod Program
pub mod Tests
use st5039cmd.Base.{ℕ, ◌%◌, ◌^◌, bit_or, List, [], ◌∷◌, ◌++◌, Option, none, some}

-- The entries of `blocked_network_syscalls`, in order.
pub data NetworkCall : Type 0 where
  socket socketpair connect bind listen accept accept4 sendto : NetworkCall
  sendmsg sendmmsg recvfrom recvmsg recvmmsg shutdown setsockopt getsockopt : NetworkCall

pub record Headers : Type 0 where
  pub sandbox_audit_arch : ℕ
  pub seccomp_ret_kill_process : ℕ
  pub seccomp_ret_errno : ℕ
  pub seccomp_ret_allow : ℕ
  pub eperm : ℕ
  -- `__NR_…`, if it is defined.
  pub number : NetworkCall → Option ℕ

abbrev pub all_network_calls : List NetworkCall
all_network_calls =
    socket ∷ socketpair ∷ connect ∷ bind ∷ listen ∷ accept ∷ accept4 ∷ sendto ∷ sendmsg ∷ sendmmsg
    ∷ recvfrom ∷ recvmsg ∷ recvmmsg ∷ shutdown ∷ setsockopt ∷ getsockopt ∷ []

-- The `#ifdef` around each entry.
unfoldable pub defined : Headers → List NetworkCall → List ℕ
defined h [] = []
defined h (c ∷ cs) = elim (h.number c) [ none ↦ defined h cs | some n ↦ n ∷ defined h cs ]

unfoldable pub blocked_network_syscalls : Headers → List ℕ
unfolding defined
blocked_network_syscalls h = defined h all_network_calls

-- The four kinds of instruction that the filter is built from. `load_arch` and `load_nr` are the two
-- `BPF_LD | BPF_W | BPF_ABS` with their offsets into `struct seccomp_data`.
pub data Instruction : Type 0 where
  load_arch load_nr : Instruction
  jump_eq : (k if_true if_false : ℕ) → Instruction
  return : ℕ → Instruction

-- The loop over the blocked calls.
unfoldable pub block_each : Headers → List ℕ → List Instruction
block_each h [] = []
block_each h (n ∷ ns) =
    jump_eq (n % 2 ^ 32) 0 1 ∷ return (bit_or h.seccomp_ret_errno h.eperm) ∷ block_each h ns

unfoldable pub network_filter : Headers → List Instruction
network_filter h =
    load_arch
    ∷ jump_eq h.sandbox_audit_arch 1 0
    ∷ return h.seccomp_ret_kill_process
    ∷ load_nr
    ∷ (block_each h (blocked_network_syscalls h) ++ return h.seccomp_ret_allow ∷ [])
