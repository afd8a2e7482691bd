-- ===== src/Lib.antt =====
-- The repository holds two pairs of programs in C. Authentication/ is a backend that runs with root's
-- privileges until it has read one account, drops them, and answers one request of a frontend over a
-- Unix socket. Sandbox/ is a controller that starts a program in a new process group with a cgroup, a
-- Landlock ruleset and a seccomp filter, watches it with three monitor threads, and ends it when a limit
-- is passed or an operator asks for it.
--
-- Authentication/
--   Auth.Protocol      auth_protocol.h: AuthRequest, AuthResponse, limits and result codes.
--   Auth.Compare       Backend.c: secure_string_equal.
--   Auth.Request       Backend.c: set_response, validate_request_string, process_request.
--   Auth.Account       Backend.c: load_demo_credential; Auth.Account.Path: resolve_demo_credential_path.
--   Auth.Privileges    Backend.c: drop_privileges_permanently, over the kernel's calls on a state.
--   Auth.Transfer      Backend.c: read_all, write_all, one turn of the kernel for each round of a loop.
--   Auth.Session       Backend.c: verify_peer_credentials, handle_client, send_peer_rejection.
--   Auth.Server        Backend.c: create_server_socket, accept_one_client, the cleanup.
--   Auth.Main          Backend.c: main, which calls all of these in order.
--   Auth.Helpers       Backend.c, Frontend.c, secure_memory.c: signal handlers, the log of the user ids,
--                      secure_clear.
--   Auth.Frontend      Frontend.c: the user's input, the terminal, the exchange, main.
--   Auth.Together      main of both programs joined by a connection; Auth.Together.Layouts holds a layout of the
--                      two structs, which the other files take as an argument.
-- Sandbox/
--   Sandbox.Options     Sandbox.c: parse_unsigned_limit, parse_options.
--   Sandbox.State       monitor.c, monitor.h: SandboxState and the operations under its mutex; the calls of
--                       all threads are one list, in the order in which the mutex lets them in.
--   Sandbox.ProcFiles   process_tree.c: what is read from /proc, as lists of bytes.
--   Sandbox.ProcessTree process_tree.c: which processes belong to the tree, and their sums.
--   Sandbox.Filter      security.c: the seccomp program of the child.
--   Sandbox.Landlock    security.c: sandbox_child_restrict_filesystem and its rules.
--   Sandbox.Cgroup      security.c: the operations sandbox_cgroup_... on the files of a cgroup.
--   Sandbox.Child       Sandbox.c: run_sandbox_child, from fork to execve, with what it calls in security.c.
--   Sandbox.Supervisor  Sandbox.c: reaping, polling, signalling, waiting, terminating, the main loop.
--   Sandbox.Monitor     monitor.c: the three monitor threads, over the rounds of their loops.
--   Sandbox.Main        Sandbox.c: main of the controller.
--   Sandbox.Logger      logger.c: logger_write as a step relation of the threads that call it.
--   Sandbox.Launch      Sandbox.c: release_child and the pipe, which joins main of the controller to the
--                       child; the signal handlers.
--   Sandbox.Sleep       monitor.c: sleep_milliseconds.
-- Base holds what they share: lists and bits over native numbers, C strings as bytes, strtol and strtoul
-- (Base.Numbers), and fgets over a file's bytes (Base.Stdio).
--
-- What another thread, the kernel or a peer does is an argument: a list or a function of answers, one for
-- each call in the order of the calls. Where a property needs a call to behave as its manual page says,
-- a record of laws (IsSystem, IsLayout, IsCodec) or a condition on the answers (Honest, IsCalm) says so, and the
-- tests hold a concrete instance. Integers of the machine keep their bounds: sums saturate at ULONG_MAX,
-- elapsed times and array capacities are taken modulo 2^64, the milliseconds of a
-- wait modulo 2^32, the accumulated difference of the string
-- comparison stays in one byte by its operands.
--
-- Loops over answers end with the list; a list that is too short stands for a call that has not returned
-- yet (Outcome.waiting, Exit.supervising, Run.exit = none), and theorems of their own say for which
-- answers a result is reached. wait_for_workload_exit runs on fuel: one round for each 50 milliseconds of
-- its timeout and two more, which wait_for_workload_exit_returns shows to be enough where the timeout
-- stays fifty milliseconds below 2^32 (the callers pass 1000 and 5000). The selection of the
-- tree runs one sweep for each process, and select_lem shows that it then is the whole tree.
--
-- The threads that log are the exception: logger_write is a relation of steps, one for each call of the C
-- library, and its theorem holds for every state that any interleaving of the steps reaches.
--
-- Not modelled: the percentage that the CPU monitor logs (a floating-point number), signal
-- handlers beyond the flags they set, the programs under Sandbox/test and the demonstration scripts.
pub mod Base
pub mod Auth
pub mod Sandbox
