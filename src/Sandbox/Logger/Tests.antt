-- ===== src/Sandbox/Logger/Tests.antt =====
-- Two threads that log at the same time, and the theorem at a state between their steps.
use st5039cmd.Base.{ℕ, zero, suc, ◌≡◌, refl, some}
use st5039cmd.Base.CString.{codes}
use st5039cmd.Sandbox.Logger.{
  Call, logger_info, logger_warn, at_lock, at_prefix, part, beginning, at_message, System, move,
  write, locks, prefixes, at_rest, Reaches, step,
}
use st5039cmd.Sandbox.Logger.Lines.{IsOrdered}
use st5039cmd.Sandbox.Logger.Ordered.{reached-IsOrdered}
use st5039cmd.Sandbox.Logger.Progress.{logged, logger_write-reaches}

-- One message, and a warning of every other call.
abbrev two_calls : ℕ → Call
two_calls zero = logger_info (codes "workload started")
two_calls (suc t) = logger_warn (codes "memory limit exceeded")

abbrev first_logged : System
first_logged = logged two_calls at_rest 0 refl refl

abbrev second_locked : System
second_locked = record first_logged { owner = some 1; place = move first_logged.place 1 at_prefix }

-- The second call has begun its line behind the first one's.
abbrev second_begun : System
second_begun =
    write second_locked 1 (part (two_calls 1).stream (beginning (two_calls 1))) at_message

second_waits : first_logged.place 1 ≡ at_lock
unfolding move
second_waits = refl

second_begins : second_locked.place 1 ≡ at_prefix
unfolding move
second_begins = refl

reached : Reaches two_calls at_rest second_begun
reached =
    step at_rest second_locked second_begun
      (step at_rest first_logged second_locked (logger_write-reaches two_calls at_rest 0 refl refl)
        (locks first_logged 1 second_waits refl))
      (prefixes second_locked 1 second_begins)

reached-IsOrdered_example : IsOrdered two_calls second_begun
reached-IsOrdered_example = reached-IsOrdered two_calls second_begun reached
