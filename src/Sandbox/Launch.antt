-- ===== src/Sandbox/Launch.antt =====
-- Sandbox/Sandbox.c: `install_operator_signal_handlers`, and `release_child` with the pipe between it
-- and `wait_for_launch_permission`.
pub mod Handshake
pub mod Supervised
pub mod Tests
use st5039cmd.Base.Int.{is_positive}
use st5039cmd.Base.{none, some, ◌&&◌, ℕ, Bool, true, false, List, [], ◌∷◌, if◌then◌else◌}
use st5039cmd.Sandbox.State.{is_no_reason, init, set_workload}
use st5039cmd.Sandbox.Main.{Setup, reason_before_release}
use st5039cmd.Base.Signals.{
  Signal, sigint, sigterm, sighup, sigpipe, Setting, handled, ignored, set_in_order,
}

-- `write` of one byte: EINTR, another error, no byte, or the byte.
pub data ReleaseAnswer : Type 0 where
  write_interrupted write_failed nothing_written byte_written : ReleaseAnswer

-- Returned 0, returned -1, or still in `write`.
pub data Release : Type 0 where
  released unreleased releasing : Release

-- How the call ends, and what it has put into the pipe.
pub record Released : Type 0 where
  pub ending : Release
  pub written : List ℕ

unfoldable pub release_child : List ReleaseAnswer → Released
release_child [] = record { ending = releasing; written = [] }
release_child (write_interrupted ∷ answers) = release_child answers
release_child (write_failed ∷ answers) = record { ending = unreleased; written = [] }
release_child (nothing_written ∷ answers) = record { ending = unreleased; written = [] }
release_child (byte_written ∷ answers) = record { ending = released; written = (1 ∷ []) }

abbrev pub is_released : Release → Bool
is_released released = true
is_released unreleased = false
is_released releasing = false

-- `main` gets past `fork` and records the child as the workload.
unfoldable pub is_recorded : Setup → Bool
is_recorded k = elim (init k.getpid k.mutex_made) [
  | none ↦ false
  | some s ↦
      (k.subreaper && k.handlers && k.pipe_made)
      && is_positive k.fork
      && (set_workload k.set_mutex k.fork k.fork s).1
]

-- What the pipe holds when the controller closes its end: `main` releases a recorded child only
-- without a reason to terminate it.
unfoldable pub pipe_content : Setup → List ReleaseAnswer → List ℕ
pipe_content k answers =
    if is_recorded k && is_no_reason (reason_before_release k)
    then (release_child answers).written
    else []

-- The handlers of the controller, in the order of the calls.
abbrev pub operator_settings : List Setting
operator_settings = handled sigint ∷ handled sigterm ∷ handled sighup ∷ ignored sigpipe ∷ []

unfoldable pub install_operator_signal_handlers :
    (empties_mask : Bool) → (sigaction : Signal → Bool) → Bool × List Setting
install_operator_signal_handlers empties_mask sigaction =
    if empties_mask then set_in_order sigaction operator_settings else (false, [])
