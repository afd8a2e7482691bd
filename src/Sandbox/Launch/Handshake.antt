-- ===== src/Sandbox/Launch/Handshake.antt =====
-- The child runs only when the controller has released it.
use mathlib.Core.Logic.{◌⊎◌, inl, inr}
use st5039cmd.Base.Signals.{Signal, IsPartOf, set_in_order-IsPartOf}
use st5039cmd.Base.{
  ℕ, Bool, true, false, ◌≡◌, ◌≢◌, refl, ap, sym, ◌∙◌, List, [], ◌∷◌, All, Any, arith,
}
use st5039cmd.Sandbox.Child.{
  PermissionAnswer, byte_read, pipe_closed, permission_interrupted, permission_failed, Permission,
  granted, denied, pending, wait_for_launch_permission,
}
use st5039cmd.Sandbox.Launch.{
  ReleaseAnswer, write_interrupted, write_failed, nothing_written, byte_written, released,
  release_child, operator_settings, install_operator_signal_handlers,
}

-- What a pipe with these bytes answers its reader, from the first byte on: a byte is read only if it
-- is there, and the end only if no byte is there.
abbrev pub Brings : List ℕ → PermissionAnswer → Type 0
Brings bytes (byte_read b) = (rest : List ℕ) × (bytes ≡ b ∷ rest)
Brings bytes pipe_closed = bytes ≡ []
Brings bytes permission_interrupted = Unit {0}
Brings bytes permission_failed = Unit {0}

-- The answers up to the first that takes something.
unfoldable pub Carries : List ℕ → List PermissionAnswer → Type 0
Carries bytes [] = Unit {0}
Carries bytes (permission_interrupted ∷ answers) = Carries bytes answers
Carries bytes (a ∷ answers) = Brings bytes a

released_byte :
    (answers : List ReleaseAnswer)
    → (release_child answers).ending ≡ released
    → (release_child answers).written ≡ 1 ∷ []
unfolding release_child
released_byte [] h = cc
released_byte (write_interrupted ∷ answers) h = released_byte answers h
released_byte (write_failed ∷ answers) h = cc
released_byte (nothing_written ∷ answers) h = cc
released_byte (byte_written ∷ answers) h = refl

pub written_released :
    (answers : List ReleaseAnswer)
    → ((release_child answers).written ≡ [])
      ⊎ (((release_child answers).ending ≡ released) × ((release_child answers).written ≡ 1 ∷ []))
unfolding release_child
written_released [] = inl refl
written_released (write_interrupted ∷ answers) = written_released answers
written_released (write_failed ∷ answers) = inl refl
written_released (nothing_written ∷ answers) = inl refl
written_released (byte_written ∷ answers) = inr (refl, refl)

pub granted_byte :
    (bytes : List ℕ) (answers : List PermissionAnswer)
    → Carries bytes answers
    → wait_for_launch_permission answers ≡ granted
    → (rest : List ℕ) × (bytes ≡ 1 ∷ rest)
unfolding Carries wait_for_launch_permission
granted_byte bytes [] h e = cc
granted_byte bytes (byte_read b ∷ answers) h e =
    let one : b ≡ 1 = ground (arith, e) in (h.0, h.1 ∙ ap (λ c. c ∷ h.0) one)
granted_byte bytes (pipe_closed ∷ answers) h e = cc
granted_byte bytes (permission_interrupted ∷ answers) h e = granted_byte bytes answers h e
granted_byte bytes (permission_failed ∷ answers) h e = cc

head_is : {b c : ℕ} → {bs cs : List ℕ} → b ∷ bs ≡ c ∷ cs → b ≡ c
head_is e = cc

not_denied :
    (bytes : List ℕ) (answers : List PermissionAnswer)
    → bytes ≡ 1 ∷ []
    → Carries bytes answers
    → All (λ a. a ≢ permission_failed) answers
    → wait_for_launch_permission answers ≢ denied
unfolding Carries wait_for_launch_permission
not_denied bytes [] there h calm = λ e. cc
not_denied bytes (byte_read b ∷ answers) there h calm =
    let one : b ≡ 1 = sym (head_is (sym there ∙ h.1)) in λ e. ground (arith, e, one)
not_denied bytes (pipe_closed ∷ answers) there h calm = λ e. cc
not_denied bytes (permission_interrupted ∷ answers) there h calm =
    not_denied bytes answers there h calm.1
not_denied bytes (permission_failed ∷ answers) there h calm = λ e. calm.0 refl

pub nil≢cons : {b : ℕ} → {bs : List ℕ} → [] ≡ b ∷ bs → ⊥
nil≢cons e = cc

one_more :
    (a : PermissionAnswer) (reads : List PermissionAnswer)
    → a ≢ permission_failed
    → Any (λ a. a ≡ permission_failed) reads ⊎ All (λ a. a ≢ permission_failed) reads
    → Any (λ a. a ≡ permission_failed) (a ∷ reads) ⊎ All (λ a. a ≢ permission_failed) (a ∷ reads)
one_more a reads h (inl failed) = inl (inr failed)
one_more a reads h (inr calm) = inr (h, calm)

failed-or-calm :
    (reads : List PermissionAnswer)
    → Any (λ a. a ≡ permission_failed) reads ⊎ All (λ a. a ≢ permission_failed) reads
failed-or-calm [] = inr tt
failed-or-calm (byte_read b ∷ reads) = one_more (byte_read b) reads (λ e. cc) (failed-or-calm reads)
failed-or-calm (pipe_closed ∷ reads) = one_more pipe_closed reads (λ e. cc) (failed-or-calm reads)
failed-or-calm (permission_interrupted ∷ reads) =
    one_more permission_interrupted reads (λ e. cc) (failed-or-calm reads)
failed-or-calm (permission_failed ∷ reads) = inl (inl refl)

module _ (writes : List ReleaseAnswer) (reads : List PermissionAnswer) where
  -- How the two ends of the pipe agree.
  abbrev pub Agrees : Permission → Type 0
  Agrees p =
      (p ≡ pending)
      ⊎ ((p ≡ granted) × ((release_child writes).ending ≡ released))
      ⊎ ((p ≡ denied)
          × (((release_child writes).ending ≢ released) ⊎ Any (λ a. a ≡ permission_failed) reads))

  granted-released :
      Carries (release_child writes).written reads
      → wait_for_launch_permission reads ≡ granted
      → (release_child writes).ending ≡ released
  granted-released h e = elim (written_released writes) [
    | inl nothing ↦
        let (rest, there) = granted_byte (release_child writes).written reads h e in
        absurd (nil≢cons (sym nothing ∙ there))
    | inr (done, byte) ↦ done
  ]

  agrees :
      Carries (release_child writes).written reads
      → (p : Permission) → wait_for_launch_permission reads ≡ p
      → Agrees p
  agrees h pending e = inl refl
  agrees h granted e = inr (inl (refl, granted-released h e))
  agrees h denied e = elim (failed-or-calm reads) [
    | inl failed ↦ inr (inr (refl, inr failed))
    | inr calm ↦ inr (
        inr (
          refl,
          inl (λ done.
              not_denied (release_child writes).written reads (released_byte writes done) h calm e),
        ))
  ]

  -- Over a pipe that carries what is written, the child still waits; or it may go on, and
  -- `release_child` has returned 0; or it is refused, and `release_child` has not returned 0 or a
  -- `read` of the child has failed.
  pub release_child-permits :
      Carries (release_child writes).written reads → Agrees (wait_for_launch_permission reads)
  release_child-permits h = agrees h (wait_for_launch_permission reads) refl

-- The settings of the controller stand in this order, up to the first call that fails.
pub install_operator_signal_handlers-IsPartOf :
    (empties_mask : Bool) (sigaction : Signal → Bool)
    → IsPartOf operator_settings (install_operator_signal_handlers empties_mask sigaction)
unfolding install_operator_signal_handlers
install_operator_signal_handlers-IsPartOf true sigaction =
    set_in_order-IsPartOf sigaction operator_settings
install_operator_signal_handlers-IsPartOf false sigaction = (operator_settings, refl, inl refl)
