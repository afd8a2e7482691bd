-- ===== src/Base/Signals.antt =====
-- `sigaction`, as the sources call it: in a fixed order, up to the first call that fails.
use mathlib.Core.Path.{◌≡◌, refl, ap}
use mathlib.Core.Bool.{Bool, true, false}
use mathlib.Core.List.{List, [], ◌∷◌, ◌++◌}
use mathlib.Core.Logic.{◌⊎◌, inl, inr}
use st5039cmd.Base.Tests.{if◌then◌else◌}

pub data Signal : Type 0 where
  sigint sigterm sighup sigpipe : Signal

pub data Setting : Type 0 where
  handled ignored : Signal → Setting

abbrev pub signal_of : Setting → Signal
signal_of (handled s) = s
signal_of (ignored s) = s

-- Whether every call returned 0, and what is in force behind them.
unfoldable pub set_in_order : (sigaction : Signal → Bool) → List Setting → Bool × List Setting
set_in_order sigaction [] = (true, [])
set_in_order sigaction (setting ∷ settings) =
    let (ok, done) = set_in_order sigaction settings in
    if sigaction (signal_of setting) then (ok, setting ∷ done) else (false, [])

-- What is in force is a first part of the list, and all of it when every call returned 0.
abbrev pub IsPartOf : List Setting → Bool × List Setting → Type 0
IsPartOf settings (ok, done) =
    (rest : List Setting) × (done ++ rest ≡ settings) × ((ok ≡ false) ⊎ (rest ≡ []))

pub set_in_order-IsPartOf :
    (sigaction : Signal → Bool) (settings : List Setting)
    → IsPartOf settings (set_in_order sigaction settings)
unfolding set_in_order
set_in_order-IsPartOf sigaction [] = ([], refl, inr refl)
set_in_order-IsPartOf sigaction (setting ∷ settings) =
    go (set_in_order-IsPartOf sigaction settings) (sigaction (signal_of setting))
  where
    go :
        IsPartOf settings (set_in_order sigaction settings)
        → (b : Bool)
        → IsPartOf (setting ∷ settings) (
            if b
            then (
              (set_in_order sigaction settings).0,
              setting ∷ (set_in_order sigaction settings).1,
            )
            else (false, []))
    go (rest, whole, all) true = (rest, ap (◌∷◌ setting) whole, all)
    go (rest, whole, all) false = (setting ∷ settings, refl, inl refl)
