-- ===== src/Sandbox/ProcessTree/Flags.antt =====
-- Lists of flags: how many are unset, and what setting one does.
use st5039cmd.Base.{
  ℕ, zero, suc, ◌≤◌, ◌<◌, ◌≡◌, ◌≢◌, refl, ap, Bool, true, false, List, [], ◌∷◌, length, get_or, set,
  arith,
}

abbrev pub unset : List Bool → ℕ
unset [] = 0
unset (true ∷ bs) = unset bs
unset (false ∷ bs) = suc (unset bs)

pub unset-le : (bs : List Bool) → unset bs ≤ length bs
unset-le [] = omega arith
unset-le (true ∷ bs) = omega (arith, unset-le bs)
unset-le (false ∷ bs) = omega (arith, unset-le bs)

pub unset-set :
    (bs : List Bool) (i : ℕ)
    → i < length bs
    → get_or bs i false ≡ false
    → unset (set bs i true) < unset bs
unset-set [] i h e = absurd (omega arith)
unset-set (true ∷ bs) zero h e = cc
unset-set (false ∷ bs) zero h e = omega arith
unset-set (true ∷ bs) (suc i) h e = unset-set bs i (omega arith) e
unset-set (false ∷ bs) (suc i) h e = omega (arith, unset-set bs i (omega arith) e)

-- A flag after a write: the one written is set, the others stay.
pub get_or-set_self :
    (bs : List Bool) (i : ℕ) → i < length bs → get_or (set bs i true) i false ≡ true
get_or-set_self [] i h = absurd (omega arith)
get_or-set_self (b ∷ bs) zero h = refl
get_or-set_self (b ∷ bs) (suc i) h = get_or-set_self bs i (omega arith)

pub get_or-set_ne :
    (bs : List Bool) (i j : ℕ) → i ≢ j → get_or (set bs i true) j false ≡ get_or bs j false
get_or-set_ne [] i j h = refl
get_or-set_ne (b ∷ bs) zero zero h = absurd (h refl)
get_or-set_ne (b ∷ bs) zero (suc j) h = refl
get_or-set_ne (b ∷ bs) (suc i) zero h = refl
get_or-set_ne (b ∷ bs) (suc i) (suc j) h = get_or-set_ne bs i j (λ e. h (ap suc e))

pub set_keeps :
    (bs : List Bool) (i j : ℕ) → get_or bs j false ≡ true → get_or (set bs i true) j false ≡ true
set_keeps [] i j h = h
set_keeps (b ∷ bs) zero zero h = refl
set_keeps (b ∷ bs) zero (suc j) h = h
set_keeps (b ∷ bs) (suc i) zero h = h
set_keeps (b ∷ bs) (suc i) (suc j) h = set_keeps bs i j h
