-- ===== src/Auth/Compare.antt =====
-- `secure_string_equal` of Authentication/Backend.c: the comparison that always runs over the
-- largest length. A read past a length is replaced by 0 before it is made.
use st5039cmd.Base.{
  ℕ, zero, suc, ◌+◌, ◌≤◌, ◌<◌, bit_or, bit_xor, ◌≡◌, ◌↔◌, Bool, true, List, [], ◌∷◌, length, get_or,
  take, ltb, ◌==◌, ==_iff, if◌then◌else◌, bit_or-eq-zero, bit_xor-eq-zero, arith, subst, refl, ap,
  length-take,
}
use mathlib.Core.Path.{ap₂}
use native.Mathlib.Decide.{ℕ_discrete}

byte_at : List ℕ → ℕ → ℕ → ℕ
byte_at buffer size index = if ltb index size then get_or buffer index 0 else 0

-- The loop: rounds left, the index and the accumulated difference.
accumulate : (left : List ℕ) (left_length : ℕ) (right : List ℕ) (right_length : ℕ) → ℕ → ℕ → ℕ → ℕ
accumulate left left_length right right_length zero index difference = difference
accumulate left left_length right right_length (suc rounds) index difference =
    accumulate left left_length right right_length rounds (index + 1) (
      bit_or difference
        (bit_xor (byte_at left left_length index) (byte_at right right_length index)))

unfoldable pub secure_string_equal : List ℕ → ℕ → List ℕ → ℕ → ℕ → Bool
unfolding accumulate byte_at
secure_string_equal left left_length right right_length maximum_length =
    accumulate left left_length right right_length maximum_length 0
      (bit_xor left_length right_length)
    == 0

module _ (left : List ℕ) (m : ℕ) (right : List ℕ) (n : ℕ) where
  abbrev AgreeAt : ℕ → Type 0
  AgreeAt j = byte_at left m j ≡ byte_at right n j

  accumulate-agree :
      (rounds index d : ℕ)
      → accumulate left m right n rounds index d ≡ 0
      → (d ≡ 0) × ((j : ℕ) → index ≤ j → j < index + rounds → AgreeAt j)
  unfolding accumulate
  accumulate-agree zero index d h = (h, λ j p q. absurd (omega arith))
  accumulate-agree (suc rounds) index d h =
      let (step, later) = accumulate-agree rounds (index + 1) _ h in
      let (zero_d, here) = (bit_or-eq-zero d _).0 step in
      let agree : AgreeAt index = (bit_xor-eq-zero _ _).0 here in
      (
        zero_d,
        λ j p q. elim (ℕ_discrete index j) [
          | yes e ↦ subst AgreeAt e agree
          | no ne ↦ later j (omega arith) (omega arith)
        ],
      )

  agree-accumulate :
      (rounds index : ℕ)
      → ((j : ℕ) → index ≤ j → j < index + rounds → AgreeAt j)
      → accumulate left m right n rounds index 0 ≡ 0
  unfolding accumulate
  agree-accumulate zero index h = refl
  agree-accumulate (suc rounds) index h =
      let same = (bit_xor-eq-zero _ _).1 (h index (omega arith) (omega arith)) in
      rw ((bit_or-eq-zero 0 _).1 (refl, same))
        (agree-accumulate rounds (index + 1) (λ j p q. h j (omega arith) (omega arith)))

take_ext :
    (k : ℕ) (xs ys : List ℕ)
    → k ≤ length xs
    → k ≤ length ys
    → ((j : ℕ) → j < k → get_or xs j 0 ≡ get_or ys j 0)
    → take k xs ≡ take k ys
take_ext zero xs ys p q h = refl
take_ext (suc k) [] ys p q h = absurd (omega arith)
take_ext (suc k) (x ∷ xs) [] p q h = absurd (omega arith)
take_ext (suc k) (x ∷ xs) (y ∷ ys) p q h =
    ap₂ ◌∷◌ (h 0 (omega arith))
      (take_ext k xs ys (omega arith) (omega arith) (λ j lt. h (suc j) (omega arith)))

get_or-take : (k : ℕ) (xs : List ℕ) (j : ℕ) → j < k → get_or (take k xs) j 0 ≡ get_or xs j 0
get_or-take zero xs j h = absurd (omega arith)
get_or-take (suc k) [] j h = refl
get_or-take (suc k) (x ∷ xs) zero h = refl
get_or-take (suc k) (x ∷ xs) (suc j) h = get_or-take k xs j (omega arith)

module _ (left : List ℕ) (m : ℕ) (right : List ℕ) (n : ℕ) (bound : ℕ) where
  equal-take :
      m ≤ length left
      → n ≤ length right
      → m ≤ bound
      → secure_string_equal left m right n bound ≡ true
      → take m left ≡ take n right
  unfolding secure_string_equal
  equal-take p q r h =
      let (lengths, agree) = accumulate-agree left m right n bound 0 _ ((==_iff _ 0).0 h) in
      let e : m ≡ n = (bit_xor-eq-zero m n).0 lengths in
      subst (λ k. take m left ≡ take k right) e
        (take_ext m left right p (omega arith) (λ j lt. ground (arith, agree j)))

  take-equal :
      m ≤ length left
      → n ≤ length right
      → take m left ≡ take n right
      → secure_string_equal left m right n bound ≡ true
  unfolding secure_string_equal
  take-equal p q e =
      let sizes : m ≡ n = omega (arith, ap length e, length-take m left, length-take n right) in
      (==_iff _ 0).1 (
        rw ((bit_xor-eq-zero m n).1 sizes) (
          agree-accumulate left m right n bound 0 (λ j lo hi. ground (
            arith,
            sizes,
            get_or-take m left j,
            get_or-take n right j,
            ap (λ xs. get_or xs j 0) e,
          ))))

-- Two strings that fit the bound compare equal exactly when they have the same bytes and lengths.
pub secure_string_equal_iff :
    (left : List ℕ) (left_length : ℕ) (right : List ℕ) (right_length bound : ℕ)
    → left_length ≤ length left
    → right_length ≤ length right
    → left_length ≤ bound
    → (secure_string_equal left left_length right right_length bound ≡ true)
      ↔ (take left_length left ≡ take right_length right)
secure_string_equal_iff left m right n bound p q r =
    (equal-take left m right n bound p q r, take-equal left m right n bound p q)
