-- ===== src/Base/Bits.antt =====
-- When `|` and `^` give zero, from the digit recursion that the native operations stand for.
use Prim.Native.Nat.{
  ℕ, zero, suc, ◌/◌, ◌%◌, ◌≤◌, max, bit_or, bit_xor, digits, differ, bit_or-bitwise,
  bit_xor-bitwise,
}
use mathlib.Core.Path.{◌≡◌, refl, sym, ◌∙◌}
use mathlib.Core.Logic.{◌↔◌}
use native.Mathlib.Omega.{arith}

-- Either number has no digit left, or the lowest digits and the rest both vanish.
or_digits-eq-zero : (n a b : ℕ) → a ≤ n → digits (λ y. y) max n a b ≡ 0 → (a ≡ 0) × (b ≡ 0)
or_digits-eq-zero zero zero b h e = (refl, e)
or_digits-eq-zero zero (suc a) b h e = absurd (omega arith)
or_digits-eq-zero (suc n) zero b h e = (refl, e)
or_digits-eq-zero (suc n) (suc a) b h e =
    let (high, low) = or_digits-eq-zero n (suc a / 2) (b / 2) (omega arith) (omega arith) in
    absurd (omega arith)

pub bit_or-eq-zero : (a b : ℕ) → (bit_or a b ≡ 0) ↔ ((a ≡ 0) × (b ≡ 0))
bit_or-eq-zero a b = (
  λ h. or_digits-eq-zero a a b (omega arith) (sym (bit_or-bitwise a b) ∙ h),
  λ (p, q). rw (p, q) (bit_or-bitwise 0 0),
)

differ-eq-zero : (a b : ℕ) → differ a b ≡ 0 → a ≡ b
differ-eq-zero zero b e = sym e
differ-eq-zero (suc a) zero e = e
differ-eq-zero (suc a) (suc b) e = omega (arith, differ-eq-zero a b e)

differ_self : (a : ℕ) → differ a a ≡ 0
differ_self zero = refl
differ_self (suc a) = differ_self a

xor_digits-eq-zero : (n a b : ℕ) → a ≤ n → digits (λ y. y) differ n a b ≡ 0 → a ≡ b
xor_digits-eq-zero zero zero b h e = sym e
xor_digits-eq-zero zero (suc a) b h e = absurd (omega arith)
xor_digits-eq-zero (suc n) zero b h e = sym e
xor_digits-eq-zero (suc n) (suc a) b h e =
    let high = xor_digits-eq-zero n (suc a / 2) (b / 2) (omega arith) (omega arith) in
    let low = differ-eq-zero (suc a % 2) (b % 2) (omega arith) in omega arith

xor_digits_self : (n a : ℕ) → a ≤ n → digits (λ y. y) differ n a a ≡ 0
xor_digits_self zero zero h = refl
xor_digits_self zero (suc a) h = absurd (omega arith)
xor_digits_self (suc n) zero h = refl
xor_digits_self (suc n) (suc a) h =
    omega (arith, xor_digits_self n (suc a / 2) (omega arith), differ_self (suc a % 2))

pub bit_xor-eq-zero : (a b : ℕ) → (bit_xor a b ≡ 0) ↔ (a ≡ b)
bit_xor-eq-zero a b = (
  λ h. xor_digits-eq-zero a a b (omega arith) (sym (bit_xor-bitwise a b) ∙ h),
  λ e. rw (← e) (bit_xor-bitwise a a ∙ xor_digits_self a a (omega arith)),
)
