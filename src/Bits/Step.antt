-- ===== src/Bits/Step.antt =====
-- One equation for the lowest digit of the native bit operations, at variables.
use Prim.Native.Nat.{
  ℕ, zero, suc, ◌+◌, ◌*◌, ◌/◌, ◌%◌, ◌≤◌, min, max, bit_and, bit_or, digits, bitwise,
  bit_and-bitwise, bit_or-bitwise,
}
use mathlib.Core.Path.{◌≡◌, refl}
use native.Mathlib.Nat.{le_refl}
use native.Mathlib.Omega.{arith}

-- `digits` reads no digit beyond the first operand, so any two bounds on it give the same.
module _ (rest : ℕ → ℕ) (digit : ℕ → ℕ → ℕ) where
  same_digits : (a b j k : ℕ) → a ≤ j → a ≤ k → digits rest digit j a b ≡ digits rest digit k a b
  same_digits zero b zero zero p q = refl
  same_digits zero b zero (suc k) p q = refl
  same_digits zero b (suc j) zero p q = refl
  same_digits zero b (suc j) (suc k) p q = refl
  same_digits (suc a) b zero k p q = absurd (omega arith)
  same_digits (suc a) b (suc j) zero p q = absurd (omega arith)
  same_digits (suc a) b (suc j) (suc k) p q =
      rw (same_digits (suc a / 2) (b / 2) j k (omega arith) (omega arith))

  unroll :
      (a b : ℕ)
      → bitwise rest digit (suc a) b
        ≡ digit (suc a % 2) (b % 2) + 2 * bitwise rest digit (suc a / 2) (b / 2)
  unroll a b =
      let half = suc a / 2 in
      omega (arith, same_digits half (b / 2) a half (omega arith) (le_refl half))

pub bit_and_step : (a b : ℕ) → bit_and a b ≡ min (a % 2) (b % 2) + 2 * bit_and (a / 2) (b / 2)
bit_and_step zero b = simp bit_and-bitwise (omega arith)
bit_and_step (suc a) b = simp bit_and-bitwise (unroll (λ n. 0) min a b)

pub bit_or_step : (a b : ℕ) → bit_or a b ≡ max (a % 2) (b % 2) + 2 * bit_or (a / 2) (b / 2)
bit_or_step zero b = simp bit_or-bitwise (omega arith)
bit_or_step (suc a) b = simp bit_or-bitwise (unroll (λ n. n) max a b)
