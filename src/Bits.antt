-- ===== src/Bits.antt =====
-- Masks and shifts at variables, read as remainders and quotients.
mod Step
use Prim.Native.Nat.{max, bit_and, bit_or}
use native.Mathlib.Nat.{pow-suc, one-le-pow, div-one, mod-one, div-div-eq-div-mul}
use libhinawa.Base.{ℕ, zero, suc, ◌+◌, ◌-◌, ◌*◌, ◌/◌, ◌%◌, ◌^◌, ◌≤◌, ◌<◌, ◌≡◌, refl, sym, ap, arith}
use Step.{bit_and_step, bit_or_step}

-- C's `<<` and `>>` on a value that the shift does not overflow.
infixl 60 ◌<<<◌ ◌>>>◌
abbrev pub ◌<<<◌ : ℕ → ℕ → ℕ
x <<< k = x * 2 ^ k

abbrev pub ◌>>>◌ : ℕ → ℕ → ℕ
x >>> k = x / 2 ^ k

-- By the halves of the operand; `n` bounds it.
zeros : (n a : ℕ) → a ≤ n → (bit_and a 0 ≡ 0) × (bit_or a 0 ≡ a)
zeros zero zero h = (refl, refl)
zeros zero (suc a) h = absurd (omega arith)
zeros (suc n) a h =
    let (masked, joined) = zeros n (a / 2) (omega arith) in
    (omega (arith, bit_and_step a 0, masked), omega (arith, bit_or_step a 0, joined))

pub bit_or-zero : (a : ℕ) → bit_or a 0 ≡ a
bit_or-zero a = (zeros a a (omega arith)).1

two-mul-pow : (k : ℕ) → 2 ^ suc k ≡ 2 * 2 ^ k
two-mul-pow k = omega (arith, pow-suc 2 k)

mod-two_mul : (a p : ℕ) → 0 < p → a % (2 * p) ≡ a / 2 % p * 2 + a % 2
mod-two_mul a p h = grind arith

div-two_mul : (a p : ℕ) → 0 < p → a / (2 * p) ≡ a / 2 / p
div-two_mul a p h = grind arith

half_mask : (k : ℕ) → (2 ^ suc k - 1) / 2 ≡ 2 ^ k - 1
half_mask k = omega (arith, two-mul-pow k, one-le-pow k 2)

-- A mask of the `k` lowest bits is the remainder by `2 ^ k`.
pub bit_and-low_mask : (k a : ℕ) → bit_and a (2 ^ k - 1) ≡ a % 2 ^ k
bit_and-low_mask zero a = omega (arith, zeros a a)
bit_and-low_mask (suc k) a = omega (
  arith,
  bit_and_step a (2 ^ suc k - 1),
  two-mul-pow k,
  one-le-pow k 2,
  bit_and-low_mask k (a / 2),
  ap (λ (t : ℕ). bit_and (a / 2) t) (half_mask k),
  mod-two_mul a (2 ^ k) (one-le-pow k 2 (omega arith)),
  ap (λ (t : ℕ). a % t) (two-mul-pow k),
)

shr-suc : (k x : ℕ) → x >>> suc k ≡ x / 2 >>> k
shr-suc k x = rw (two-mul-pow k) (sym (div-div-eq-div-mul x 2 (2 ^ k)))

-- Shifting right commutes with a mask.
pub bit_and-shr : (k a b : ℕ) → bit_and a b >>> k ≡ bit_and (a >>> k) (b >>> k)
bit_and-shr zero a b = simp div-one
bit_and-shr (suc k) a b =
    rw (shr-suc k (bit_and a b), shr-suc k a, shr-suc k b, half_and) (bit_and-shr k (a / 2) (b / 2))
  where
    half_and : bit_and a b / 2 ≡ bit_and (a / 2) (b / 2)
    half_and = omega (arith, bit_and_step a b)

low_half : (a p : ℕ) → 0 < p → (a % (2 * p) / 2 ≡ a / 2 % p) × (a % (2 * p) % 2 ≡ a % 2)
low_half a p h = omega (arith, mod-two_mul a p h)

or_low :
    (a b p : ℕ)
    → 0 < p
    → bit_or (a % (2 * p)) (b % (2 * p)) ≡ max (a % 2) (b % 2) + 2 * bit_or (a / 2 % p) (b / 2 % p)
or_low a b p h =
    let halves = bit_or_step (a % (2 * p)) (b % (2 * p)) in
    rw ((low_half a p h).0, (low_half b p h).0, (low_half a p h).1, (low_half b p h).1) at halves

-- The `k` lowest bits of `|` are those of the operands, and so are the others.
pub bit_or_split :
    (k a b : ℕ) → bit_or a b ≡ bit_or (a >>> k) (b >>> k) * 2 ^ k + bit_or (a % 2 ^ k) (b % 2 ^ k)
bit_or_split zero a b = simp (div-one, mod-one) (omega arith)
bit_or_split (suc k) a b =
    rw (shr-suc k a, shr-suc k b, two-mul-pow k, or_low a b (2 ^ k) (one-le-pow k 2 (omega arith)))
      (omega (arith, bit_or_step a b, bit_or_split k (a / 2) (b / 2)))

-- `|` does not leave a width that holds both operands.
pub bit_or-lt : (k a b : ℕ) → a < 2 ^ k → b < 2 ^ k → bit_or a b < 2 ^ k
bit_or-lt zero zero zero p q = omega arith
bit_or-lt zero zero (suc b) p q = absurd (omega arith)
bit_or-lt zero (suc a) b p q = absurd (omega arith)
bit_or-lt (suc k) a b p q = omega (
  arith,
  two-mul-pow k,
  bit_or_step a b,
  bit_or-lt k (a / 2) (b / 2) (omega (arith, two-mul-pow k)) (omega (arith, two-mul-pow k)),
)
