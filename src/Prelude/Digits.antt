-- ===== src/Prelude/Digits.antt =====
-- The laws of `bit_and`, `bit_or` and `bit_xor` for the lowest digit, and what follows for numbers
-- that are put side by side.
use Prim.Native.Nat.{
  ℕ, zero, suc, ◌+◌, ◌*◌, ◌/◌, ◌%◌, ◌^◌, ◌≤◌, ◌<◌, min, max, digits, differ, bit_and, bit_or,
  bit_xor, bit_and-bitwise, bit_or-bitwise, bit_xor-bitwise,
}
use mathlib.Core.Path.{◌≡◌, refl, sym, ◌∙◌}
use native.Mathlib.Nat.{pow-suc}
use native.Mathlib.Omega.{arith}

-- More rounds than the number has digits change nothing.
module _ (z : ℕ → ℕ) (f : ℕ → ℕ → ℕ) where
  digits-rounds : (n m a b : ℕ) → a ≤ n → a ≤ m → digits z f n a b ≡ digits z f m a b
  digits-rounds zero zero a b p q = refl
  digits-rounds zero (suc m) zero b p q = refl
  digits-rounds zero (suc m) (suc a) b p q = absurd (omega arith)
  digits-rounds (suc n) zero zero b p q = refl
  digits-rounds (suc n) zero (suc a) b p q = absurd (omega arith)
  digits-rounds (suc n) (suc m) zero b p q = refl
  digits-rounds (suc n) (suc m) (suc a) b p q =
      rw (digits-rounds n m (suc a / 2) (b / 2) (omega arith) (omega arith)) refl

  more_rounds :
      (a b : ℕ) → digits z f a (suc a / 2) (b / 2) ≡ digits z f (suc a / 2) (suc a / 2) (b / 2)
  more_rounds a b = digits-rounds a (suc a / 2) (suc a / 2) (b / 2) (omega arith) (omega arith)

pub bit_xor_halves : (a b : ℕ) → bit_xor a b ≡ bit_xor (a / 2) (b / 2) * 2 + differ (a % 2) (b % 2)
bit_xor_halves zero b = omega (arith, bit_xor-bitwise 0 b, bit_xor-bitwise 0 (b / 2))
bit_xor_halves (suc a) b = omega (
  arith,
  bit_xor-bitwise (suc a) b,
  bit_xor-bitwise (suc a / 2) (b / 2),
  more_rounds (λ y. y) differ a b,
)

pub bit_or_halves : (a b : ℕ) → bit_or a b ≡ bit_or (a / 2) (b / 2) * 2 + max (a % 2) (b % 2)
bit_or_halves zero b = omega (arith, bit_or-bitwise 0 b, bit_or-bitwise 0 (b / 2))
bit_or_halves (suc a) b = omega (
  arith,
  bit_or-bitwise (suc a) b,
  bit_or-bitwise (suc a / 2) (b / 2),
  more_rounds (λ y. y) max a b,
)

pub bit_and_halves : (a b : ℕ) → bit_and a b ≡ bit_and (a / 2) (b / 2) * 2 + min (a % 2) (b % 2)
bit_and_halves zero b = omega (arith, bit_and-bitwise 0 b, bit_and-bitwise 0 (b / 2))
bit_and_halves (suc a) b = omega (
  arith,
  bit_and-bitwise (suc a) b,
  bit_and-bitwise (suc a / 2) (b / 2),
  more_rounds (λ y. 0) min a b,
)

bit_and-zero_below : (n a : ℕ) → a ≤ n → bit_and a 0 ≡ 0
bit_and-zero_below n zero h = bit_and-bitwise 0 0
bit_and-zero_below zero (suc a) h = absurd (omega arith)
bit_and-zero_below (suc n) (suc a) h =
    omega (arith, bit_and_halves (suc a) 0, bit_and-zero_below n (suc a / 2) (omega arith))

doubled : (w h : ℕ) → h * 2 ^ suc w ≡ 2 * (h * 2 ^ w)
doubled w h = rw (pow-suc 2 w) (omega arith)

-- A mask of `w` bits does not see what stands above them.
pub bit_and-above : (w x h m : ℕ) → m < 2 ^ w → bit_and (x + h * 2 ^ w) m ≡ bit_and x m
bit_and-above zero x h m small =
    let e : m ≡ 0 = omega arith in
    rw e (
      omega (
        arith,
        bit_and-zero_below (x + h * 2 ^ 0) (x + h * 2 ^ 0) (omega arith),
        bit_and-zero_below x x (omega arith),
      ))
bit_and-above (suc w) x h m small =
    let p : 2 ^ suc w ≡ 2 * 2 ^ w = omega (arith, pow-suc 2 w) in
    let half : (x + h * 2 ^ suc w) / 2 ≡ x / 2 + h * 2 ^ w = omega (arith, doubled w h) in
    let digit : (x + h * 2 ^ suc w) % 2 ≡ x % 2 = omega (arith, doubled w h) in
    let ih = bit_and-above w (x / 2) h (m / 2) (omega arith) in
    bit_and_halves (x + h * 2 ^ suc w) m ∙ rw (half, digit, ih) (sym (bit_and_halves x m))

-- Numbers with no bit in common are added.
pub bit_or-above : (w x h : ℕ) → x < 2 ^ w → bit_or x (h * 2 ^ w) ≡ x + h * 2 ^ w
bit_or-above zero x h small =
    let e : x ≡ 0 = omega arith in rw e (omega (arith, bit_or-bitwise 0 (h * 2 ^ 0)))
bit_or-above (suc w) x h small =
    let half : h * 2 ^ suc w / 2 ≡ h * 2 ^ w = omega (arith, doubled w h) in
    let digit : h * 2 ^ suc w % 2 ≡ 0 = omega (arith, doubled w h) in
    let ih = bit_or-above w (x / 2) h (omega (arith, pow-suc 2 w)) in
    bit_or_halves x (h * 2 ^ suc w) ∙ rw (half, digit, ih) (omega (arith, doubled w h))

pub bit_and-zero : (b : ℕ) → bit_and 0 b ≡ 0
bit_and-zero b = bit_and-bitwise 0 b
